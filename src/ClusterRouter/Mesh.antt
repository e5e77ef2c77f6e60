-- ===== src/ClusterRouter/Mesh.antt =====
-- A mesh of cluster-router daemons (cluster-router/graph): each Envoy has one, reached at its peers'
-- endpoints under its own id. A node is its daemon and every table that it has published, the current
-- one first; what a peer answers is served from any of these, so a fetch may overlap other ticks.
pub mod Paths
use built_on_envoy.Prelude.{ℕ, Bytes, text, List, [], ◌∷◌, Memᴰ, ◌≡◌, ◌≢◌}
use built_on_envoy.ClusterRouter.Graph.{PeerSpec, Advertisement, Table, new_table}
use built_on_envoy.ClusterRouter.Peer.{Fetched, ok, advertise, handle}
use built_on_envoy.ClusterRouter.Daemon.{DaemonConfig, Daemon, new_daemon, tick}

pub record Node : Type 0 where
  pub daemon : Daemon
  pub published : List Table

abbrev pub Network : Type 0
Network = Bytes → Node

unfoldable pub start : (Bytes → DaemonConfig) → Network
unfolding new_daemon
start configs e = record {
  daemon = new_daemon (configs e);
  published = (new_daemon (configs e)).table ∷ [];
}

unfoldable pub publish : Node → Daemon → Node
publish n d = record { daemon = d; published = d.table ∷ n.published }

-- One daemon ticks. A fetch may fail; an answer is what the peer's server makes of one of its tables.
pub data Step (n : Network) (m : Network) : Type 0 where
  ticks :
      (e : Bytes) (now : ℕ) (fetch : PeerSpec → Fetched)
      → ((p : PeerSpec) (adv : Advertisement)
          → fetch p ≡ ok adv
          → (t : Table) × Memᴰ t (n p.id).published
            × (handle p.id t (text "GET") e ≡ advertise adv))
      → m e ≡ publish (n e) (tick (n e).daemon now fetch)
      → ((o : Bytes) → o ≢ e → m o ≡ n o)
      → Step n m

pub data Reach (s : Network) : Network → Type 0 where
  here : Reach s s
  next : {n m : Network} → Reach s n → Step n m → Reach s m

-- A walk along configured peers from `e` to an Envoy that has the terminal `t`, by the ids passed.
pub data Walk (configs : Bytes → DaemonConfig) : Bytes → Bytes → List Bytes → Type 0 where
  arrive : {e t : Bytes} → Memᴰ t (configs e).terminals → Walk configs e t []
  hop :
      {e t : Bytes} {path full : List Bytes} (p : PeerSpec)
      → Memᴰ p (configs e).peers
      → Walk configs p.id t path
      → full ≡ p.id ∷ path
      → Walk configs e t full
