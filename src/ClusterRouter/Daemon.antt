-- ===== src/ClusterRouter/Daemon.antt =====
-- cluster-router/graph/daemon.go: the poll loop. Times are nanoseconds of the monotonic clock. The
-- goroutines of `collectPeers` run one after the other here; `Daemon/Collect` shows that none depends on
-- another. Starting and stopping the server and the ticker is not modelled: a run is a list of ticks.
pub mod Collect
pub mod Ticks
use built_on_envoy.Prelude.{
  ℕ, Bytes, text, Option, none, some, List, [], ◌∷◌, Bool, if◌then◌else◌, not,
}
use built_on_envoy.Prelude.Int.{ℤ, sub_ℕ, ltb_ℤ}
use built_on_envoy.Prelude.Assoc.{GoMap, lookup, insert}
use built_on_envoy.ClusterRouter.Graph.{
  PeerSpec, LocalCluster, Advertisement, Table, role_terminal, role_peer, new_table,
}
use built_on_envoy.ClusterRouter.BestPath.{PeerAdvertisement, compute}
use built_on_envoy.ClusterRouter.Peer.{Fetched, ok, err}

pub record DaemonConfig : Type 0 where
  pub envoy_id : Bytes
  pub advertise_listen : Bytes
  pub peers : List PeerSpec
  pub terminals : List Bytes
  pub poll_interval : ℤ
  pub stale_after : ℤ

pub record PeerCacheEntry : Type 0 where
  pub adv : Advertisement
  pub received : ℕ

pub record Daemon : Type 0 where
  pub cfg : DaemonConfig
  pub table : Table
  pub last_peer : GoMap PeerCacheEntry

-- NewDaemon
unfoldable pub new_daemon : DaemonConfig → Daemon
unfolding new_table
new_daemon cfg = record { cfg = cfg; table = new_table cfg.envoy_id; last_peer = [] }

unfoldable pub peer_locals : List PeerSpec → GoMap LocalCluster → GoMap LocalCluster
peer_locals [] out = out
peer_locals (p ∷ peers) out = peer_locals peers (
    insert p.local_cluster (record { name = p.local_cluster; role = role_peer; peer_id = p.id })
      out)

unfoldable pub terminal_locals : List Bytes → GoMap LocalCluster → GoMap LocalCluster
terminal_locals [] out = out
terminal_locals (name ∷ terminals) out =
    terminal_locals terminals
      (insert name (record { name = name; role = role_terminal; peer_id = [] }) out)

-- buildLocals
unfoldable pub build_locals : DaemonConfig → GoMap LocalCluster
build_locals cfg = terminal_locals cfg.terminals (peer_locals cfg.peers [])

-- now.Sub(entry.received) <= d.cfg.StaleAfter
unfoldable pub is_fresh : ℤ → ℕ → PeerCacheEntry → Bool
is_fresh stale_after now entry = not (ltb_ℤ stale_after (sub_ℕ now entry.received))

unfoldable pub cached : ℤ → ℕ → PeerSpec → Option PeerCacheEntry → Option PeerAdvertisement
cached stale_after now p none = none
cached stale_after now p (some entry) =
    if is_fresh stale_after now entry then some (record { peer = p; adv = entry.adv }) else none

-- The goroutine of one peer: the advertisement to use, if any, and the cache after it.
unfoldable pub collect_peer :
    ℤ
    → ℕ
    → PeerSpec
    → Fetched
    → GoMap PeerCacheEntry
    → Option PeerAdvertisement × GoMap PeerCacheEntry
collect_peer stale_after now p (ok adv) cache = (
  some (record { peer = p; adv = adv }),
  insert p.id (record { adv = adv; received = now }) cache,
)
collect_peer stale_after now p (err e) cache = (cached stale_after now p (lookup p.id cache), cache)

unfoldable pub append_used :
    Option PeerAdvertisement → List PeerAdvertisement → List PeerAdvertisement
append_used none out = out
append_used (some pa) out = pa ∷ out

-- collectPeers, with the outcome of each fetch
unfoldable pub collect_peers :
    ℤ
    → ℕ
    → (PeerSpec → Fetched)
    → List PeerSpec
    → GoMap PeerCacheEntry
    → List PeerAdvertisement × GoMap PeerCacheEntry
collect_peers stale_after now fetch [] cache = ([], cache)
collect_peers stale_after now fetch (p ∷ peers) cache =
    let (used, cache') = collect_peer stale_after now p (fetch p) cache in
    let (out, cache'') = collect_peers stale_after now fetch peers cache' in
    (append_used used out, cache'')

unfoldable pub tick : Daemon → ℕ → (PeerSpec → Fetched) → Daemon
tick d now fetch =
    let locals = build_locals d.cfg in
    let (advs, cache) = collect_peers d.cfg.stale_after now fetch d.cfg.peers d.last_peer in
    record d {
      table = record {
        envoy_id = d.cfg.envoy_id;
        routes = compute d.cfg.envoy_id locals advs;
        local_clusters = locals;
      };
      last_peer = cache;
    }

-- loop: one tick at the start, and one for each time that the ticker fires
unfoldable pub loop : Daemon → List (ℕ × (PeerSpec → Fetched)) → Daemon
loop d [] = d
loop d ((now, fetch) ∷ ticks) = loop (tick d now fetch) ticks
