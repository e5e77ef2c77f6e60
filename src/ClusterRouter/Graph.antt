-- ===== src/ClusterRouter/Graph.antt =====
-- cluster-router/graph/types.go and table.go. A `map[string]T` is a `GoMap T`; `AtomicTable` is the
-- current table, which a store replaces whole.
use built_on_envoy.Prelude.{Bytes, Bool, true, false, Option, List, []}
use built_on_envoy.Prelude.Int.{ℤ}
use built_on_envoy.Prelude.Assoc
use built_on_envoy.Prelude.Assoc.{GoMap}

pub record PeerSpec : Type 0 where
  pub id : Bytes
  pub endpoint : Bytes
  pub local_cluster : Bytes

pub data ClusterRole : Type 0 where
  role_terminal role_peer role_ignore : ClusterRole

unfoldable pub is_terminal : ClusterRole → Bool
is_terminal role_terminal = true
is_terminal _ = false

pub record LocalCluster : Type 0 where
  pub name : Bytes
  pub role : ClusterRole
  pub peer_id : Bytes

pub record Route : Type 0 where
  pub target_cluster : Bytes
  pub next_hop_local_cluster : Bytes
  pub distance : ℤ
  pub as_path : List Bytes

pub record Advertisement : Type 0 where
  pub envoy_id : Bytes
  pub routes : List Route

pub record Table : Type 0 where
  pub envoy_id : Bytes
  pub routes : GoMap Route
  pub local_clusters : GoMap LocalCluster

-- Table.Lookup on a table that is there; `Load` never returns nil.
unfoldable pub lookup_route : Table → Bytes → Option Route
lookup_route t target = Assoc.lookup target t.routes

-- NewAtomicTable
unfoldable pub new_table : Bytes → Table
new_table envoy_id = record { envoy_id = envoy_id; routes = []; local_clusters = [] }
