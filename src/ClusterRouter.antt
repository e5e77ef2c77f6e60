-- ===== src/ClusterRouter.antt =====
-- extensions/composer/cluster-router: next-hop resolution over a mesh of Envoys. `Graph` holds the
-- data, `BestPath` the computation of a routing table, `Daemon` the poll loop that keeps it fresh,
-- `Mesh` a network of daemons, `Config` the validation and `Filter` the per-request filter.
pub mod Graph
pub mod BestPath
pub mod Peer
pub mod Daemon
pub mod Mesh
pub mod Config
pub mod Filter
mod Tests
