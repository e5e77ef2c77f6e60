-- ===== src/ClusterRouter/Tests.antt =====
-- Runs of the cluster router, and its theorems at concrete inputs: Envoy `a` has the peers `b` and `c`,
-- of which `b` has the terminal cluster `svc`.
mod Tables
mod Meshes
mod Settings
