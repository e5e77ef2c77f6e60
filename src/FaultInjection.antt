-- ===== src/FaultInjection.antt =====
-- extensions/composer/dynamic-fault-injection: an upstream filter that delays and replaces responses by
-- sampled latencies and statuses. `Match` is the request matching, the modules from `Shuffle` to `Tiers` are
-- the sampling, `Filter`, `InFlight`, `Respond` and `Outcome` the filter, and
-- `Percentiles` to `Accepted` the configuration, `Build` to `Factories` what is built from it.
pub mod Match
pub mod Shuffle
pub mod Stateful
pub mod Cycles
pub mod Floats
pub mod Interpolate
pub mod Response
pub mod Weights
pub mod GreyZone
pub mod Load
pub mod Tiers
pub mod Filter
pub mod InFlight
pub mod Respond
pub mod Outcome
pub mod Percentiles
pub mod Config
pub mod Validate
pub mod Accepted
pub mod Build
pub mod Ready
pub mod Factories
mod Tests
