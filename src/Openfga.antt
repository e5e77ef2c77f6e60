-- ===== src/Openfga.antt =====
-- extensions/composer/openfga: an HTTP filter that asks an OpenFGA service whether a request is allowed.
-- `Source` says where the values of a check come from, `Rules` and `Config` are the configuration, `Handler`
-- the filter and the callback of its callout.
pub mod Source
pub mod Rules
pub mod Config
pub mod Handler
pub mod Trace
pub mod Decide
pub mod Matching
pub mod Request
pub mod Resolve
pub mod Build
pub mod Accepted
mod Tests
