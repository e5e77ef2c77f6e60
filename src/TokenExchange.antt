-- ===== src/TokenExchange.antt =====
-- extensions/composer/token-exchange: an HTTP filter that exchanges the bearer token of a request for
-- another one at a security token service (STS), by RFC 8693. `Config` is its configuration, `Handler` the
-- filter and the callback of its callout; `Valid`, `Body` and `Outcome` prove what they do.
pub mod Config
pub mod Handler
pub mod Valid
pub mod Body
pub mod Outcome
mod Tests
