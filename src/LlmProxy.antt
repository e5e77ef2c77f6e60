-- ===== src/LlmProxy.antt =====
-- extensions/composer/llm-proxy: an HTTP filter that reads requests to language models and their responses.
-- `Config` is the choice of a rule for a path, and the configuration; `Accepted` what an accepted one has.
pub mod Config
pub mod Accepted
mod Tests
