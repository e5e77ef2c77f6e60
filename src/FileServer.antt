-- ===== src/FileServer.antt =====
-- extensions/composer/file-server: an HTTP filter that serves files of the local file system. `Config` is
-- its configuration, `Paths` and `Mapping` the way from a request to a file, `Range` the Range header,
-- `Handler` the filter itself.
pub mod Config
pub mod Paths
pub mod Mapping
pub mod Range
pub mod Handler
pub mod Choice
pub mod Served
pub mod Head
mod Tests
