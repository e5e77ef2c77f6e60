-- ===== src/FaultInjection/Tests.antt =====
-- The theorems on fault injection at concrete inputs: sampling with whole numbers as the floats, and a
-- filter that replaces the status 200 by 503.
mod Samples
mod Requests
mod Configs
mod Built
