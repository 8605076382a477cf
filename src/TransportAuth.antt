-- ===== src/TransportAuth.antt =====
-- internal/transportauth: the per-VM transport authentication scheme. One module to a file of it,
-- then one to each group of properties.
pub mod Secret
pub mod Frame
pub mod Handshake
pub mod Latch
pub mod Diagnose
pub mod Evidence
pub mod SecretText
pub mod Domains
pub mod Outcomes
pub mod Exchange
pub mod Sticky
pub mod Reports
pub mod Runs
