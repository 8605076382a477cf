-- ===== src/Mirror.antt =====
-- internal/mirror: the Mac-side client that mirrors guest listeners onto local sockets.
-- One module to a part of mirror.go, then one to each group of properties.
pub mod Types
pub mod Policy
pub mod Sockets
pub mod Session
pub mod Reserve
pub mod Steps
pub mod View
pub mod Reconcile
pub mod Effects
pub mod Guest
pub mod Settings
pub mod Reservations
pub mod Refs
pub mod Safety
pub mod Holders
pub mod Lifetime
pub mod Owned
pub mod Leaks
pub mod Runs
