-- ===== src/Supervise.antt =====
-- internal/agent: the supervision of seccomp notify descriptors, and the answers to binds.
pub mod Cap
pub mod Agent
pub mod Steps
pub mod Account
pub mod Life
pub mod Restart
pub mod Answer
pub mod Refused
pub mod Runs
