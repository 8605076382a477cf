-- ===== src/Listen.antt =====
-- internal/agent/listen.go: where the agent's transport listens, and whose connections it accepts.
pub mod Prefix
pub mod Vznat
pub mod Lowest
pub mod Guard
pub mod First
pub mod Runs
