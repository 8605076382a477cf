-- ===== src/MacSync.antt =====
-- internal/macsync: the Mac's listener set, offered to the guest, and the reverse streams that it
-- opens. One module to a file of it, then one to each group of properties.
pub mod Listeners
pub mod Holder
pub mod Syncer
pub mod Streams
pub mod Session
pub mod Settings
pub mod Replay
pub mod HolderAnswers
pub mod Offer
pub mod Runs
