-- ===== src/Progress.antt =====
-- openraft/src/progress: how far the log of a target node is known to match the leader's, and what
-- is being sent to it.
pub mod Inflight
pub mod Entry
pub mod Update
pub mod Send
pub mod Response
mod Tests
