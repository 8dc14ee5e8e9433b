-- ===== src/Dispatch.antt =====
-- src/core/dispatch.rs: readers of a hub's ring, each with a cursor and a policy.
pub mod Coalesce
pub mod Reader
pub mod Receive
pub mod Prime
pub mod Drain
pub mod Gap
pub mod Collapse
pub mod Resend
pub mod Stuck
pub mod Restart
mod Tests
