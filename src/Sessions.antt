-- ===== src/Sessions.antt =====
-- internal/sessions/sessions.go: the interactive sessions and the connects under way.
pub mod State
pub mod Ends
pub mod Connect
pub mod Calls
pub mod World
pub mod Trace
pub mod Told
pub mod Once
pub mod Causes
pub mod Lifecycle
pub mod Faults
pub mod Gate
pub mod Opened
pub mod Performs
pub mod Quiet
pub mod Tests
