-- ===== src/Transfer.antt =====
-- internal/sftpservice/transfer_manager.go: the transfer task centre.
pub mod State
pub mod Schedule
pub mod Enqueue
pub mod Methods
pub mod Running
mod Counts
pub mod Invariant
mod Picked
mod Sections
mod Disposal
pub mod Reach
pub mod Progress
pub mod Final
pub mod Calls
pub mod Outcomes
pub mod Closed
mod Tests
