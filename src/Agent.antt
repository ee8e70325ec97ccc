-- ===== src/Agent.antt =====
-- internal/agent: the transcript of the assistant and its compaction.
pub mod Message
pub mod History
pub mod Budget
pub mod Compaction
pub mod Accepted
pub mod Rounds
pub mod Split
pub mod Dropped
pub mod Reconciled
pub mod Answered
pub mod Settled
pub mod Replies
pub mod Replied
pub mod Eino
pub mod Drive
pub mod Emission
pub mod Exchange
pub mod Exchanges
pub mod Performs
pub mod Conversations
pub mod Runs
pub mod Isolation
mod Tests
mod RunTests
mod DriveTests
