-- ===== src/Batcher.antt =====
-- internal/sessions/batcher.go: the batches of a terminal's output.
pub mod Utf8
pub mod State
pub mod Flush
pub mod Take
pub mod Sections
pub mod Bounds
pub mod Methods
pub mod Boundary
pub mod Ends
mod Tests
