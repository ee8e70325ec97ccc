-- ===== src/Permission.antt =====
-- internal/permission: the consent of the user to sensitive tool calls.
pub mod Policy
pub mod Service
pub mod Channel
pub mod Consent
pub mod Memory
pub mod Answers
mod Tests
