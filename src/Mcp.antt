-- ===== src/Mcp.antt =====
-- internal/mcpcli: the sessions that external agents open, and the tools that work on them.
pub mod State
pub mod Sections
pub mod World
pub mod Services
pub mod Connect
pub mod Files
pub mod Arguments
pub mod Call
pub mod Restores
pub mod Names
pub mod Granted
pub mod Opened
pub mod Closing
pub mod Shut
pub mod Reaped
pub mod Reaping
pub mod StaysOut
pub mod Tests
pub mod Tables
pub mod Slots
pub mod Alike
pub mod Ids
pub mod Busy
pub mod Sound
