-- ===== src/Tunnel.antt =====
-- internal/tunnel: the local forwards of a session, and the listeners that they can reach.
pub mod Address
pub mod Parse
pub mod Service
pub mod Given
pub mod Discovered
pub mod Listeners
pub mod Started
pub mod Tests
