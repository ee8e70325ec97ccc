-- ===== src/Stores.antt =====
-- The stores that keep their state in a file: internal/atomicfile, internal/knownhosts, internal/hosts.
pub mod AtomicFile
pub mod KnownHosts
pub mod Trust
pub mod Hosts
pub mod Saved
pub mod Changes
mod Tests
