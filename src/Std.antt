-- ===== src/Std.antt =====
-- What the code uses of Go's standard library.
pub mod Paths
pub mod Strings
pub mod Format
