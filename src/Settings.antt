-- ===== src/Settings.antt =====
-- internal/settings/settings.go: the settings in their file, and how each value is made valid.
pub mod Floats
pub mod State
pub mod Texts
pub mod Json
pub mod Providers
pub mod File
pub mod Store
pub mod Values
pub mod Listed
pub mod Provided
pub mod Fallback
pub mod Defaulted
pub mod Bounds
pub mod Valid
pub mod Persists
pub mod Again
pub mod Settled
pub mod Tests
