-- ===== src/Tests.antt =====
-- Concrete instances, and each theorem applied to one.
pub mod Codec
pub mod Fixtures
pub mod Processing
pub mod Storing
pub mod Working
pub mod Controlling
pub mod Commanding
pub mod Registering
pub mod Powering
pub mod Spinning
pub mod Watching
pub mod Reporting
pub mod Merging
