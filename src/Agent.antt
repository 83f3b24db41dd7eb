-- ===== src/Agent.antt =====
-- internal/agent: the controllers that start and stop sensor workers, and registration.
pub mod Workers
pub mod OsController
pub mod Merge
pub mod Run
pub mod ExternalIp
pub mod Publish
pub mod Lifecycle
pub mod Shutdown
pub mod Register
pub mod Urls
