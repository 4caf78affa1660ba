-- ===== src/Api.antt =====
-- api/: the change log of the API and the calls that write it.
pub mod Changelog
pub mod Service
pub mod Pause
mod Tests
