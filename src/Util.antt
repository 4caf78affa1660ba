-- ===== src/Util.antt =====
-- util/: the shared helpers.
pub mod Lines
pub mod Addrs
pub mod Ids
pub mod Urls
mod Tests
