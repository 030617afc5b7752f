-- ===== src/Outside.antt =====
-- What the adapter calls and this repository does not hold: Python's text forms of dates and UUIDs,
-- and Redis. Each is a record of operations with a record of the laws that are documented for it.
pub mod Formats
pub mod Redis
pub mod ShortUuid
pub mod Client
