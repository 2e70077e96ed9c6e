-- ===== src/Authority.antt =====
-- What each handler leaves of a lock.
pub mod Barred
pub mod Lock
pub mod Clients
pub mod Requests
pub mod Socket
pub mod Keys
