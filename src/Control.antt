-- ===== src/Control.antt =====
-- lock.c: the control socket.
pub mod Requests
pub mod Connections
pub mod Session
pub mod Socket
