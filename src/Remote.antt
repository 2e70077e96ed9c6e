-- ===== src/Remote.antt =====
-- lock.c: the privileged connections, the console shadow, and Remote Desktop.
pub mod Clients
pub mod Shadow
pub mod Session
pub mod Admission
