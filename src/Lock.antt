-- ===== src/Lock.antt =====
-- lock.c: who may do what, what the watchers are told, and the isolation of the screen.
pub mod Access
pub mod Watchers
pub mod Engage
pub mod Globals
pub mod Visibility
pub mod Heard
