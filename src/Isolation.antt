-- ===== src/Isolation.antt =====
-- The isolation of the screen (lock.c): its invariant, and the handlers one by one.
pub mod Views
pub mod Focus
pub mod Told
pub mod Invariant
pub mod Engage
pub mod Release
pub mod Windows
pub mod Unmap
pub mod Minimize
pub mod Gone
pub mod Clients
pub mod Remote
pub mod Taskbar
pub mod Control
pub mod Attach
pub mod Socket
pub mod Keys
pub mod Upgrade
