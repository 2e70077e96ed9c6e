-- ===== src/System.antt =====
-- The compositor as a whole: what happens to it, one event at a time, from its start.
pub mod Events
pub mod Soundness
pub mod Unlocking
pub mod Consequences
