-- ===== src/Seat.antt =====
-- seat.c: where the keyboard and the pointer are.
pub mod Activity
pub mod Pointer
pub mod Focus
