-- ===== src/Keys.antt =====
-- seat.c: the keys, those that the compositor reserves and those that a program gets.
pub mod Reserved
pub mod Events
pub mod Consumed
pub mod Swallowed
