-- ===== src/Decor.antt =====
-- decor.c: the frames that the compositor draws round Linux programs' windows.
pub mod Conf
pub mod Text
pub mod Pixels
pub mod Icon
pub mod Frames
pub mod Mouse
