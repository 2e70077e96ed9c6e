-- ===== src/Windows.antt =====
-- view.c, and the minimising and activating of elevated.c, session_x11.c and wayland_app.c.
pub mod Map
pub mod Minimize
pub mod Taskbar
