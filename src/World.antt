-- ===== src/World.antt =====
-- The compositor's shared state: struct cg_server (server.h), cg_lock (lock.h), cg_view (view.h),
-- cg_seat (seat.h) and cg_output (output.h), less what only draws and the windows' positions.
-- What the compositor asks the kernel and wlroots is a `Host`; what it tells them is its log.
mod Types
mod Access
pub use Types.*
unfoldable pub use Access.*
