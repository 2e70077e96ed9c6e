-- ===== src/Windows/Taskbar.antt =====
-- What the taskbar asks for: session_x11.c's windows of the session's own programs, and elevated.c's.
-- The stacking inside a layer is not in the state.
use sg_compositor.Prelude.{
  ℕ, Bool, true, false, not, ◌&&◌, ◌||◌, Option, none, some, ◌==◌, if◌then◌else◌, find, is_some,
}
use sg_compositor.World.{View, Server, Host, same_id, closed_window, log_effect}
use sg_compositor.Lock.Access.{lock_view_is_privileged}
use sg_compositor.Seat.Pointer.{is_xwayland, wayland_app_is}
use sg_compositor.Seat.Focus.{seat_set_focus}
use sg_compositor.Windows.Minimize.{
  view_minimize, x11_minimize, wayland_app_minimize, activate_view,
}

-- program_surface: does the view count as a window of a session's own X11 program?
unfoldable pub program_surface : Server → View → Bool
program_surface s v =
    is_xwayland v.type
    && not (is_some v.elevated)
    && not (v.override_redirect || v.has_parent || v.shell_desktop)
    && not (lock_view_is_privileged s.lock v)
    && not v.class_exe

-- find: X11 or native Wayland, by the window's number
abbrev pub is_program : Server → ℕ → View → Bool
is_program s w v = (program_surface s v || wayland_app_is v) && v.window_id == w

unfoldable pub find_program : Server → ℕ → Option View
find_program s w = find (is_program s w) s.views

abbrev pub activate_found : Host → Option View → Server → Server × Bool
activate_found h none s = (s, false)
activate_found h (some v) s = (activate_view h v s, true)

-- session_x11_activate
unfoldable pub session_x11_activate : Host → ℕ → Server → Server × Bool
session_x11_activate h w s = activate_found h (find_program s w) s

abbrev pub minimize_found : Host → Option View → Server → Server × Bool
minimize_found h none s = (s, false)
minimize_found h (some v) s =
    (if wayland_app_is v then wayland_app_minimize h v s else x11_minimize h v s, true)

-- session_x11_minimize
unfoldable pub session_x11_minimize : Host → ℕ → Server → Server × Bool
session_x11_minimize h w s = minimize_found h (find_program s w) s

abbrev pub close_found : Option View → Server → Server × Bool
close_found none s = (s, false)
close_found (some v) s = (log_effect (closed_window v.id) s, true)

-- session_x11_close: the program is asked to close the window.
unfoldable pub session_x11_close : ℕ → Server → Server × Bool
session_x11_close w s = close_found (find_program s w) s

abbrev pub is_desktop : View → Bool
is_desktop v = is_xwayland v.type && v.shell_desktop

abbrev pub focus_found : Host → Option View → Server → Server × Bool
focus_found h none s = (s, false)
focus_found h (some v) s = (seat_set_focus h v.id s, true)

-- session_x11_desktop_front: the focus goes to the shell's desktop.
unfoldable pub session_x11_desktop_front : Host → Server → Server × Bool
session_x11_desktop_front h s = focus_found h (find is_desktop s.views) s

-- session_x11_super: not from an elevated window, the lock screen, a prompt or the desktop.
unfoldable pub session_x11_super : Host → Option View → Server → Server × Bool
session_x11_super h none s = (s, false)
session_x11_super h (some v) s =
    if is_some v.elevated || lock_view_is_privileged s.lock v || is_desktop v
    then (s, false)
    else session_x11_desktop_front h s

abbrev pub is_elevated_window : ℕ → ℕ → View → Bool
is_elevated_window i w v = same_id v.elevated (some i) && v.window_id == w

-- elevated_activate
unfoldable pub elevated_activate : Host → ℕ → ℕ → Server → Server × Bool
elevated_activate h i w s = activate_found h (find (is_elevated_window i w) s.views) s

abbrev pub minimize_elevated : Host → Option View → Server → Server × Bool
minimize_elevated h none s = (s, false)
minimize_elevated h (some v) s = (view_minimize h v s, true)

-- elevated_minimize
unfoldable pub elevated_minimize : Host → ℕ → ℕ → Server → Server × Bool
elevated_minimize h i w s = minimize_elevated h (find (is_elevated_window i w) s.views) s
