-- ===== src/Windows/Minimize.antt =====
-- Minimising, restoring and activating a window: elevated.c, session_x11.c and wayland_app.c.
use sg_compositor.Prelude.{Bool, true, false, not, ◌&&◌, ◌||◌, some, if◌then◌else◌, find, is_some}
use sg_compositor.World.{
  View, Server, Host, same_id, update_view, forget, view_set_visible, log_effect, activated,
}
use sg_compositor.Lock.Access.{lock_view_is_privileged, lock_view_allowed}
use sg_compositor.Lock.Engage.{focus_first}
use sg_compositor.Seat.Focus.{seat_set_focus}

-- view_visible (elevated.c)
unfoldable pub view_visible : View → Bool
view_visible v = v.has_tree && v.enabled && not v.minimized

abbrev pub session_view : Server → View → Bool
session_view s v =
    not (is_some v.elevated) && not (lock_view_is_privileged s.lock v) && view_visible v

unfoldable pub elevated_focus_session : Host → Server → Server
elevated_focus_session h s = focus_first h (find (session_view s) s.views) s

unfoldable pub minimized_view : View → View
unfolding view_set_visible
minimized_view v = view_set_visible false (record v { minimized = true })

-- What minimising does in all three files: the window is hidden and a drag of it ends ...
unfoldable pub hide_minimized : View → Server → Server
unfolding minimized_view
hide_minimized v s = record s {
  views = update_view v.id minimized_view s.views;
  grab_view = forget v.id s.grab_view;
}

-- ... and if it had the focus a session window gets it.
unfoldable pub minimize_view : Host → View → Server → Server
minimize_view h v s =
    if same_id s.keyboard_focus (some v.id)
    then elevated_focus_session h (hide_minimized v s)
    else hide_minimized v s

-- view_minimize (elevated.c): not without a scene tree.
unfoldable pub view_minimize : Host → View → Server → Server
view_minimize h v s = if v.minimized || not v.has_tree then s else minimize_view h v s

-- session_x11_minimize, once the window is found
unfoldable pub x11_minimize : Host → View → Server → Server
x11_minimize h v s = if v.minimized then s else minimize_view h v s

-- wayland_app_minimize: the program is told that it is not active any more.
unfoldable pub wayland_app_minimize : Host → View → Server → Server
wayland_app_minimize h v s =
    if v.minimized
    then s
    else if same_id s.keyboard_focus (some v.id)
    then elevated_focus_session h (log_effect (activated v.id false) (hide_minimized v s))
    else hide_minimized v s

unfoldable pub restored_view : Server → View → View
unfolding view_set_visible
restored_view s v = view_set_visible (lock_view_allowed s.lock v) (record v { minimized = false })

-- view_restore (elevated.c), and the same steps of session_x11_activate and wayland_app_activate.
unfoldable pub view_restore : View → Server → Server
unfolding restored_view
view_restore v s =
    if not v.minimized then s else record s { views = update_view v.id (restored_view s) s.views }

-- Restoring a window and giving it the focus.
unfoldable pub activate_view : Host → View → Server → Server
activate_view h v s = seat_set_focus h v.id (view_restore v s)
