-- ===== src/Seat/Pointer.antt =====
-- seat.c: the view under the cursor, and the pointer's motion. The positions of dragged windows
-- (the other effect of wayland_app_grab_motion, elevated_grab_motion and decor_motion) and the
-- cursor's image are not in the state.
use sg_compositor.Prelude.{
  Bool, true, false, not, ◌&&◌, ◌||◌, Option, none, some, if◌then◌else◌, ◌==◌, is_some,
}
use sg_compositor.World.{View, ViewType, xdg_shell_view, xwayland_view, Server, Host, find_view}
use sg_compositor.Lock.Access.{lock_view_allowed}
use sg_compositor.Seat.Activity.{seat_notify_activity}

abbrev pub is_xwayland : ViewType → Bool
is_xwayland xdg_shell_view = false
is_xwayland xwayland_view = true

-- desktop_view_at: a view that may not be seen is not under the cursor either.
unfoldable pub desktop_view_at : Host → Server → Option View
desktop_view_at h s = elim (h.node_at s.views) [
  | none ↦ none
  | some i ↦ elim (find_view i s.views) [
    | none ↦ none
    | some v ↦ if not (lock_view_allowed s.lock v) then none else some v
  ]
]

-- wayland_app_is
abbrev pub wayland_app_is : View → Bool
wayland_app_is v = not (is_xwayland v.type) && v.managed

-- The view of the grab; none also when it is gone.
abbrev pub grabbed : Server → Option View
grabbed s = elim s.grab_view [ none ↦ none | some i ↦ find_view i s.views ]

-- wayland_app_grab_end
unfoldable pub wayland_app_grab_end : Server → Server
wayland_app_grab_end s = elim (grabbed s) [
  | none ↦ s
  | some v ↦ if wayland_app_is v then record s { grab_view = none } else s
]

-- wayland_app_grab_motion: the state, and whether the grab took the motion.
unfoldable pub wayland_app_grab_motion : Server → Server × Bool
unfolding wayland_app_grab_end
wayland_app_grab_motion s = elim (grabbed s) [
  | none ↦ (s, false)
  | some v ↦
      if not (wayland_app_is v)
      then (s, false)
      else if s.button_count == 0 || not (is_some v.surface)
      then (wayland_app_grab_end s, false)
      else (s, true)
]

-- Is the view mapped? One that left the list has lost its surface.
abbrev pub is_mapped : Option View → Bool
is_mapped none = false
is_mapped (some v) = is_some v.surface

-- elevated_grab_motion
unfoldable pub elevated_grab_motion : Server → Server × Bool
elevated_grab_motion s = elim (s.grab_view) [
  | none ↦ (s, false)
  | some i ↦
      if s.button_count == 0 || not (is_mapped (grabbed s))
      then (record s { grab_view = none }, false)
      else (s, true)
]

point_at : Option View → Server → Server
point_at none s = record s { pointer_focus = none }
point_at (some v) s = record s { pointer_focus = some v.id }

-- The part of process_cursor_motion after the grabs.
unfoldable pub pointer_to_cursor : Host → Server → Server
unfolding point_at
pointer_to_cursor h s = seat_notify_activity h (point_at (desktop_view_at h s) s)

abbrev motion_unless : Bool → Host → Server → Server
motion_unless true h s = seat_notify_activity h s
motion_unless false h s = pointer_to_cursor h s

-- A title bar being dragged (decor_motion) takes the motion too.
after_elevated : Host → Server × Bool → Server
after_elevated h (s, true) = seat_notify_activity h s
after_elevated h (s, false) = motion_unless s.title_drag h s

after_wayland : Host → Server × Bool → Server
unfolding after_elevated
after_wayland h (s, true) = seat_notify_activity h s
after_wayland h (s, false) = after_elevated h (elevated_grab_motion s)

unfoldable pub process_cursor_motion : Host → Server → Server
unfolding after_wayland
process_cursor_motion h s = after_wayland h (wayland_app_grab_motion s)
