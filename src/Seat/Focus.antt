-- ===== src/Seat/Focus.antt =====
-- seat.c: seat_set_focus. The keys held, the window's title and the stacking inside a layer are not
-- in the state.
use sg_compositor.Prelude.{
  ℕ, Bool, true, false, not, ◌&&◌, ◌||◌, ◌∷◌, Option, none, some, if◌then◌else◌, is_some,
}
use sg_compositor.World.{
  View, Server, Host, activated, find_view, same_id, move_to_front, log_effect,
}
use sg_compositor.Lock.Access.{lock_view_allowed}
use sg_compositor.Seat.Pointer.{is_xwayland, process_cursor_motion}

-- view_is_primary
abbrev pub view_is_primary : View → Bool
view_is_primary v = not v.has_parent

-- view_activate of the view that had the focus
deactivate : Option ℕ → Server → Server
deactivate none s = s
deactivate (some i) s = log_effect (activated i false) s

-- wlr_seat_keyboard_notify_enter: a grab may ignore it; without a surface nothing has the focus.
abbrev pub keyboard_enter : Host → View → Server → Option ℕ
keyboard_enter h v s =
    if h.keyboard_grabbed s then s.keyboard_focus else if is_some v.surface then some v.id else none

-- seat_set_focus once the view may have the focus, up to the pointer's motion
unfoldable pub focus_enter : Host → View → Server → Server
unfolding deactivate
focus_enter h v s =
    let t = deactivate s.keyboard_focus s in
    record t {
      views =
          if not (view_is_primary v) || is_some v.elevated
          then move_to_front v t.views
          else t.views;
      keyboard_focus = keyboard_enter h v t;
      log = activated v.id true ∷ t.log;
    }

-- The early returns of seat_set_focus.
unfoldable pub focus_refused : Server → View → Bool
focus_refused s v =
    same_id s.keyboard_focus (some v.id)
    || not (lock_view_allowed s.lock v)
    || (is_xwayland v.type && not v.wants_focus)

unfoldable pub focus_view : Host → View → Server → Server
focus_view h v s = if focus_refused s v then s else process_cursor_motion h (focus_enter h v s)

unfoldable pub seat_set_focus : Host → ℕ → Server → Server
unfolding focus_view
seat_set_focus h i s = elim (find_view i s.views) [ none ↦ s | some v ↦ focus_view h v s ]
