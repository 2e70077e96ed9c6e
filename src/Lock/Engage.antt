-- ===== src/Lock/Engage.antt =====
-- lock.c: isolating the screen for a lock, a secure prompt or the security screen, and ending it.
use sg_compositor.Prelude.{
  Bool, true, false, not, ◌&&◌, ◌||◌, map, Option, none, some, if◌then◌else◌, find, is_empty,
}
use sg_compositor.World.{
  View, Lock, Server, Host, WatchEvent, locked_event, unlocked_event, secure_event, sas_event,
  released_event, SasAction, cancel, other_action, ran_sas_helper, log_effect, view_set_visible,
}
use sg_compositor.Lock.Access.{lock_view_is_privileged, lock_view_allowed}
use sg_compositor.Lock.Watchers.{notify_watchers}
use sg_compositor.Seat.Focus.{seat_set_focus}

-- A view was just mapped: under a secure prompt's dimming it may show, under a lock it may not.
unfoldable pub lock_view_mapped : Server → View → View
unfolding view_set_visible
lock_view_mapped s v =
    view_set_visible ((lock_view_allowed s.lock v || s.lock.secure) && not v.minimized) v

unfoldable pub set_dimmed : Bool → Server → Server
set_dimmed on s = record s { dimmed = if s.dim_rect then on else s.dimmed }

abbrev pub hide_one : Lock → View → View
hide_one l v = if lock_view_is_privileged l v then v else view_set_visible false v

unfoldable pub hide_unprivileged : Server → Server
unfolding set_dimmed
hide_unprivileged s = set_dimmed false (record s { views = map (hide_one s.lock) s.views })

-- The loop of isolate over the views.
unfoldable pub show_privileged : Server → Server
unfolding view_set_visible
show_privileged s = record s {
  views =
      if s.lock.secure
      then s.views
      else map (λ v. view_set_visible (lock_view_is_privileged s.lock v) v) s.views;
}

-- wlr_seat_keyboard_notify_clear_focus: a grab may ignore it.
abbrev pub clear_keyboard : Host → Server → Server
clear_keyboard h s = record s {
  keyboard_focus = if h.keyboard_grabbed s then s.keyboard_focus else none;
  keyboard_kept = h.keyboard_grabbed s;
}

-- ... and wlr_seat_pointer_notify_clear_focus
abbrev pub clear_focus : Host → Server → Server
clear_focus h s = record (clear_keyboard h s) { pointer_focus = none }

abbrev pub focus_first : Host → Option View → Server → Server
focus_first h none s = s
focus_first h (some v) s = seat_set_focus h v.id s

-- isolate between telling the watchers and giving the focus to the lock screen
unfoldable pub conceal : Host → Server → Server
unfolding show_privileged set_dimmed
conceal h s = clear_focus h (set_dimmed s.lock.secure (show_privileged s))

unfoldable pub isolate : Host → WatchEvent → Server → Server
isolate h e s =
    let t = notify_watchers h e (record s { lock = record (s.lock) { locked = true } }) in
    focus_first h (find (lock_view_is_privileged t.lock) t.views) (conceal h t)

unfoldable pub lock_engage : Host → Server → Server
lock_engage h s =
    if s.lock.locked && s.lock.sas
    then notify_watchers h locked_event (record s { lock = record (s.lock) { sas = false } })
    else if s.lock.locked && s.lock.secure
    then notify_watchers h locked_event
        (hide_unprivileged (record s { lock = record (s.lock) { secure = false } }))
    else if s.lock.locked
    then s
    else isolate h locked_event s

-- The state, and whether there is a prompt now.
unfoldable pub lock_secure_engage : Host → Server → Server × Bool
lock_secure_engage h s =
    if s.lock.locked
    then (s, false)
    else (isolate h secure_event (record s { lock = record (s.lock) { secure = true } }), true)

-- Focus goes back to the most recent ordinary view.
abbrev pub ordinary : Server → View → Bool
ordinary s v = not (lock_view_is_privileged s.lock v) && not v.minimized

-- unisolate before the watchers are told
unfoldable pub end_isolation : Server → Server
unfolding set_dimmed
end_isolation s =
    set_dimmed false
      (record s { lock = record (s.lock) { locked = false; secure = false; sas = false } })

-- ... and after it, up to giving the focus back
unfoldable pub reveal : Host → Server → Server
unfolding view_set_visible
reveal h s = record (clear_keyboard h s) {
  views = map (λ v. view_set_visible (not v.minimized) v) s.views;
}

unfoldable pub unisolate : Host → WatchEvent → Server → Server
unisolate h e s =
    let t = reveal h (notify_watchers h e (end_isolation s)) in
    focus_first h (find (ordinary t) t.views) t

unfoldable pub lock_release : Host → Server → Server
lock_release h s = if not s.lock.locked then s else unisolate h unlocked_event s

-- With no lock service watching there is no one to draw the security screen: it locks.
unfoldable pub lock_sas_engage : Host → Server → Server × Bool
lock_sas_engage h s =
    if s.lock.locked
    then (s, false)
    else if is_empty s.lock.watchers
    then (lock_engage h s, true)
    else (isolate h sas_event (record s { lock = record (s.lock) { sas = true } }), true)

abbrev pub run_sas_helper : SasAction → Server → Server
run_sas_helper cancel s = s
run_sas_helper a s = log_effect (ran_sas_helper a) s

abbrev pub known_action : SasAction → Bool
known_action other_action = false
known_action a = true

unfoldable pub lock_sas_action : Host → SasAction → Server → Server × Bool
lock_sas_action h a s =
    if not s.lock.locked || not s.lock.sas
    then (s, false)
    else if not (known_action a)
    then (s, false)
    else (run_sas_helper a (unisolate h unlocked_event s), true)

unfoldable pub lock_secure_release : Host → Server → Server
lock_secure_release h s =
    if not s.lock.locked || not s.lock.secure then s else unisolate h released_event s
