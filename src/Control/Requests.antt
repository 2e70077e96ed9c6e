-- ===== src/Control/Requests.antt =====
-- lock.c: the requests of the control socket that need no more than the connection's uid.
use sg_compositor.Prelude.{ℕ, Bool, not, ◌||◌, Option, none, some, ◌==◌, if◌then◌else◌, is_some}
use sg_compositor.World.{
  Server, Host, SasAction, Reply, ok_locked, ok_unlocked, ok_secure, ok_inhibited, ok_not_inhibited,
  ok, ok_none, ok_view, ok_control, err_not_permitted, err_locked, err_not_on_the_security_screen,
  err_no_such_window, err_no_desktop,
}
use sg_compositor.Lock.Access.{uid_may_unlock, uid_may_lock}
use sg_compositor.Lock.Engage.{
  lock_engage, lock_release, lock_secure_engage, lock_secure_release, lock_sas_action,
}
use sg_compositor.Windows.Taskbar.{session_x11_desktop_front}

-- Only for root and the machine session's account.
unfoldable pub for_the_machine : ℕ → Server → Server × Reply → Server × Reply
for_the_machine u s done = if uid_may_unlock s.lock u then done else (s, err_not_permitted)

-- For the session's own user too.
unfoldable pub for_the_session : Host → ℕ → Server → Server × Reply → Server × Reply
for_the_session h u s done = if uid_may_lock h s.lock u then done else (s, err_not_permitted)

-- `lock->locked ? "OK locked\n" : "OK unlocked\n"`
abbrev pub lock_state : Server → Reply
lock_state s = if s.lock.locked then ok_locked else ok_unlocked

abbrev pub done_or : Reply → Reply → Server × Bool → Server × Reply
done_or good bad (s, b) = (s, if b then good else bad)

unfoldable pub control_lock : Host → ℕ → Server → Server × Reply
unfolding for_the_session
control_lock h u s = for_the_session h u s (lock_engage h s, ok_locked)

unfoldable pub control_unlock : Host → ℕ → Server → Server × Reply
unfolding for_the_machine
control_unlock h u s = for_the_machine u s (lock_release h s, ok_unlocked)

unfoldable pub control_secure : Host → ℕ → Server → Server × Reply
unfolding for_the_machine
control_secure h u s = for_the_machine u s (done_or ok_secure err_locked (lock_secure_engage h s))

unfoldable pub control_sas : Host → ℕ → SasAction → Server → Server × Reply
unfolding for_the_machine
control_sas h u a s =
    for_the_machine u s (done_or ok_unlocked err_not_on_the_security_screen (lock_sas_action h a s))

unfoldable pub control_release : Host → ℕ → Server → Server × Reply
unfolding for_the_machine
control_release h u s = let t = lock_secure_release h s in for_the_machine u s (t, lock_state t)

-- IDLE and STATUS, which anyone may ask
unfoldable pub idle_status : Server → Reply
idle_status s =
    if not (s.control_inhibitors == 0) || not (s.inhibitors == 0)
    then ok_inhibited
    else ok_not_inhibited

unfoldable pub lock_status : Server → Reply
lock_status s = if s.lock.secure then ok_secure else lock_state s

unfoldable pub shadow_status : Server → Reply
shadow_status s =
    if not (is_some s.shadow_client)
    then ok_none
    else if s.shadow_control
    then ok_control
    else ok_view

-- What the taskbar asks for. A window's number that cannot be read is no number.
unfoldable pub control_window :
    Host → ℕ → Option ℕ → (ℕ → Server → Server × Bool) → Server → Server × Reply
unfolding for_the_session
control_window h u none act s = for_the_session h u s (s, err_no_such_window)
control_window h u (some w) act s = for_the_session h u s (done_or ok err_no_such_window (act w s))

unfoldable pub control_elevated_window :
    Host → ℕ → Option (ℕ × ℕ) → (ℕ → ℕ → Server → Server × Bool) → Server → Server × Reply
unfolding for_the_session
control_elevated_window h u none act s = for_the_session h u s (s, err_no_such_window)
control_elevated_window h u (some (i, w)) act s =
    for_the_session h u s (done_or ok err_no_such_window (act i w s))

unfoldable pub control_desktop : Host → ℕ → Server → Server × Reply
unfolding for_the_session
control_desktop h u s =
    for_the_session h u s (done_or ok err_no_desktop (session_x11_desktop_front h s))
