-- ===== src/Examples/Runs.antt =====
-- The theorems on the compositor as a whole, on that run.
use sg_compositor.World.{Server, closed, log_effect}
use sg_compositor.Remote.Clients.{handle_lock_connection}
use sg_compositor.Prelude.{false, arith, ap, ◌∙◌, ◌∷◌, true, [], none, some, ◌≡◌, refl}
use sg_compositor.Lock.Access.{uid_may_unlock, lock_view_is_privileged}
use sg_compositor.Control.Socket.{unlock_command}
use sg_compositor.Isolation.Invariant.{IsSound}
use sg_compositor.System.Events.{Event, lock_connection, control_connection, step}
use sg_compositor.System.Soundness.{Reachable-IsSound}
use sg_compositor.System.Consequences.{
  seat_get_focus-privileged, pointer_focus-privileged, shown-privileged,
}
use sg_compositor.System.Unlocking.{
  Unauthorised, stays, goes_on, is_authorised, Unauthorised-IsBarred,
}
use sg_compositor.Authority.Barred.{IsBarred}
use sg_compositor.Examples.Scene.{
  host, bar, guarded, screen_window, guarded-Reachable, guarded_locked, guarded_secure,
  guarded_kept, guarded_focus, guarded_pointer, guarded_screen, guarded_stranger, guarded-IsBarred,
}

Reachable-IsSound_example : IsSound none guarded
Reachable-IsSound_example = Reachable-IsSound guarded guarded-Reachable

-- The session's user asks to unlock.
abbrev at_unlock : Event
at_unlock = control_connection 8 (some 1000) [] unlock_command

-- ... and tries the privileged socket.
abbrev at_privileged : Event
at_privileged = lock_connection 9 (some 1000)

abbrev tried : Server
tried = step host at_privileged guarded

tried_closed : tried ≡ log_effect (closed 9) guarded
unfolding step handle_lock_connection
tried_closed = ground (arith, guarded_stranger)

tried_stranger : uid_may_unlock tried.lock 1000 ≡ false
tried_stranger = ap (λ s. uid_may_unlock s.lock 1000) tried_closed ∙ guarded_stranger

tries : Unauthorised (some (105 ∷ [])) guarded (step host at_unlock tried)
unfolding is_authorised
tries = goes_on host at_unlock (goes_on host at_privileged stays guarded_stranger) tried_stranger

Unauthorised-IsBarred_example : IsBarred bar (step host at_unlock tried)
Unauthorised-IsBarred_example = Unauthorised-IsBarred tries guarded-IsBarred

seat_get_focus-privileged_example : lock_view_is_privileged guarded.lock screen_window ≡ true
seat_get_focus-privileged_example =
    seat_get_focus-privileged guarded screen_window guarded-Reachable guarded_locked guarded_kept
      guarded_focus

pointer_focus-privileged_example : lock_view_is_privileged guarded.lock screen_window ≡ true
pointer_focus-privileged_example =
    pointer_focus-privileged guarded 2 screen_window guarded-Reachable guarded_locked
      guarded_pointer guarded_screen

shown-privileged_example : lock_view_is_privileged guarded.lock screen_window ≡ true
shown-privileged_example =
    shown-privileged guarded 2 screen_window guarded-Reachable guarded_locked guarded_secure
      guarded_screen refl
