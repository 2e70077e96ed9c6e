-- ===== src/Isolation/Socket.antt =====
-- The isolation and handle_control_connection (lock.c).
use sg_compositor.Prelude.{ℕ, not, ◌&&◌, List, [], ◌∷◌, Option, none, some, is_some, if_cases}
use sg_compositor.World.{
  Server, Host, Reply, reply, listing, ok, ok_secure, ok_unlocked, err_locked, err_no_desktop,
  err_not_on_the_security_screen,
}
use sg_compositor.Lock.Engage.{lock_secure_engage, lock_sas_action}
use sg_compositor.Windows.Taskbar.{
  session_x11_activate, session_x11_minimize, session_x11_close, session_x11_desktop_front,
  elevated_activate, elevated_minimize,
}
use sg_compositor.Control.Requests.{
  for_the_session, control_lock, control_unlock, control_secure, control_sas, control_release,
  control_window, control_elevated_window, control_desktop,
}
use sg_compositor.Control.Connections.{Outcome, answered, kept}
use sg_compositor.Control.Session.{control_local, drop_adopted, dispose}
use sg_compositor.Control.Socket.{
  Command, lock_command, unlock_command, watch_command, session_command, inhibit_command,
  idle_command, secure_command, release_command, remote_command, local_command, xdesktop_command,
  xwindows_command, windows_command, status_command, shadow_status_command, unknown_command,
  sas_command, shadow_command, activate_command, minimize_command, xactivate_command,
  xminimize_command, xclose_command, close_all, dispatch, respond, finish,
  handle_control_connection, other_fds, first_fds, surplus_fds,
}
use sg_compositor.Isolation.Invariant.{IsSound, log_effect-IsSound}
use sg_compositor.Isolation.Engage.{lock_engage-IsSound, lock_secure_engage-IsSound}
use sg_compositor.Isolation.Release.{
  lock_release-IsSound, lock_secure_release-IsSound, lock_sas_action-IsSound,
}
use sg_compositor.Isolation.Remote.{remote_detach-IsSound, client_destroyed-IsSound}
use sg_compositor.Isolation.Taskbar.{
  session_x11_activate-IsSound, session_x11_minimize-IsSound, session_x11_close-IsSound,
  session_x11_desktop_front-IsSound, elevated_activate-IsSound, elevated_minimize-IsSound,
}
use sg_compositor.Isolation.Control.{
  SoundOutcome, for_the_machine-IsSound, for_the_session-IsSound, done_or-IsSound, answer-IsSound,
  control_watch-IsSound, control_session-IsSound, control_inhibit-IsSound,
}
use sg_compositor.Isolation.Attach.{
  control_shadow-IsSound, control_remote-IsSound, control_window-IsSound,
  control_elevated_window-IsSound,
}

close_all-IsSound : (fds : List ℕ) (s : Server) → IsSound none s → IsSound none (close_all fds s)
unfolding close_all
close_all-IsSound [] s k = k
close_all-IsSound (f ∷ fds) s k = close_all-IsSound fds _ (log_effect-IsSound _ s k)

dispatch-IsSound :
    (h : Host) (u fd : ℕ) (passed : Option ℕ) (c : Command) (s : Server)
    → IsSound none s
    → SoundOutcome (dispatch h u fd passed c s)
unfolding dispatch control_lock control_unlock control_secure control_sas control_release
    control_local control_desktop
dispatch-IsSound h u fd p lock_command s k =
    answer-IsSound p (control_lock h u s)
      (for_the_session-IsSound h u s _ k (lock_engage-IsSound h s k))
dispatch-IsSound h u fd p unlock_command s k =
    answer-IsSound p (control_unlock h u s)
      (for_the_machine-IsSound u s _ k (lock_release-IsSound h s k))
dispatch-IsSound h u fd p watch_command s k = control_watch-IsSound h u fd p s k
dispatch-IsSound h u fd p session_command s k = control_session-IsSound h u fd p s k
dispatch-IsSound h u fd p inhibit_command s k = control_inhibit-IsSound h u fd p s k
dispatch-IsSound h u fd p idle_command s k = k
dispatch-IsSound h u fd p secure_command s k = answer-IsSound p (control_secure h u s) (
    for_the_machine-IsSound u s _ k (
      done_or-IsSound ok_secure err_locked (lock_secure_engage h s)
        (lock_secure_engage-IsSound h s k)))
dispatch-IsSound h u fd p (sas_command a) s k = answer-IsSound p (control_sas h u a s) (
    for_the_machine-IsSound u s _ k (
      done_or-IsSound ok_unlocked err_not_on_the_security_screen (lock_sas_action h a s)
        (lock_sas_action-IsSound h a s k)))
dispatch-IsSound h u fd p release_command s k =
    answer-IsSound p (control_release h u s)
      (for_the_machine-IsSound u s _ k (lock_secure_release-IsSound h s k))
dispatch-IsSound h u fd p (shadow_command c) s k = control_shadow-IsSound h u c p s k
dispatch-IsSound h u fd p remote_command s k = control_remote-IsSound h u p s k
dispatch-IsSound h u fd p local_command s k =
    answer-IsSound p (control_local h u s)
      (for_the_machine-IsSound u s _ k (remote_detach-IsSound h s k))
dispatch-IsSound h u fd p (activate_command w) s k =
    answer-IsSound p (control_elevated_window h u w (elevated_activate h) s)
      (control_elevated_window-IsSound h u w _ s (λ i w. elevated_activate-IsSound h i w s k) k)
dispatch-IsSound h u fd p xwindows_command s k =
    answer-IsSound p (for_the_session h u s (s, listing)) (for_the_session-IsSound h u s _ k k)
dispatch-IsSound h u fd p (xactivate_command w) s k =
    answer-IsSound p (control_window h u w (session_x11_activate h) s)
      (control_window-IsSound h u w _ s (λ w. session_x11_activate-IsSound h w s k) k)
dispatch-IsSound h u fd p (xminimize_command w) s k =
    answer-IsSound p (control_window h u w (session_x11_minimize h) s)
      (control_window-IsSound h u w _ s (λ w. session_x11_minimize-IsSound h w s k) k)
dispatch-IsSound h u fd p (xclose_command w) s k =
    answer-IsSound p (control_window h u w session_x11_close s)
      (control_window-IsSound h u w _ s (λ w. session_x11_close-IsSound w s k) k)
dispatch-IsSound h u fd p xdesktop_command s k = answer-IsSound p (control_desktop h u s) (
    for_the_session-IsSound h u s _ k (
      done_or-IsSound ok err_no_desktop (session_x11_desktop_front h s)
        (session_x11_desktop_front-IsSound h s k)))
dispatch-IsSound h u fd p (minimize_command w) s k =
    answer-IsSound p (control_elevated_window h u w (elevated_minimize h) s)
      (control_elevated_window-IsSound h u w _ s (λ i w. elevated_minimize-IsSound h i w s k) k)
dispatch-IsSound h u fd p windows_command s k =
    answer-IsSound p (for_the_session h u s (s, listing)) (for_the_session-IsSound h u s _ k k)
dispatch-IsSound h u fd p status_command s k = k
dispatch-IsSound h u fd p shadow_status_command s k = k
dispatch-IsSound h u fd p unknown_command s k = k

drop_adopted-IsSound :
    (h : Host) (c : Option ℕ) (s : Server) → IsSound none s → IsSound none (drop_adopted h c s)
unfolding drop_adopted
drop_adopted-IsSound h none s k = k
drop_adopted-IsSound h (some c) s k = client_destroyed-IsSound h c _ (log_effect-IsSound _ s k)

dispose-IsSound :
    (h : Host) (f : Option ℕ) (s : Server) → IsSound none s → IsSound none (dispose h f s)
unfolding dispose
dispose-IsSound h none s k = k
dispose-IsSound h (some f) s k =
    if_cases (IsSound none) (is_some s.remote_client && not s.remote)
      (λ _. drop_adopted-IsSound h _ s k)
      λ _.
        if_cases (IsSound none) (not (is_some s.remote_client)) (λ _. log_effect-IsSound _ s k)
          (λ _. k)

respond-IsSound :
    (h : Host) (fd : ℕ) (r : Reply) (s : Server) → IsSound none s → IsSound none (respond h fd r s)
unfolding respond
respond-IsSound h fd r s k =
    log_effect-IsSound _ _
      (if_cases (IsSound none) (h.send_ok fd (reply r)) (λ _. log_effect-IsSound _ s k) (λ _. k))

finish-IsSound :
    (h : Host) (fd : ℕ) (fds : List ℕ) (o : Outcome)
    → SoundOutcome o
    → IsSound none (finish h fd fds o)
unfolding finish
finish-IsSound h fd fds (kept s) k = k
finish-IsSound h fd fds (answered s p r) k =
    respond-IsSound h fd r _ (close_all-IsSound fds _ (dispose-IsSound h p s k))

pub handle_control_connection-IsSound :
    (h : Host) (fd : ℕ) (peer : Option ℕ) (fds : List ℕ) (c : Command) (s : Server)
    → IsSound none s
    → IsSound none (handle_control_connection h fd peer fds c s)
unfolding handle_control_connection
handle_control_connection-IsSound h fd none fds c s k = log_effect-IsSound _ s k
handle_control_connection-IsSound h fd (some u) fds c s k =
    finish-IsSound h fd (other_fds (first_fds fds)) _
      (dispatch-IsSound h u fd _ c _ (close_all-IsSound (surplus_fds fds) s k))
