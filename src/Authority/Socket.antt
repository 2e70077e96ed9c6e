-- ===== src/Authority/Socket.antt =====
-- A locked screen and handle_control_connection (lock.c).
use sg_compositor.Prelude.{
  ℕ, false, not, ◌&&◌, ◌||◌, List, [], ◌∷◌, Option, none, some, arith, ◌≡◌, refl, is_some, if_cases,
  ap, ◌∙◌,
}
use sg_compositor.World.{Server, Host, reply, listing, ok, err_no_desktop}
use sg_compositor.Lock.Access.{uid_may_unlock}
use sg_compositor.Windows.Taskbar.{
  session_x11_activate, session_x11_minimize, session_x11_close, session_x11_desktop_front,
  elevated_activate, elevated_minimize,
}
use sg_compositor.Control.Requests.{
  for_the_session, control_lock, control_unlock, control_secure, control_sas, control_release,
  control_window, control_elevated_window, control_desktop,
}
use sg_compositor.Control.Connections.{Outcome, answered, kept, control_watch}
use sg_compositor.Control.Session.{
  control_shadow, control_remote, control_local, drop_adopted, dispose,
}
use sg_compositor.Control.Socket.{
  Command, lock_command, unlock_command, watch_command, session_command, inhibit_command,
  idle_command, secure_command, release_command, remote_command, local_command, xdesktop_command,
  xwindows_command, windows_command, status_command, shadow_status_command, unknown_command,
  sas_command, shadow_command, activate_command, minimize_command, xactivate_command,
  xminimize_command, xclose_command, close_all, dispatch, respond, finish,
  handle_control_connection, other_fds, first_fds, surplus_fds,
}
use sg_compositor.Authority.Barred.{Bar, IsBarred, IsBarred-lock}
use sg_compositor.Authority.Lock.{lock_engage-IsBarred}
use sg_compositor.Authority.Clients.{client_destroyed-IsBarred}
use sg_compositor.Authority.Requests.{
  BarredOutcome, for_the_machine-refused, for_the_session-IsBarred, done_or-IsBarred,
  answer-IsBarred, control_session-IsBarred, control_inhibit-IsBarred, refused_outcome,
  activate_found-IsBarred, minimize_found-IsBarred, close_found-IsBarred, focus_found-IsBarred,
  minimize_elevated-IsBarred, control_window-IsBarred, control_elevated_window-IsBarred,
}

module _ (r : Bar) where
  close_all-IsBarred : (fds : List ℕ) (s : Server) → IsBarred r s → IsBarred r (close_all fds s)
  unfolding close_all
  close_all-IsBarred [] s b = b
  close_all-IsBarred (f ∷ fds) s b = close_all-IsBarred fds _ (IsBarred-lock s _ refl b)

  drop_adopted-IsBarred :
      (h : Host) (c : Option ℕ) (s : Server) → IsBarred r s → IsBarred r (drop_adopted h c s)
  unfolding drop_adopted
  drop_adopted-IsBarred h none s b = b
  drop_adopted-IsBarred h (some c) s b = client_destroyed-IsBarred h c _ (IsBarred-lock s _ refl b)

  dispose-IsBarred :
      (h : Host) (f : Option ℕ) (s : Server) → IsBarred r s → IsBarred r (dispose h f s)
  unfolding dispose
  dispose-IsBarred h none s b = b
  dispose-IsBarred h (some f) s b =
      if_cases (IsBarred r) (is_some s.remote_client && not s.remote)
        (λ _. drop_adopted-IsBarred h _ s b)
        λ _.
          if_cases (IsBarred r) (not (is_some s.remote_client)) (λ _. IsBarred-lock s _ refl b)
            (λ _. b)

  finish-IsBarred :
      (h : Host) (fd : ℕ) (fds : List ℕ) (o : Outcome)
      → BarredOutcome r o
      → IsBarred r (finish h fd fds o)
  unfolding finish respond
  finish-IsBarred h fd fds (kept s) b = b
  finish-IsBarred h fd fds (answered s p a) b =
      IsBarred-lock (close_all fds (dispose h p s)) _
        (if_cases {A = Server} (λ t. t.lock ≡ (close_all fds (dispose h p s)).lock)
          (h.send_ok fd (reply a)) (λ _. refl) (λ _. refl))
        (close_all-IsBarred fds _ (dispose-IsBarred h p s b))

close_all-lock : (fds : List ℕ) (s : Server) → (close_all fds s).lock ≡ s.lock
unfolding close_all
close_all-lock [] s = refl
close_all-lock (f ∷ fds) s = close_all-lock fds _

dispatch-refused :
    (r : Bar) (h : Host) (u fd : ℕ) (passed : Option ℕ) (c : Command) (s : Server)
    → uid_may_unlock s.lock u ≡ false
    → IsBarred r s
    → BarredOutcome r (dispatch h u fd passed c s)
unfolding dispatch control_lock control_unlock control_secure control_sas control_release
    control_local control_desktop control_watch control_shadow control_remote session_x11_activate
    session_x11_minimize session_x11_close session_x11_desktop_front elevated_activate
    elevated_minimize
dispatch-refused r h u fd p lock_command s stranger b =
    answer-IsBarred r p (control_lock h u s)
      (for_the_session-IsBarred r h u s _ (lock_engage-IsBarred h s b) b)
dispatch-refused r h u fd p unlock_command s stranger b =
    answer-IsBarred r p (control_unlock h u s) (for_the_machine-refused r u s _ stranger b)
dispatch-refused r h u fd p watch_command s stranger b =
    refused_outcome r (not (uid_may_unlock s.lock u) || not h.calloc_ok) _ _
      (ground (arith, stranger)) b
dispatch-refused r h u fd p session_command s stranger b = control_session-IsBarred r h u fd p s b
dispatch-refused r h u fd p inhibit_command s stranger b = control_inhibit-IsBarred r h u fd p s b
dispatch-refused r h u fd p idle_command s stranger b = b
dispatch-refused r h u fd p secure_command s stranger b =
    answer-IsBarred r p (control_secure h u s) (for_the_machine-refused r u s _ stranger b)
dispatch-refused r h u fd p (sas_command a) s stranger b =
    answer-IsBarred r p (control_sas h u a s) (for_the_machine-refused r u s _ stranger b)
dispatch-refused r h u fd p release_command s stranger b =
    answer-IsBarred r p (control_release h u s) (for_the_machine-refused r u s _ stranger b)
dispatch-refused r h u fd p (shadow_command c) s stranger b =
    refused_outcome r (not (uid_may_unlock s.lock u)) _ _ (ground (arith, stranger)) b
dispatch-refused r h u fd p remote_command s stranger b =
    refused_outcome r (not (uid_may_unlock s.lock u)) _ _ (ground (arith, stranger)) b
dispatch-refused r h u fd p local_command s stranger b =
    answer-IsBarred r p (control_local h u s) (for_the_machine-refused r u s _ stranger b)
dispatch-refused r h u fd p (activate_command w) s stranger b =
    answer-IsBarred r p (control_elevated_window h u w (elevated_activate h) s) (
      control_elevated_window-IsBarred r h u w (elevated_activate h) s
        (λ i w. activate_found-IsBarred r h _ s b) b)
dispatch-refused r h u fd p xwindows_command s stranger b =
    answer-IsBarred r p (for_the_session h u s (s, listing))
      (for_the_session-IsBarred r h u s _ b b)
dispatch-refused r h u fd p (xactivate_command w) s stranger b =
    answer-IsBarred r p (control_window h u w (session_x11_activate h) s) (
      control_window-IsBarred r h u w (session_x11_activate h) s
        (λ w. activate_found-IsBarred r h _ s b) b)
dispatch-refused r h u fd p (xminimize_command w) s stranger b =
    answer-IsBarred r p (control_window h u w (session_x11_minimize h) s) (
      control_window-IsBarred r h u w (session_x11_minimize h) s
        (λ w. minimize_found-IsBarred r h _ s b) b)
dispatch-refused r h u fd p (xclose_command w) s stranger b =
    answer-IsBarred r p (control_window h u w session_x11_close s)
      (control_window-IsBarred r h u w session_x11_close s (λ w. close_found-IsBarred r h _ s b) b)
dispatch-refused r h u fd p xdesktop_command s stranger b =
    answer-IsBarred r p (control_desktop h u s) (
      for_the_session-IsBarred r h u s _
        (done_or-IsBarred r ok err_no_desktop (session_x11_desktop_front h s)
          (focus_found-IsBarred r h _ s b))
        b)
dispatch-refused r h u fd p (minimize_command w) s stranger b =
    answer-IsBarred r p (control_elevated_window h u w (elevated_minimize h) s) (
      control_elevated_window-IsBarred r h u w (elevated_minimize h) s
        (λ i w. minimize_elevated-IsBarred r h _ s b) b)
dispatch-refused r h u fd p windows_command s stranger b =
    answer-IsBarred r p (for_the_session h u s (s, listing))
      (for_the_session-IsBarred r h u s _ b b)
dispatch-refused r h u fd p status_command s stranger b = b
dispatch-refused r h u fd p shadow_status_command s stranger b = b
dispatch-refused r h u fd p unknown_command s stranger b = b

-- A connection to the control socket from a uid that may not unlock, with any request and any
-- descriptors, leaves a locked screen locked and, where asked of, a locked session locked and the
-- privileged clients some of the given ones.
pub handle_control_connection-refused :
    (r : Bar) (h : Host) (fd u : ℕ) (fds : List ℕ) (c : Command) (s : Server)
    → uid_may_unlock s.lock u ≡ false
    → IsBarred r s
    → IsBarred r (handle_control_connection h fd (some u) fds c s)
unfolding handle_control_connection
handle_control_connection-refused r h fd u fds c s stranger b =
    finish-IsBarred r h fd (other_fds (first_fds fds)) _ (
      dispatch-refused r h u fd _ c (close_all (surplus_fds fds) s)
        (ap (λ l. uid_may_unlock l u) (close_all-lock (surplus_fds fds) s) ∙ stranger)
        (close_all-IsBarred r (surplus_fds fds) s b))
