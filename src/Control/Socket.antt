-- ===== src/Control/Socket.antt =====
-- lock.c: handle_control_connection. ELEVATED, XKILL and the texts of the two listings are not in the
-- model.
use sg_compositor.Prelude.{ℕ, Bool, List, [], ◌∷◌, Option, none, some, if◌then◌else◌}
use sg_compositor.World.{
  Server, Host, SasAction, Reply, reply, err_unknown_command, listing, sent, closed, log_effect,
}
use sg_compositor.Windows.Taskbar.{
  session_x11_activate, session_x11_minimize, session_x11_close, elevated_activate,
  elevated_minimize,
}
use sg_compositor.Control.Requests.{
  for_the_session, control_lock, control_unlock, control_secure, control_sas, control_release,
  idle_status, lock_status, shadow_status, control_window, control_elevated_window, control_desktop,
}
use sg_compositor.Control.Connections.{
  Outcome, answered, kept, control_watch, control_session, control_inhibit,
}
use sg_compositor.Control.Session.{control_shadow, control_remote, control_local, dispose}

-- The text of a request, read by strcmp, strncmp and sscanf; a number that sscanf cannot read is none.
pub data Command : Type 0 where
  lock_command unlock_command watch_command session_command inhibit_command : Command
  idle_command secure_command release_command remote_command local_command : Command
  xdesktop_command xwindows_command windows_command status_command : Command
  shadow_status_command unknown_command : Command
  sas_command : SasAction → Command
  shadow_command : (control : Bool) → Command
  activate_command minimize_command : Option (ℕ × ℕ) → Command
  xactivate_command xminimize_command xclose_command : Option ℕ → Command

-- One descriptor goes with SHADOW or REMOTE; two or three are none of theirs.
abbrev pub passed_fd : List ℕ → Option ℕ
passed_fd (f ∷ []) = some f
passed_fd fds = none

-- Those that came beyond three are closed at once ...
abbrev pub surplus_fds : List ℕ → List ℕ
surplus_fds (a ∷ b ∷ c ∷ fds) = fds
surplus_fds fds = []

abbrev pub first_fds : List ℕ → List ℕ
first_fds (a ∷ b ∷ c ∷ fds) = a ∷ b ∷ c ∷ []
first_fds fds = fds

-- ... two or three after the request.
abbrev pub other_fds : List ℕ → List ℕ
other_fds (f ∷ []) = []
other_fds fds = fds

unfoldable pub close_all : List ℕ → Server → Server
close_all [] s = s
close_all (f ∷ fds) s = close_all fds (log_effect (closed f) s)

abbrev pub answer : Option ℕ → Server × Reply → Outcome
answer passed (s, r) = answered s passed r

-- The chain of comparisons.
unfoldable pub dispatch : Host → ℕ → ℕ → Option ℕ → Command → Server → Outcome
dispatch h u fd passed lock_command s = answer passed (control_lock h u s)
dispatch h u fd passed unlock_command s = answer passed (control_unlock h u s)
dispatch h u fd passed watch_command s = control_watch h u fd passed s
dispatch h u fd passed session_command s = control_session h u fd passed s
dispatch h u fd passed inhibit_command s = control_inhibit h u fd passed s
dispatch h u fd passed idle_command s = answered s passed (idle_status s)
dispatch h u fd passed secure_command s = answer passed (control_secure h u s)
dispatch h u fd passed (sas_command a) s = answer passed (control_sas h u a s)
dispatch h u fd passed release_command s = answer passed (control_release h u s)
dispatch h u fd passed (shadow_command c) s = control_shadow h u c passed s
dispatch h u fd passed remote_command s = control_remote h u passed s
dispatch h u fd passed local_command s = answer passed (control_local h u s)
dispatch h u fd passed (activate_command w) s =
    answer passed (control_elevated_window h u w (elevated_activate h) s)
dispatch h u fd passed xwindows_command s = answer passed (for_the_session h u s (s, listing))
dispatch h u fd passed (xactivate_command w) s =
    answer passed (control_window h u w (session_x11_activate h) s)
dispatch h u fd passed (xminimize_command w) s =
    answer passed (control_window h u w (session_x11_minimize h) s)
dispatch h u fd passed (xclose_command w) s =
    answer passed (control_window h u w session_x11_close s)
dispatch h u fd passed xdesktop_command s = answer passed (control_desktop h u s)
dispatch h u fd passed (minimize_command w) s =
    answer passed (control_elevated_window h u w (elevated_minimize h) s)
dispatch h u fd passed windows_command s = answer passed (for_the_session h u s (s, listing))
dispatch h u fd passed status_command s = answered s passed (lock_status s)
dispatch h u fd passed shadow_status_command s = answered s passed (shadow_status s)
dispatch h u fd passed unknown_command s = answered s passed err_unknown_command

-- The reply is sent, if that can be, and the connection closed.
unfoldable pub respond : Host → ℕ → Reply → Server → Server
respond h fd r s =
    log_effect (closed fd) (if h.send_ok fd (reply r) then log_effect (sent fd (reply r)) s else s)

unfoldable pub finish : Host → ℕ → List ℕ → Outcome → Server
unfolding close_all respond
finish h fd fds (kept s) = s
finish h fd fds (answered s passed r) = respond h fd r (close_all fds (dispose h passed s))

-- handle_control_connection, once a connection is accepted; `peer` is what SO_PEERCRED says.
unfoldable pub handle_control_connection : Host → ℕ → Option ℕ → List ℕ → Command → Server → Server
unfolding dispatch finish
handle_control_connection h fd none fds c s = log_effect (closed fd) s
handle_control_connection h fd (some u) fds c s =
    finish h fd (other_fds (first_fds fds))
      (dispatch h u fd (passed_fd (first_fds fds)) c (close_all (surplus_fds fds) s))
