-- ===== src/System/Unlocking.antt =====
-- Runs without a request that has authority on the control socket (lock.c).
use sg_compositor.Remote.Admission.{has_authority}
use sg_compositor.Prelude.{
  ℕ, List, ◌⊎◌, inl, inr, Bool, false, not, Option, none, some, refl, ◌≡◌, if_cases,
}
use sg_compositor.World.{View, Server, Host, find_view}
use sg_compositor.Lock.Access.{uid_may_unlock}
use sg_compositor.Idle.{
  handle_idle_inhibitor_v1_new, handle_inhibitor_destroy, handle_inhibit_event,
  idle_inhibit_v1_check_active,
}
use sg_compositor.Windows.Minimize.{view_minimize, wayland_app_minimize}
use sg_compositor.Control.Connections.{handle_watcher_event, watcher_free}
use sg_compositor.Authority.Barred.{
  Bar, IsBarred, IsBarred-same, IsBarred-lock, seat_set_focus-IsBarred,
  process_cursor_motion-IsBarred, view_map-IsBarred, view_unmap-IsBarred, view_destroy-IsBarred,
  view_minimize-IsBarred, wayland_app_minimize-IsBarred,
}
use sg_compositor.Control.Socket.{handle_control_connection}
use sg_compositor.Authority.Lock.{handle_new_output-lock, output_destroy-lock}
use sg_compositor.Authority.Clients.{client_destroyed-IsBarred, handle_lock_connection-IsBarred}
use sg_compositor.Authority.Socket.{handle_control_connection-refused}
use sg_compositor.Authority.Keys.{seat_notify_activity-IsBarred, handle_key_event-IsBarred}
use sg_compositor.System.Events.{
  Event, window_mapped, window_unmapped, window_destroyed, window_focused, elevated_minimize_asked,
  app_minimize_asked, pointer_moved, activity, key, client_gone, lock_connection,
  control_connection, watcher_hung_up, inhibit_hung_up, inhibitor_made, inhibitor_gone,
  output_plugged, output_unplugged, on_view, step,
}

-- A request on the control socket of root or of the machine session's account, and, where the
-- privileged clients are asked of, a connection of theirs on the privileged socket.
unfoldable pub is_authorised : Option (List ℕ) → Event → Server → Bool
is_authorised guests (control_connection fd (some u) fds c) s = uid_may_unlock s.lock u
is_authorised (some ps) (lock_connection fd peer) s = has_authority s.lock peer
is_authorised guests e s = false

admission :
    (ps : Option (List ℕ)) (fd : ℕ) (peer : Option ℕ) (s : Server)
    → is_authorised ps (lock_connection fd peer) s ≡ false
    → (ps ≡ none) ⊎ (has_authority s.lock peer ≡ false)
unfolding is_authorised
admission none fd peer s stranger = inl refl
admission (some ps) fd peer s stranger = inr stranger

on_view-IsBarred :
    {r : Bar} (f : View → Server → Server) (o : Option View) (s : Server)
    → ((v : View) → IsBarred r (f v s))
    → IsBarred r s
    → IsBarred r (on_view f o s)
unfolding on_view
on_view-IsBarred f none s keeps b = b
on_view-IsBarred f (some v) s keeps b = keeps v

-- An event that is not such a request leaves the screen locked, and a lock of the session one.
pub step-IsBarred :
    (r : Bar) (h : Host) (e : Event) (s : Server)
    → is_authorised r.guests e s ≡ false
    → IsBarred r s
    → IsBarred r (step h e s)
unfolding step is_authorised handle_idle_inhibitor_v1_new handle_inhibitor_destroy
    handle_inhibit_event idle_inhibit_v1_check_active handle_watcher_event watcher_free
    handle_control_connection
step-IsBarred r h (window_mapped tree v u) s _ b = view_map-IsBarred h tree v u s b
step-IsBarred r h (window_unmapped i) s _ b = view_unmap-IsBarred h i s b
step-IsBarred r h (window_destroyed i) s _ b = view_destroy-IsBarred h i s b
step-IsBarred r h (window_focused i) s _ b = seat_set_focus-IsBarred h i s b
step-IsBarred r h (elevated_minimize_asked i) s _ b =
    on_view-IsBarred (view_minimize h) (find_view i s.views) s (λ v. view_minimize-IsBarred h v s b)
      b
step-IsBarred r h (app_minimize_asked i) s _ b =
    on_view-IsBarred (wayland_app_minimize h) (find_view i s.views) s
      (λ v. wayland_app_minimize-IsBarred h v s b) b
step-IsBarred r h pointer_moved s _ b = process_cursor_motion-IsBarred h s b
step-IsBarred r h activity s _ b = seat_notify_activity-IsBarred h s b
step-IsBarred r h (key e) s _ b = handle_key_event-IsBarred h e s b
step-IsBarred r h (client_gone c) s _ b = client_destroyed-IsBarred h c s b
step-IsBarred r h (lock_connection fd peer) s stranger b =
    handle_lock_connection-IsBarred h fd peer s (admission r.guests fd peer s stranger) b
step-IsBarred r h (control_connection fd none fds c) s _ b = IsBarred-lock s _ refl b
step-IsBarred r h (control_connection fd (some u) fds c) s stranger b =
    handle_control_connection-refused r h fd u fds c s stranger b
step-IsBarred r h (watcher_hung_up fd) s _ b = IsBarred-same s _ refl refl refl refl b
step-IsBarred r h (inhibit_hung_up fd) s _ b = IsBarred-lock s _ refl b
step-IsBarred r h inhibitor_made s _ b =
    if_cases (IsBarred r) (not h.calloc_ok) (λ _. b) (λ _. IsBarred-lock s _ refl b)
step-IsBarred r h inhibitor_gone s _ b = IsBarred-lock s _ refl b
step-IsBarred r h (output_plugged o) s _ b = IsBarred-lock s _ (handle_new_output-lock h o s) b
step-IsBarred r h (output_unplugged i) s _ b = IsBarred-lock s _ (output_destroy-lock h i s) b

-- A run without such a request or connection.
pub data Unauthorised (guests : Option (List ℕ)) : Server → Server → Type 0 where
  stays : {s : Server} → Unauthorised guests s s
  goes_on :
      {s t : Server} (h : Host) (e : Event)
      → Unauthorised guests s t
      → is_authorised guests e t ≡ false
      → Unauthorised guests s (step h e t)

-- After any run of events none of which is a request of root or of the machine session's account
-- on the control socket, a locked screen is still locked, and, where that is asked of, a locked
-- session is still locked and not merely under a prompt or the security screen. If none is a
-- connection of theirs on the privileged socket either, then, where that is asked of, the
-- privileged clients are still some of the given ones.
pub Unauthorised-IsBarred :
    {r : Bar} {s t : Server} → Unauthorised r.guests s t → IsBarred r s → IsBarred r t
Unauthorised-IsBarred stays b = b
Unauthorised-IsBarred {r} (goes_on h e run stranger) b =
    step-IsBarred r h e _ stranger (Unauthorised-IsBarred run b)
