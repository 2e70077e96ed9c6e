-- ===== src/System/Soundness.antt =====
-- The invariant of the isolation along the events (lock.c, seat.c, view.c).
use sg_compositor.Prelude.{not, ◌||◌, Option, none, some, refl, arith, if_cases}
use sg_compositor.World.{View, Output, Server, Host, find_view}
use sg_compositor.Lock.Watchers.{session_locked}
use sg_compositor.Outputs.{handle_new_output}
use sg_compositor.Windows.Minimize.{view_minimize, wayland_app_minimize}
use sg_compositor.Idle.{
  handle_idle_inhibitor_v1_new, handle_inhibitor_destroy, idle_inhibit_v1_check_active,
}
use sg_compositor.Isolation.Invariant.{
  IsSound, seat_set_focus-IsSound, process_cursor_motion-IsSound,
}
use sg_compositor.Isolation.Windows.{view_map-IsSound}
use sg_compositor.Isolation.Unmap.{view_unmap-IsSound, view_destroy-IsSound}
use sg_compositor.Isolation.Minimize.{view_minimize-IsSound, wayland_app_minimize-IsSound}
use sg_compositor.Isolation.Clients.{handle_lock_connection-IsSound}
use sg_compositor.Isolation.Remote.{
  put_outputs-IsSound, output_destroy-IsSound, client_destroyed-IsSound,
}
use sg_compositor.Isolation.Control.{
  put_inhibitors-IsSound, handle_watcher_event-IsSound, handle_inhibit_event-IsSound,
}
use sg_compositor.Isolation.Socket.{handle_control_connection-IsSound}
use sg_compositor.Isolation.Keys.{seat_notify_activity-IsSound, handle_key_event-IsSound}
use sg_compositor.System.Events.{
  Startup, started, Event, window_mapped, window_unmapped, window_destroyed, window_focused,
  elevated_minimize_asked, app_minimize_asked, pointer_moved, activity, key, client_gone,
  lock_connection, control_connection, watcher_hung_up, inhibit_hung_up, inhibitor_made,
  inhibitor_gone, output_plugged, output_unplugged, on_view, step, Enabled, Reachable, at_start,
  after,
}

started-IsSound : (c : Startup) → IsSound none (started c)
unfolding started session_locked
started-IsSound c = record {
  isolated = record {
    confined = λ l. absurd (ground (arith, l));
    hidden = λ l _. absurd (ground (arith, l));
    dimmed = λ _. refl;
    secure_locked = λ e. e;
    sas_locked = λ e. e;
    one_reason = λ _. refl;
  };
  told = record { locked = refl; remote = refl; shadow = refl };
}

on_view-IsSound :
    (f : View → Server → Server) (o : Option View) (s : Server)
    → ((v : View) → IsSound none (f v s))
    → IsSound none s
    → IsSound none (on_view f o s)
unfolding on_view
on_view-IsSound f none s keeps k = k
on_view-IsSound f (some v) s keeps k = keeps v

handle_new_output-IsSound :
    (h : Host) (o : Output) (s : Server) → IsSound none s → IsSound none (handle_new_output h o s)
unfolding handle_new_output
handle_new_output-IsSound h o s k =
    if_cases (IsSound none) (not (h.init_render_ok o.id) || not h.calloc_ok) (λ _. k)
      λ _.
        if_cases (IsSound none) (not (h.scene_output_ok o.id)) (λ _. put_outputs-IsSound _ _ s k)
          (λ _. put_outputs-IsSound _ _ s k)

-- One event.
pub step-IsSound :
    (h : Host) (e : Event) (s : Server) → Enabled e s → IsSound none s → IsSound none (step h e s)
unfolding step handle_idle_inhibitor_v1_new handle_inhibitor_destroy idle_inhibit_v1_check_active
step-IsSound h (window_mapped tree v u) s fresh k = view_map-IsSound h tree v u s fresh k
step-IsSound h (window_unmapped i) s _ k = view_unmap-IsSound h i s k
step-IsSound h (window_destroyed i) s _ k = view_destroy-IsSound h i s k
step-IsSound h (window_focused i) s _ k = seat_set_focus-IsSound h i s k
step-IsSound h (elevated_minimize_asked i) s _ k =
    on_view-IsSound (view_minimize h) (find_view i s.views) s (λ v. view_minimize-IsSound h v s k) k
step-IsSound h (app_minimize_asked i) s _ k =
    on_view-IsSound (wayland_app_minimize h) (find_view i s.views) s
      (λ v. wayland_app_minimize-IsSound h v s k) k
step-IsSound h pointer_moved s _ k = process_cursor_motion-IsSound h s k
step-IsSound h activity s _ k = seat_notify_activity-IsSound h s k
step-IsSound h (key e) s _ k = handle_key_event-IsSound h e s k
step-IsSound h (client_gone c) s _ k = client_destroyed-IsSound h c s k
step-IsSound h (lock_connection fd peer) s _ k = handle_lock_connection-IsSound h fd peer s k
step-IsSound h (control_connection fd peer fds c) s _ k =
    handle_control_connection-IsSound h fd peer fds c s k
step-IsSound h (watcher_hung_up fd) s _ k = handle_watcher_event-IsSound fd s k
step-IsSound h (inhibit_hung_up fd) s _ k = handle_inhibit_event-IsSound fd s k
step-IsSound h inhibitor_made s _ k =
    if_cases (IsSound none) (not h.calloc_ok) (λ _. k) (λ _. put_inhibitors-IsSound _ _ _ s k)
step-IsSound h inhibitor_gone s _ k = put_inhibitors-IsSound _ _ _ s k
step-IsSound h (output_plugged o) s _ k = handle_new_output-IsSound h o s k
step-IsSound h (output_unplugged i) s _ k = output_destroy-IsSound h i s k

-- In every state that events lead to from the start, whatever the kernel and wlroots answer:
-- while locked only privileged windows have the pointer, and only they have the keyboard unless a
-- grab of the seat's keyboard ignored the last call that clears its focus; under a lock or the
-- security screen each shown window is privileged, a dimming layer shows exactly under a secure
-- prompt, a prompt or the security screen is locked, there are not both, and the session's
-- programs were told whether the session is locked, taken by Remote Desktop and viewed. Events
-- map a window only under a pointer that no mapped window has.
pub Reachable-IsSound : (s : Server) → Reachable s → IsSound none s
Reachable-IsSound _ (at_start c) = started-IsSound c
Reachable-IsSound _ (after h e s ok r) = step-IsSound h e s ok (Reachable-IsSound s r)
