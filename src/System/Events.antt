-- ===== src/System/Events.antt =====
-- The events that the handlers of the other files answer, and the states that they lead to.
use sg_compositor.Prelude.{ℕ, Bool, false, List, [], ◌∷◌, Option, none, some, ◌≡◌, is_some}
use sg_compositor.World.{Surface, View, Lock, Output, Server, Host, find_view}
use sg_compositor.Outputs.{handle_new_output, output_destroy}
use sg_compositor.Seat.Activity.{seat_notify_activity}
use sg_compositor.Seat.Pointer.{process_cursor_motion}
use sg_compositor.Seat.Focus.{seat_set_focus}
use sg_compositor.Windows.Map.{view_map, view_unmap, view_destroy}
use sg_compositor.Windows.Minimize.{view_minimize, wayland_app_minimize}
use sg_compositor.Idle.{
  handle_idle_inhibitor_v1_new, handle_inhibitor_destroy, handle_inhibit_event,
}
use sg_compositor.Remote.Clients.{handle_lock_connection}
use sg_compositor.Remote.Session.{client_destroyed}
use sg_compositor.Control.Connections.{handle_watcher_event}
use sg_compositor.Control.Socket.{Command, handle_control_connection}
use sg_compositor.Keys.Events.{KeyEvent, handle_key_event}

-- lock_init, with the uid that --lock-uid gave.
unfoldable pub lock_init : Option ℕ → Lock
lock_init uid = record {
  locked = false;
  secure = false;
  sas = false;
  have_lock_uid = is_some uid;
  lock_uid = elim uid [ none ↦ 0 | some u ↦ u ];
  privileged = [];
  restricted = [];
  input_global_0 = none;
  input_global_1 = none;
  public_capture = none;
  watchers = [];
  session_watchers = [];
  told_locked = false;
  told_remote = false;
  told_shadow = false;
}

-- What the compositor is started with.
pub record Startup : Type 0 where
  pub lock_uid : Option ℕ
  pub output_mode_last : Bool
  pub remote_backend : Bool
  pub dim_rect : Bool
  pub shadow_frame_tree : Bool
  pub allow_vt_switch : Bool
  pub has_session : Bool

unfoldable pub started : Startup → Server
unfolding lock_init
started c = record {
  lock = lock_init c.lock_uid;
  views = [];
  keyboard_focus = none;
  keyboard_kept = false;
  pointer_focus = none;
  grab_view = none;
  button_count = 0;
  title_drag = false;
  outputs = [];
  output_mode_last = c.output_mode_last;
  remote_backend = c.remote_backend;
  remote = false;
  remote_output = none;
  remote_client = none;
  shadow_client = none;
  shadow_control = false;
  shadow_frame_tree = c.shadow_frame_tree;
  shadow_frame_shown = false;
  dim_rect = c.dim_rect;
  dimmed = false;
  consumed_keys = 0 ∷ 0 ∷ 0 ∷ 0 ∷ 0 ∷ 0 ∷ 0 ∷ 0 ∷ [];
  held_press_keycode = 0;
  switch_keycode = 0;
  allow_vt_switch = c.allow_vt_switch;
  has_session = c.has_session;
  inhibitors = 0;
  control_inhibitors = 0;
  idle_inhibited = false;
  log = [];
}

pub data Event : Type 0 where
  window_mapped : (tree : Bool) → View → Surface → Event
  window_unmapped window_destroyed window_focused : ℕ → Event
  elevated_minimize_asked app_minimize_asked : ℕ → Event
  pointer_moved activity : Event
  key : KeyEvent → Event
  client_gone : ℕ → Event
  lock_connection : (fd : ℕ) (peer : Option ℕ) → Event
  control_connection : (fd : ℕ) (peer : Option ℕ) (fds : List ℕ) → Command → Event
  watcher_hung_up inhibit_hung_up : ℕ → Event
  inhibitor_made inhibitor_gone : Event
  output_plugged : Output → Event
  output_unplugged : ℕ → Event

-- What a handler does to a window of the list.
unfoldable pub on_view : (View → Server → Server) → Option View → Server → Server
on_view f none s = s
on_view f (some v) s = f v s

unfoldable pub step : Host → Event → Server → Server
unfolding on_view
step h (window_mapped tree v u) s = view_map h tree v u s
step h (window_unmapped i) s = view_unmap h i s
step h (window_destroyed i) s = view_destroy h i s
step h (window_focused i) s = seat_set_focus h i s
step h (elevated_minimize_asked i) s = on_view (view_minimize h) (find_view i s.views) s
step h (app_minimize_asked i) s = on_view (wayland_app_minimize h) (find_view i s.views) s
step h pointer_moved s = process_cursor_motion h s
step h activity s = seat_notify_activity h s
step h (key e) s = handle_key_event h e s
step h (client_gone c) s = client_destroyed h c s
step h (lock_connection fd peer) s = handle_lock_connection h fd peer s
step h (control_connection fd peer fds c) s = handle_control_connection h fd peer fds c s
step h (watcher_hung_up fd) s = handle_watcher_event fd s
step h (inhibit_hung_up fd) s = handle_inhibit_event fd s
step h inhibitor_made s = handle_idle_inhibitor_v1_new h s
step h inhibitor_gone s = handle_inhibitor_destroy s
step h (output_plugged o) s = handle_new_output h o s
step h (output_unplugged i) s = output_destroy h i s

-- A window that is mapped was not mapped before.
abbrev pub Enabled : Event → Server → Type 0
Enabled (window_mapped _ v u) s = find_view v.id s.views ≡ none
Enabled e s = Unit {0}

-- The states between two events; the kernel and wlroots may answer each event as they like.
pub data Reachable : Server → Type 0 where
  at_start : (c : Startup) → Reachable (started c)
  after : (h : Host) (e : Event) (s : Server) → Enabled e s → Reachable s → Reachable (step h e s)
