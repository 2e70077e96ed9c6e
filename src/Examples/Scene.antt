-- ===== src/Examples/Scene.antt =====
-- A run on concrete values: the lock service's screen, a program's window, and a LOCK.
use sg_compositor.Keys.Reserved.{delete}
use sg_compositor.Keys.Events.{KeyEvent}
use sg_compositor.Prelude.{sym, ℕ, true, false, ◌+◌, ◌∷◌, [], none, some, ◌≡◌, refl}
use sg_compositor.World.{
  Surface, View, xdg_shell_view, normal_layer, privileged_layer, Server, Host, find_view,
}
use sg_compositor.Lock.Access.{
  uid_may_unlock, uid_may_lock, lock_view_is_privileged, lock_view_allowed,
}
use sg_compositor.Lock.Watchers.{
  send_watchers, session_locked, tell_remote, tell_locked, tell_shadow, lock_session_update,
  notify_watchers,
}
use sg_compositor.Lock.Engage.{lock_view_mapped, conceal, isolate, lock_engage}
use sg_compositor.Seat.Activity.{seat_notify_activity}
use sg_compositor.Seat.Pointer.{
  desktop_view_at, wayland_app_grab_motion, elevated_grab_motion, pointer_to_cursor,
  process_cursor_motion,
}
use sg_compositor.Seat.Focus.{focus_enter, focus_refused, focus_view, seat_set_focus}
use sg_compositor.Windows.Map.{parent_layer, mapped_view, view_map}
use sg_compositor.Remote.Clients.{create_privileged, handle_lock_connection}
use sg_compositor.Control.Requests.{for_the_session, control_lock}
use sg_compositor.Control.Session.{dispose}
use sg_compositor.Control.Socket.{
  lock_command, close_all, dispatch, respond, finish, handle_control_connection,
}
use sg_compositor.Keys.Events.{seat_get_focus}
use sg_compositor.System.Events.{
  lock_init, Startup, started, Event, window_mapped, lock_connection, control_connection, step,
  Reachable, at_start, after,
}
use mathlib.Core.Path.{subst}
use sg_compositor.Authority.Barred.{Bar, Invited, IsBarred}
use mathlib.Core.Bool.{xor}

abbrev pub host : Host
host = record {
  uid = 1000;
  send_ok = λ fd m. true;
  keyboard_grabbed = λ s. false;
  node_at = λ vs. some 2;
  commit_ok = λ o on. true;
  add_output = λ w h. some 50;
  init_render_ok = λ o. true;
  scene_output_ok = λ o. true;
  layout_size = λ o. (800, 600);
  client_create = λ fd. some (fd + 100);
  calloc_ok = true;
  backend_is_multi = false;
  reload_command = false;
}

abbrev pub startup : Startup
startup = record {
  lock_uid = some 990;
  output_mode_last = false;
  remote_backend = true;
  dim_rect = true;
  shadow_frame_tree = true;
  allow_vt_switch = false;
  has_session = false;
}

abbrev pub window : ℕ → View
window i = record {
  id = i;
  surface = none;
  has_tree = false;
  enabled = false;
  layer = normal_layer;
  type = xdg_shell_view;
  elevated = none;
  minimized = false;
  managed = true;
  has_parent = false;
  override_redirect = false;
  wants_focus = true;
  shell_desktop = false;
  class_exe = false;
  window_id = i;
}

abbrev pub surface_of : ℕ → Surface
surface_of c = record { resource_client = some c }

-- The lock service connects and maps its screen, a program maps a window, and the user locks.
abbrev pub at_connect : Event
at_connect = lock_connection 5 (some 990)

abbrev pub at_screen : Event
at_screen = window_mapped true (window 2) (surface_of 105)

abbrev pub at_program : Event
at_program = window_mapped true (window 1) (surface_of 7)

abbrev pub at_lock : Event
at_lock = control_connection 6 (some 1000) [] lock_command

abbrev pub connected : Server
connected = step host at_connect (started startup)

abbrev pub screened : Server
screened = step host at_screen connected

abbrev pub running : Server
running = step host at_program screened

abbrev pub guarded : Server
guarded = step host at_lock running

-- The lock service's screen as it is then.
abbrev pub screen_window : View
screen_window = record (window 2) {
  surface = some (surface_of 105);
  has_tree = true;
  enabled = true;
  layer = privileged_layer;
}

screen_fresh : find_view 2 connected.views ≡ none
unfolding step started handle_lock_connection uid_may_unlock create_privileged lock_init
screen_fresh = refl

program_fresh : find_view 1 screened.views ≡ none
unfolding step started lock_init handle_lock_connection uid_may_unlock create_privileged view_map
    mapped_view parent_layer lock_view_mapped seat_set_focus focus_view focus_refused focus_enter
    process_cursor_motion pointer_to_cursor desktop_view_at wayland_app_grab_motion
    elevated_grab_motion handle_control_connection dispatch finish respond dispose close_all
    control_lock for_the_session uid_may_lock lock_engage isolate conceal notify_watchers
    lock_session_update lock_view_allowed seat_notify_activity tell_shadow xor tell_locked
    session_locked send_watchers tell_remote lock_view_is_privileged seat_get_focus
program_fresh = refl

pub running-Reachable : Reachable running
running-Reachable = after host at_program screened program_fresh (
    after host at_screen connected screen_fresh
      (after host at_connect (started startup) tt (at_start startup)))

pub guarded-Reachable : Reachable guarded
guarded-Reachable = after host at_lock running tt running-Reachable

pub guarded_locked : guarded.lock.locked ≡ true
unfolding step started lock_init handle_lock_connection uid_may_unlock create_privileged view_map
    mapped_view parent_layer lock_view_mapped seat_set_focus focus_view focus_refused focus_enter
    process_cursor_motion pointer_to_cursor desktop_view_at wayland_app_grab_motion
    elevated_grab_motion handle_control_connection dispatch finish respond dispose close_all
    control_lock for_the_session uid_may_lock lock_engage isolate conceal notify_watchers
    lock_session_update lock_view_allowed seat_notify_activity tell_shadow xor tell_locked
    session_locked send_watchers tell_remote lock_view_is_privileged seat_get_focus
guarded_locked = refl

pub guarded_secure : guarded.lock.secure ≡ false
unfolding step started lock_init handle_lock_connection uid_may_unlock create_privileged view_map
    mapped_view parent_layer lock_view_mapped seat_set_focus focus_view focus_refused focus_enter
    process_cursor_motion pointer_to_cursor desktop_view_at wayland_app_grab_motion
    elevated_grab_motion handle_control_connection dispatch finish respond dispose close_all
    control_lock for_the_session uid_may_lock lock_engage isolate conceal notify_watchers
    lock_session_update lock_view_allowed seat_notify_activity tell_shadow xor tell_locked
    session_locked send_watchers tell_remote lock_view_is_privileged seat_get_focus
guarded_secure = refl

pub guarded_kept : guarded.keyboard_kept ≡ false
unfolding step started lock_init handle_lock_connection uid_may_unlock create_privileged view_map
    mapped_view parent_layer lock_view_mapped seat_set_focus focus_view focus_refused focus_enter
    process_cursor_motion pointer_to_cursor desktop_view_at wayland_app_grab_motion
    elevated_grab_motion handle_control_connection dispatch finish respond dispose close_all
    control_lock for_the_session uid_may_lock lock_engage isolate conceal notify_watchers
    lock_session_update lock_view_allowed seat_notify_activity tell_shadow xor tell_locked
    session_locked send_watchers tell_remote lock_view_is_privileged seat_get_focus
guarded_kept = refl

-- A menu of the program is open when the session locks: its grab keeps the keyboard.
abbrev with_menu : Server
with_menu = step (record host { keyboard_grabbed = λ s. true }) at_lock running

with_menu_typed :
    (with_menu.lock.locked ≡ true)
    × (with_menu.keyboard_kept ≡ true)
    × (with_menu.keyboard_focus ≡ some 1)
unfolding step started lock_init handle_lock_connection uid_may_unlock create_privileged view_map
    mapped_view parent_layer lock_view_mapped seat_set_focus focus_view focus_refused focus_enter
    process_cursor_motion pointer_to_cursor desktop_view_at wayland_app_grab_motion
    elevated_grab_motion handle_control_connection dispatch finish respond dispose close_all
    control_lock for_the_session uid_may_lock lock_engage isolate conceal notify_watchers
    lock_session_update lock_view_allowed seat_notify_activity tell_shadow xor tell_locked
    session_locked send_watchers tell_remote lock_view_is_privileged seat_get_focus
with_menu_typed = (refl, refl, refl)

pub guarded_session : session_locked guarded.lock ≡ true
unfolding step started lock_init handle_lock_connection uid_may_unlock create_privileged view_map
    mapped_view parent_layer lock_view_mapped seat_set_focus focus_view focus_refused focus_enter
    process_cursor_motion pointer_to_cursor desktop_view_at wayland_app_grab_motion
    elevated_grab_motion handle_control_connection dispatch finish respond dispose close_all
    control_lock for_the_session uid_may_lock lock_engage isolate conceal notify_watchers
    lock_session_update lock_view_allowed seat_notify_activity tell_shadow xor tell_locked
    session_locked send_watchers tell_remote lock_view_is_privileged seat_get_focus
guarded_session = refl

pub guarded_focus : seat_get_focus guarded ≡ some screen_window
unfolding step started lock_init handle_lock_connection uid_may_unlock create_privileged view_map
    mapped_view parent_layer lock_view_mapped seat_set_focus focus_view focus_refused focus_enter
    process_cursor_motion pointer_to_cursor desktop_view_at wayland_app_grab_motion
    elevated_grab_motion handle_control_connection dispatch finish respond dispose close_all
    control_lock for_the_session uid_may_lock lock_engage isolate conceal notify_watchers
    lock_session_update lock_view_allowed seat_notify_activity tell_shadow xor tell_locked
    session_locked send_watchers tell_remote lock_view_is_privileged seat_get_focus
guarded_focus = refl

pub guarded_pointer : guarded.pointer_focus ≡ some 2
unfolding step started lock_init handle_lock_connection uid_may_unlock create_privileged view_map
    mapped_view parent_layer lock_view_mapped seat_set_focus focus_view focus_refused focus_enter
    process_cursor_motion pointer_to_cursor desktop_view_at wayland_app_grab_motion
    elevated_grab_motion handle_control_connection dispatch finish respond dispose close_all
    control_lock for_the_session uid_may_lock lock_engage isolate conceal notify_watchers
    lock_session_update lock_view_allowed seat_notify_activity tell_shadow xor tell_locked
    session_locked send_watchers tell_remote lock_view_is_privileged seat_get_focus
guarded_pointer = refl

pub guarded_screen : find_view 2 guarded.views ≡ some screen_window
unfolding step started lock_init handle_lock_connection uid_may_unlock create_privileged view_map
    mapped_view parent_layer lock_view_mapped seat_set_focus focus_view focus_refused focus_enter
    process_cursor_motion pointer_to_cursor desktop_view_at wayland_app_grab_motion
    elevated_grab_motion handle_control_connection dispatch finish respond dispose close_all
    control_lock for_the_session uid_may_lock lock_engage isolate conceal notify_watchers
    lock_session_update lock_view_allowed seat_notify_activity tell_shadow xor tell_locked
    session_locked send_watchers tell_remote lock_view_is_privileged seat_get_focus
guarded_screen = refl

pub guarded_stranger : uid_may_unlock guarded.lock 1000 ≡ false
unfolding step started lock_init handle_lock_connection uid_may_unlock create_privileged view_map
    mapped_view parent_layer lock_view_mapped seat_set_focus focus_view focus_refused focus_enter
    process_cursor_motion pointer_to_cursor desktop_view_at wayland_app_grab_motion
    elevated_grab_motion handle_control_connection dispatch finish respond dispose close_all
    control_lock for_the_session uid_may_lock lock_engage isolate conceal notify_watchers
    lock_session_update lock_view_allowed seat_notify_activity tell_shadow xor tell_locked
    session_locked send_watchers tell_remote lock_view_is_privileged seat_get_focus
guarded_stranger = refl

pub guarded_under : desktop_view_at host guarded ≡ some screen_window
unfolding step started lock_init handle_lock_connection uid_may_unlock create_privileged view_map
    mapped_view parent_layer lock_view_mapped seat_set_focus focus_view focus_refused focus_enter
    process_cursor_motion pointer_to_cursor desktop_view_at wayland_app_grab_motion
    elevated_grab_motion handle_control_connection dispatch finish respond dispose close_all
    control_lock for_the_session uid_may_lock lock_engage isolate conceal notify_watchers
    lock_session_update lock_view_allowed seat_notify_activity tell_shadow xor tell_locked
    session_locked send_watchers tell_remote lock_view_is_privileged seat_get_focus
guarded_under = refl

pub guarded_privileged : guarded.lock.privileged ≡ 105 ∷ []
unfolding step started lock_init handle_lock_connection uid_may_unlock create_privileged view_map
    mapped_view parent_layer lock_view_mapped seat_set_focus focus_view focus_refused focus_enter
    process_cursor_motion pointer_to_cursor desktop_view_at wayland_app_grab_motion
    elevated_grab_motion handle_control_connection dispatch finish respond dispose close_all
    control_lock for_the_session uid_may_lock lock_engage isolate conceal notify_watchers
    lock_session_update lock_view_allowed seat_notify_activity tell_shadow xor tell_locked
    session_locked send_watchers tell_remote lock_view_is_privileged seat_get_focus
guarded_privileged = refl

pub guarded_no_control : guarded.shadow_control ≡ false
unfolding step started lock_init handle_lock_connection uid_may_unlock create_privileged view_map
    mapped_view parent_layer lock_view_mapped seat_set_focus focus_view focus_refused focus_enter
    process_cursor_motion pointer_to_cursor desktop_view_at wayland_app_grab_motion
    elevated_grab_motion handle_control_connection dispatch finish respond dispose close_all
    control_lock for_the_session uid_may_lock lock_engage isolate conceal notify_watchers
    lock_session_update lock_view_allowed seat_notify_activity tell_shadow xor tell_locked
    session_locked send_watchers tell_remote lock_view_is_privileged seat_get_focus
guarded_no_control = refl

-- The session is locked, and the lock service is the only privileged client.
abbrev pub bar : Bar
bar = record { real = true; guests = some (105 ∷ []) }

pub guarded-IsBarred : IsBarred bar guarded
guarded-IsBarred = record {
  locked = guarded_locked;
  session = λ _. guarded_session;
  invited = subst (Invited (some (105 ∷ []))) (sym guarded_privileged) (refl, tt);
}

-- Ctrl+Alt+Del
abbrev pub sas_key : KeyEvent
sas_key = record {
  keycode = 111;
  pressed = true;
  syms = delete ∷ [];
  modifiers = record { logo = false; ctrl = true; alt = true; shift = false };
  is_virtual = false;
  owner = none;
}
