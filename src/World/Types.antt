-- ===== src/World/Types.antt =====
-- The records of server.h, lock.h, view.h, seat.h and output.h, and the effects on the outside.
use sg_compositor.Prelude.{ℕ, Bool, List, Option}

-- A Wayland surface; its resource, while it has one, belongs to a client.
pub record Surface : Type 0 where
  pub resource_client : Option ℕ

-- enum cg_view_type
pub data ViewType : Type 0 where
  xdg_shell_view xwayland_view : ViewType

-- The views' places in the stack (server->normal_tree, elevated_tree, privileged_tree).
pub data Layer : Type 0 where
  normal_layer elevated_layer privileged_layer : Layer

-- struct cg_view, with what its implementation reads of the window. A view's pointer is its `id`.
pub record View : Type 0 where
  pub id : ℕ
  pub surface : Option Surface  -- wlr_surface, NULL while it is not mapped
  pub has_tree : Bool  -- scene_tree is not NULL
  pub enabled : Bool  -- scene_tree->node.enabled
  pub layer : Layer  -- the tree that the scene tree hangs in
  pub type : ViewType
  pub elevated : Option ℕ  -- the elevated display that it is a window of
  pub minimized : Bool
  pub managed : Bool  -- cg_xdg_shell_view::managed (wayland_app.c)
  pub has_parent : Bool  -- the toplevel's or X window's parent is not NULL
  pub override_redirect : Bool
  pub wants_focus : Bool  -- wlr_xwayland_or_surface_wants_focus
  pub shell_desktop : Bool  -- xwayland_view_is_shell_desktop
  pub class_exe : Bool  -- the X window's class ends in .exe
  pub window_id : ℕ

-- struct cg_lock. A client, a global and a connection are numbers.
pub record Lock : Type 0 where
  pub locked : Bool
  pub secure : Bool
  pub sas : Bool
  pub have_lock_uid : Bool
  pub lock_uid : ℕ
  pub privileged : List ℕ
  pub restricted : List ℕ
  pub input_global_0 : Option ℕ
  pub input_global_1 : Option ℕ
  pub public_capture : Option ℕ
  pub watchers : List ℕ
  pub session_watchers : List ℕ
  pub told_locked : Bool
  pub told_remote : Bool
  pub told_shadow : Bool

-- struct cg_output and its wlr_output
pub record Output : Type 0 where
  pub id : ℕ
  pub enabled : Bool
  pub powered_off : Bool
  pub width : ℕ  -- of its box in the layout; 0: not in the layout
  pub height : ℕ
  pub nested : Bool  -- is_nested_output: a window of another compositor or X server

-- What the WATCH connections are told.
pub data WatchEvent : Type 0 where
  locked_event unlocked_event secure_event sas_event released_event : WatchEvent

-- What the SESSION connections are told.
pub data SessionEvent : Type 0 where
  lock_event unlock_event remote_connect remote_disconnect shadow_start shadow_end : SessionEvent

-- The replies of the control socket; a listing's text is not in the model.
pub data Reply : Type 0 where
  ok_locked ok_unlocked ok_secure ok_inhibited ok_not_inhibited ok_remote ok ok_none ok_view : Reply
  ok_control listing err_not_permitted err_locked err_not_on_the_security_screen : Reply
  err_need_a_descriptor err_busy err_cannot err_no_such_window err_no_desktop : Reply
  err_unknown_command : Reply
  ok_session : (locked remote shadow : Bool) → Reply
  ok_shadow : (control : Bool) → Reply

pub data Message : Type 0 where
  watch : WatchEvent → Message
  session : SessionEvent → Message
  reply : Reply → Message

-- What the volume keys ask the settings service for.
pub data VolumeStep : Type 0 where
  volume_up volume_down mute_toggle : VolumeStep

-- SAS <action>: the choices of the security screen, and any other text.
pub data SasAction : Type 0 where
  cancel taskmgr signout other_action : SasAction

pub data Effect : Type 0 where
  sent : ℕ → Message → Effect
  closed : ℕ → Effect
  activated : ℕ → Bool → Effect
  destroyed_client : ℕ → Effect
  destroyed_output : ℕ → Effect
  ran_sas_helper : SasAction → Effect
  closed_window : ℕ → Effect
  stepped_volume : VolumeStep → Effect
  ran_reload : Effect
  sent_key : (keycode : ℕ) (pressed : Bool) (focus : Option ℕ) → Effect
  changed_vt : ℕ → Effect
  notified_activity : Effect
  terminated : Effect

-- struct cg_server and its cg_seat
pub record Server : Type 0 where
  pub lock : Lock
  pub views : List View  -- front first
  pub keyboard_focus : Option ℕ  -- the view of the seat's focused surface
  pub keyboard_kept : Bool  -- the last call that clears that focus was ignored, for a grab
  pub pointer_focus : Option ℕ
  pub grab_view : Option ℕ
  pub button_count : ℕ
  pub title_drag : Bool  -- decor.c's press.decor && press.moving
  pub outputs : List Output
  pub output_mode_last : Bool  -- CAGE_MULTI_OUTPUT_MODE_LAST
  pub remote_backend : Bool
  pub remote : Bool
  pub remote_output : Option ℕ
  pub remote_client : Option ℕ
  pub shadow_client : Option ℕ
  pub shadow_control : Bool
  pub shadow_frame_tree : Bool
  pub shadow_frame_shown : Bool
  pub dim_rect : Bool
  pub dimmed : Bool
  pub consumed_keys : List ℕ  -- the slots; 0 is a free one
  pub held_press_keycode : ℕ
  pub switch_keycode : ℕ
  pub allow_vt_switch : Bool
  pub has_session : Bool  -- server->session is not NULL
  pub inhibitors : ℕ
  pub control_inhibitors : ℕ
  pub idle_inhibited : Bool
  pub log : List Effect  -- newest first

-- The kernel's and wlroots' answers.
pub record Host : Type 0 where
  pub uid : ℕ  -- getuid
  pub send_ok : ℕ → Message → Bool  -- send() on this connection does not fail
  -- The seat's keyboard has a grab, of an open popup or a drag, that lets the focus neither be
  -- cleared nor be given to a surface. It may come and go between any two calls.
  pub keyboard_grabbed : Server → Bool
  pub node_at : List View → Option ℕ  -- wlr_scene_node_at the cursor: its view
  pub commit_ok : ℕ → Bool → Bool  -- wlr_output_commit_state with this `enabled`
  pub add_output : ℕ → ℕ → Option ℕ  -- wlr_headless_add_output with this size
  pub init_render_ok : ℕ → Bool  -- wlr_output_init_render
  pub scene_output_ok : ℕ → Bool  -- wlr_scene_output_create
  pub layout_size : ℕ → ℕ × ℕ  -- the box of an output that joins the layout
  pub client_create : ℕ → Option ℕ  -- wl_client_create on this descriptor
  pub calloc_ok : Bool
  pub backend_is_multi : Bool
  pub reload_command : Bool  -- SG_RELOAD_COMMAND is set, not empty, and fork() works
