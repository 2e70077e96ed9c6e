-- ===== src/Remote/Shadow.antt =====
-- lock.c: the console shadow. The place of the frame round the screen is not in the state.
use sg_compositor.Prelude.{ℕ, Bool, true, false, ◌||◌, Option, none, some, if◌then◌else◌, is_some}
use sg_compositor.World.{Server, Host, closed, log_effect}
use sg_compositor.Lock.Watchers.{lock_session_update}
use sg_compositor.Remote.Clients.{create_privileged}

unfoldable pub shadow_frame_show : Bool → Server → Server
shadow_frame_show on s = record s {
  shadow_frame_shown = if s.shadow_frame_tree then on else s.shadow_frame_shown;
}

unfoldable pub handle_shadow_client_destroy : Host → Server → Server
unfolding shadow_frame_show
handle_shadow_client_destroy h s =
    lock_session_update h
      (shadow_frame_show false (record s { shadow_client = none; shadow_control = false }))

unfoldable pub start_shadow : Host → Bool → Server × Option ℕ → Server × Bool
unfolding shadow_frame_show
start_shadow h control (s, none) = (s, false)
start_shadow h control (s, some c) = (
  lock_session_update h
      (shadow_frame_show true (record s { shadow_client = some c; shadow_control = control })),
  true,
)

-- shadow_attach: one remote viewer at a time, and not while Remote Desktop has the session.
unfoldable pub shadow_attach : Host → ℕ → Bool → Server → Server × Bool
unfolding start_shadow
shadow_attach h fd control s =
    if is_some s.shadow_client || is_some s.remote_client || s.remote
    then (log_effect (closed fd) s, false)
    else start_shadow h control (create_privileged h fd s)
