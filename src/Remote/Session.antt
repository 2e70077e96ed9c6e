-- ===== src/Remote/Session.antt =====
-- lock.c: Remote Desktop takes the session and gives it back, and the end of a client.
use sg_compositor.Prelude.{
  ℕ, Bool, true, false, not, ◌&&◌, ◌||◌, Option, none, some, ◌==◌, if◌then◌else◌, find, is_some,
}
use sg_compositor.World.{
  Output, Server, Host, closed, destroyed_client, destroyed_output, same_id, log_effect,
}
use sg_compositor.Lock.Watchers.{lock_session_update}
use sg_compositor.Lock.Engage.{lock_engage, lock_release}
use sg_compositor.Outputs.{output_destroy, handle_new_output}
use sg_compositor.Remote.Clients.{privileged_destroy, destroy_resources, create_privileged}
use sg_compositor.Remote.Shadow.{handle_shadow_client_destroy}

-- The size that the session has at the console: of the first enabled output in the layout.
abbrev pub in_layout : Output → Bool
in_layout o = o.enabled && not (o.width == 0) && not (o.height == 0)

abbrev pub size_or_default : Option Output → ℕ × ℕ
size_or_default none = (1280, 720)
size_or_default (some o) = (o.width, o.height)

unfoldable pub console_size : Server → ℕ × ℕ
console_size s = size_or_default (find in_layout s.outputs)

unfoldable pub headless : ℕ → Output
headless i = record {
  id = i;
  enabled = false;
  powered_off = false;
  width = 0;
  height = 0;
  nested = false;
}

-- remote_attach from a new output on: the session is unlocked there.
unfoldable pub take_session : Host → ℕ → Server → Server
unfolding headless
take_session h o s =
    let t = handle_new_output h (headless o) s in
    let u = lock_release h (record t { remote_output = some o; remote = true }) in
    let w = lock_session_update h u in record w { pointer_focus = none }

-- remote_attach: not without a backend for its output, nor during a secure prompt.
unfoldable pub remote_attach : Host → Server → Server × Bool
unfolding console_size
remote_attach h s =
    if not s.remote_backend || s.lock.secure
    then (s, false)
    else if s.remote
    then (s, true)
    else elim (h.add_output (console_size s).0 (console_size s).1) [
      | none ↦ (s, false)
      | some o ↦ (take_session h o s, true)
    ]

unfoldable pub shadow_gone : Host → ℕ → Server → Server
shadow_gone h c s = if same_id s.shadow_client (some c) then handle_shadow_client_destroy h s else s

-- wl_client_destroy of a client that the remote session no longer waits for.
unfoldable pub destroy_client : Host → ℕ → Server → Server
unfolding shadow_gone
destroy_client h c s =
    destroy_resources h c
      (shadow_gone h c (privileged_destroy c (log_effect (destroyed_client c) s)))

unfoldable pub drop_output : Host → Option ℕ → Server → Server
drop_output h none s = s
drop_output h (some o) s = output_destroy h o (log_effect (destroyed_output o) s)

unfoldable pub drop_client : Host → Option ℕ → Server → Server
drop_client h none s = s
drop_client h (some c) s = destroy_client h c s

-- remote_detach up to the windows' coming back: locked before that.
unfoldable pub give_back : Host → Server → Server
give_back h s = lock_engage h (
    lock_session_update h (record s { remote = false; remote_output = none; remote_client = none }))

unfoldable pub remote_detach : Host → Server → Server
unfolding drop_output drop_client
remote_detach h s =
    if not s.remote
    then s
    else drop_client h s.remote_client (drop_output h s.remote_output (give_back h s))

unfoldable pub handle_remote_client_destroy : Host → Server → Server
handle_remote_client_destroy h s = remote_detach h (record s { remote_client = none })

unfoldable pub remote_gone : Host → ℕ → Server → Server
remote_gone h c s = if same_id s.remote_client (some c) then handle_remote_client_destroy h s else s

-- A client disconnects: its listeners in the order they were added, then its resources.
unfoldable pub client_destroyed : Host → ℕ → Server → Server
unfolding remote_gone shadow_gone
client_destroyed h c s =
    destroy_resources h c (shadow_gone h c (remote_gone h c (privileged_destroy c s)))

unfoldable pub adopt : Server × Option ℕ → Server × Bool
adopt (s, none) = (s, false)
adopt (s, some c) = (record s { remote_client = some c }, true)

-- adopt_remote_client: one remote connection at a time.
unfoldable pub adopt_remote_client : Host → ℕ → Server → Server × Bool
unfolding adopt
adopt_remote_client h fd s =
    if is_some s.remote_client
    then (log_effect (closed fd) s, false)
    else adopt (create_privileged h fd s)

abbrev pub end_viewer : Host → Option ℕ → Server → Server
end_viewer h none s = s
end_viewer h (some c) s = client_destroyed h c (log_effect (destroyed_client c) s)

-- shadow_end: the client's destroy listener does the rest.
unfoldable pub shadow_end : Host → Server → Server
shadow_end h s = end_viewer h s.shadow_client s
