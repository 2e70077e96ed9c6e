-- ===== src/Control/Session.antt =====
-- lock.c: the control socket's SHADOW, REMOTE and LOCAL, and a descriptor that came with a request.
use sg_compositor.Prelude.{
  ℕ, Bool, true, false, not, ◌&&◌, Option, none, some, if◌then◌else◌, is_some,
}
use sg_compositor.World.{
  Server, Host, Reply, ok_shadow, ok_remote, err_not_permitted, err_need_a_descriptor, err_busy,
  err_cannot, closed, destroyed_client, log_effect,
}
use sg_compositor.Lock.Access.{uid_may_unlock}
use sg_compositor.Remote.Shadow.{shadow_attach}
use sg_compositor.Remote.Session.{
  remote_attach, remote_detach, adopt_remote_client, client_destroyed,
}
use sg_compositor.Control.Requests.{for_the_machine, lock_state}
use sg_compositor.Control.Connections.{Outcome, answered}

unfoldable pub shadow_outcome : Bool → Server × Bool → Outcome
shadow_outcome control (s, done) = answered s none (if done then ok_shadow control else err_busy)

unfoldable pub shadow_given : Host → Bool → Option ℕ → Server → Outcome
unfolding shadow_outcome
shadow_given h control none s = answered s none err_need_a_descriptor
shadow_given h control (some f) s = shadow_outcome control (shadow_attach h f control s)

-- SHADOW view and SHADOW control
unfoldable pub control_shadow : Host → ℕ → Bool → Option ℕ → Server → Outcome
unfolding shadow_given
control_shadow h u control passed s =
    if not (uid_may_unlock s.lock u)
    then answered s passed err_not_permitted
    else shadow_given h control passed s

-- The descriptor is the compositor's once the session has moved.
unfoldable pub attach_outcome : Option ℕ → Server × Bool → Outcome
attach_outcome passed (s, true) = answered s none ok_remote
attach_outcome passed (s, false) = answered s passed err_cannot

unfoldable pub adopted_outcome : Host → Option ℕ → Server × Bool → Outcome
unfolding attach_outcome
adopted_outcome h passed (s, true) = attach_outcome passed (remote_attach h s)
adopted_outcome h passed (s, false) = answered s none err_busy

unfoldable pub adopt_passed : Host → Option ℕ → Server → Server × Bool
adopt_passed h none s = (s, true)
adopt_passed h (some f) s = adopt_remote_client h f s

-- REMOTE, with the remote connection's descriptor or without
unfoldable pub control_remote : Host → ℕ → Option ℕ → Server → Outcome
unfolding adopted_outcome adopt_passed
control_remote h u passed s =
    if not (uid_may_unlock s.lock u)
    then answered s passed err_not_permitted
    else if is_some s.shadow_client
    then answered s passed err_busy
    else adopted_outcome h passed (adopt_passed h passed s)

unfoldable pub control_local : Host → ℕ → Server → Server × Reply
unfolding for_the_machine
control_local h u s = let t = remote_detach h s in for_the_machine u s (t, lock_state t)

-- A client that was adopted but cannot have the session is let go.
unfoldable pub drop_adopted : Host → Option ℕ → Server → Server
drop_adopted h none s = s
drop_adopted h (some c) s = client_destroyed h c (log_effect (destroyed_client c) s)

-- After the request: the descriptor that nobody took.
unfoldable pub dispose : Host → Option ℕ → Server → Server
unfolding drop_adopted
dispose h none s = s
dispose h (some f) s =
    if is_some s.remote_client && not s.remote
    then drop_adopted h s.remote_client s
    else if not (is_some s.remote_client)
    then log_effect (closed f) s
    else s
