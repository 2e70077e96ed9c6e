-- ===== src/Lock/Access.antt =====
-- lock.c: privileged clients and views, and the uids that may lock and unlock.
use sg_compositor.Prelude.{ℕ, Bool, false, not, ◌&&◌, ◌||◌, Option, none, some, ◌==◌, any}
use sg_compositor.World.{Surface, View, Lock, Host}

-- uid_may_unlock: the machine session's account, or root.
unfoldable pub uid_may_unlock : Lock → ℕ → Bool
uid_may_unlock l u = u == 0 || (l.have_lock_uid && u == l.lock_uid)

-- uid_may_lock: the session's own user too.
unfoldable pub uid_may_lock : Host → Lock → ℕ → Bool
unfolding uid_may_unlock
uid_may_lock h l u = u == h.uid || uid_may_unlock l u

unfoldable pub lock_client_is_privileged : Lock → ℕ → Bool
lock_client_is_privileged l c = any (λ p. p == c) l.privileged

-- The client of a view's surface; none without a surface or its resource.
abbrev pub surface_client : Option Surface → Option ℕ
surface_client none = none
surface_client (some u) = u.resource_client

client_may : Lock → Option ℕ → Bool
unfolding lock_client_is_privileged
client_may l none = false
client_may l (some c) = lock_client_is_privileged l c

-- No caller passes a NULL view.
unfoldable pub lock_view_is_privileged : Lock → View → Bool
unfolding client_may
lock_view_is_privileged l v = client_may l (surface_client v.surface)

-- While unlocked every view, while locked the privileged ones.
unfoldable pub lock_view_allowed : Lock → View → Bool
lock_view_allowed l v = not l.locked || lock_view_is_privileged l v
