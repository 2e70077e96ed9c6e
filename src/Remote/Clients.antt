-- ===== src/Remote/Clients.antt =====
-- lock.c: connections on the privileged socket, and what goes when a client goes.
use sg_compositor.Prelude.{
  ℕ, Bool, not, List, [], ◌∷◌, Option, none, some, ◌==◌, if◌then◌else◌, keep,
}
use sg_compositor.World.{View, Server, Host, closed, destroyed_client, same_id, log_effect}
use sg_compositor.Lock.Access.{uid_may_unlock, surface_client}
use sg_compositor.Windows.Map.{view_unmap}

-- privileged_destroy
unfoldable pub privileged_destroy : ℕ → Server → Server
privileged_destroy c s = record s {
  lock = record (s.lock) { privileged = keep (λ p. not (p == c)) s.lock.privileged };
}

abbrev pub add_privileged : ℕ → Server → Server
add_privileged c s = record s { lock = record (s.lock) { privileged = c ∷ s.lock.privileged } }

abbrev pub view_of : ℕ → View → Bool
view_of c v = same_id (surface_client v.surface) (some c)

-- The client's resources are destroyed: its views are unmapped, in the order of the list given.
unfoldable pub unmap_views : Host → ℕ → List View → Server → Server
unmap_views h c [] s = s
unmap_views h c (v ∷ vs) s = unmap_views h c vs (if view_of c v then view_unmap h v.id s else s)

unfoldable pub destroy_resources : Host → ℕ → Server → Server
destroy_resources h c s = unmap_views h c s.views s

-- A client for a connection that the kernel vouches for, or none: the connection is closed.
unfoldable pub create_privileged : Host → ℕ → Server → Server × Option ℕ
create_privileged h fd s = elim (h.client_create fd) [
  | none ↦ (log_effect (closed fd) s, none)
  | some c ↦
      if not h.calloc_ok
      then (log_effect (destroyed_client c) s, none)
      else (add_privileged c s, some c)
]

-- handle_lock_connection, once a connection is accepted; `peer` is what SO_PEERCRED says.
unfoldable pub handle_lock_connection : Host → ℕ → Option ℕ → Server → Server
handle_lock_connection h fd none s = log_effect (closed fd) s
handle_lock_connection h fd (some u) s =
    if not (uid_may_unlock s.lock u) then log_effect (closed fd) s else (create_privileged h fd s).0
