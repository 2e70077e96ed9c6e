-- ===== src/Remote/Admission.antt =====
-- lock.c: who becomes a privileged client.
use sg_compositor.Prelude.{
  ℕ, Bool, true, false, ◌∷◌, Option, none, some, arith, ◌≡◌, refl, ◌⊎◌, inl, inr, Option-cases,
  Bool-cases,
}
use sg_compositor.World.{Lock, Server, Host, closed, log_effect}
use sg_compositor.Lock.Access.{uid_may_unlock}
use sg_compositor.Remote.Clients.{create_privileged, handle_lock_connection}

-- A peer that the kernel names and that has authority.
abbrev pub has_authority : Lock → Option ℕ → Bool
has_authority l none = false
has_authority l (some u) = uid_may_unlock l u

-- A connection to the privileged socket without authority is closed and nothing else changes;
-- with authority either the lock's state stays or the new connection's client, and no other,
-- joins the privileged clients.
pub handle_lock_connection-privileged :
    (h : Host) (fd : ℕ) (peer : Option ℕ) (s : Server)
    → ((has_authority s.lock peer ≡ false)
        × (handle_lock_connection h fd peer s ≡ log_effect (closed fd) s))
      ⊎ ((has_authority s.lock peer ≡ true)
          × (((handle_lock_connection h fd peer s).lock ≡ s.lock)
              ⊎ ((c : ℕ) × (h.client_create fd ≡ some c)
                  × ((handle_lock_connection h fd peer s).lock.privileged
                      ≡ c ∷ s.lock.privileged))))
unfolding handle_lock_connection create_privileged
handle_lock_connection-privileged h fd none s = inl (refl, refl)
handle_lock_connection-privileged h fd (some u) s = elim (Bool-cases (uid_may_unlock s.lock u)) [
  | inr stranger ↦ inl (stranger, ground (arith, stranger))
  | inl allowed ↦ elim (Option-cases (h.client_create fd)) [
    | inl failed ↦ inr (allowed, inl (ground (arith, allowed, failed)))
    | inr (c, made) ↦ elim (Bool-cases h.calloc_ok) [
      | inl ready ↦ inr (allowed, inr (c, made, ground (arith, allowed, made, ready)))
      | inr out ↦ inr (allowed, inl (ground (arith, allowed, made, out)))
    ]
  ]
]
