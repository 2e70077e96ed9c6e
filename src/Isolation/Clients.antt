-- ===== src/Isolation/Clients.antt =====
-- The isolation and lock.c's privileged clients and console shadow.
use sg_compositor.Prelude.{
  ℕ, Bool, true, false, not, ◌||◌, List, [], ◌∷◌, Option, none, some, arith, ◌≡◌, refl, ◌==◌, any,
  keep, is_some, if_cases, Option-cases, inl, inr,
}
use sg_compositor.World.{View, Lock, Server, Host, closed, destroyed_client}
use sg_compositor.Lock.Access.{
  surface_client, lock_view_is_privileged, uid_may_unlock, lock_client_is_privileged,
}
use sg_compositor.Lock.Watchers.{session_locked}
use sg_compositor.Remote.Clients.{
  privileged_destroy, add_privileged, create_privileged, handle_lock_connection,
}
use sg_compositor.Remote.Shadow.{handle_shadow_client_destroy, start_shadow, shadow_attach}
use sg_compositor.Isolation.Views.{focus_in_mono}
use sg_compositor.Isolation.Told.{Told}
use sg_compositor.Isolation.Invariant.{
  excused, IsIsolated, IsSound, IsIsolated-screen, lock_session_update-IsSound, log_effect-IsSound,
}
use sg_compositor.Isolation.Engage.{SoundResult}
use sg_compositor.Isolation.Gone.{All-mono}

-- Changing the list of the privileged clients, where whoever was excused stays so.
privileged-IsIsolated :
    {g k : Option ℕ} (s : Server) (ps : List ℕ)
    → ((v : View)
        → excused g s.lock v ≡ true
        → excused k (record (s.lock) { privileged = ps }) v ≡ true)
    → IsIsolated g s
    → IsIsolated k (record s { lock = record (s.lock) { privileged = ps } })
privileged-IsIsolated s ps more i = record {
  confined = λ l. record {
    keyboard = λ n. focus_in_mono _ _ s.keyboard_focus s.views more ((i.confined l).keyboard n);
    pointer = focus_in_mono _ _ s.pointer_focus s.views more (i.confined l).pointer;
  };
  hidden = λ l n. All-mono _ _ s.views (λ v c shown. more v (c shown)) (i.hidden l n);
  dimmed = i.dimmed;
  secure_locked = i.secure_locked;
  sas_locked = i.sas_locked;
  one_reason = i.one_reason;
}

any-keep_ne :
    (c x : ℕ) (ps : List ℕ)
    → (x == c) ≡ false
    → any (λ p. p == x) (keep (λ p. not (p == c)) ps) ≡ any (λ p. p == x) ps
any-keep_ne c x [] ne = refl
any-keep_ne c x (p ∷ ps) ne = ground (arith, any-keep_ne c x ps ne)

still_excused :
    (c : ℕ) (l : Lock) (v : View)
    → excused none l v ≡ true
    → excused (some c) (record l { privileged = keep (λ p. not (p == c)) l.privileged }) v ≡ true
unfolding excused lock_view_is_privileged lock_client_is_privileged
still_excused c l v e = elim (Option-cases (surface_client v.surface)) [
  | inl out ↦ ground (arith, out)
  | inr (x, is_x) ↦ ground (arith, is_x, any-keep_ne c x l.privileged)
]

still_excused_add :
    (g : Option ℕ) (c : ℕ) (l : Lock) (v : View)
    → excused g l v ≡ true
    → excused g (record l { privileged = c ∷ l.privileged }) v ≡ true
unfolding excused lock_view_is_privileged lock_client_is_privileged
still_excused_add g c l v e = elim (Option-cases (surface_client v.surface)) [
  | inl out ↦ ground (arith, out)
  | inr (x, is_x) ↦ ground (arith, is_x)
]

privileged-Told :
    (s : Server) (ps : List ℕ)
    → Told s
    → Told (record s { lock = record (s.lock) { privileged = ps } })
unfolding session_locked
privileged-Told s ps k = record { locked = k.locked; remote = k.remote; shadow = k.shadow }

-- A client that goes is privileged no more; until its views go too they are excused.
pub privileged_destroy-IsSound :
    (c : ℕ) (s : Server) → IsSound none s → IsSound (some c) (privileged_destroy c s)
unfolding privileged_destroy
privileged_destroy-IsSound c s k = record {
  isolated = privileged-IsIsolated s _ (still_excused c s.lock) k.isolated;
  told = privileged-Told s _ k.told;
}

add_privileged-IsSound :
    {g : Option ℕ} (c : ℕ) (s : Server) → IsSound g s → IsSound g (add_privileged c s)
add_privileged-IsSound {g} c s k = record {
  isolated = privileged-IsIsolated s _ (still_excused_add g c s.lock) k.isolated;
  told = privileged-Told s _ k.told;
}

abbrev pub SoundClient : Option ℕ → Server × Option ℕ → Type 0
SoundClient g r = IsSound g (r.0)

pub create_privileged-IsSound :
    {g : Option ℕ} (h : Host) (fd : ℕ) (s : Server)
    → IsSound g s
    → SoundClient g (create_privileged h fd s)
unfolding create_privileged
create_privileged-IsSound {g} h fd s k = elim (Option-cases (h.client_create fd)) [
  | inl none_made ↦ rw (none_made, create_privileged) (log_effect-IsSound (closed fd) s k)
  | inr (c, made) ↦
      rw (made, create_privileged)
        (if_cases (SoundClient g) (not h.calloc_ok)
          (λ _. log_effect-IsSound (destroyed_client c) s k) (λ _. add_privileged-IsSound c s k))
]

pub handle_lock_connection-IsSound :
    {g : Option ℕ} (h : Host) (fd : ℕ) (peer : Option ℕ) (s : Server)
    → IsSound g s
    → IsSound g (handle_lock_connection h fd peer s)
unfolding handle_lock_connection
handle_lock_connection-IsSound {g} h fd none s k = log_effect-IsSound (closed fd) s k
handle_lock_connection-IsSound {g} h fd (some u) s k =
    if_cases (IsSound g) (not (uid_may_unlock s.lock u)) (λ _. log_effect-IsSound (closed fd) s k)
      (λ _. create_privileged-IsSound h fd s k)

pub handle_shadow_client_destroy-IsSound :
    {g : Option ℕ} (h : Host) (s : Server)
    → IsSound g s
    → IsSound g (handle_shadow_client_destroy h s)
unfolding handle_shadow_client_destroy
handle_shadow_client_destroy-IsSound {g} h s k =
    lock_session_update-IsSound h _ (IsIsolated-screen s _ refl k.isolated)

start_shadow-IsSound :
    {g : Option ℕ} (h : Host) (control : Bool) (r : Server × Option ℕ)
    → SoundClient g r
    → SoundResult g (start_shadow h control r)
unfolding start_shadow
start_shadow-IsSound {g} h control (s, none) k = k
start_shadow-IsSound {g} h control (s, some c) k =
    lock_session_update-IsSound h _ (IsIsolated-screen s _ refl k.isolated)

pub shadow_attach-IsSound :
    {g : Option ℕ} (h : Host) (fd : ℕ) (control : Bool) (s : Server)
    → IsSound g s
    → SoundResult g (shadow_attach h fd control s)
unfolding shadow_attach
shadow_attach-IsSound {g} h fd control s k =
    if_cases (SoundResult g) (is_some s.shadow_client || is_some s.remote_client || s.remote)
      (λ _. log_effect-IsSound (closed fd) s k)
      (λ _. start_shadow-IsSound h control _ (create_privileged-IsSound h fd s k))
