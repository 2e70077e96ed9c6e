-- ===== src/Authority/Lock.antt =====
-- A locked screen and lock_engage, lock_sas_engage (lock.c) and the outputs (output.c).
use sg_compositor.Prelude.{
  ℕ, Bool, false, not, ◌&&◌, ◌||◌, arith, ◌≡◌, refl, is_empty, any, keep, if_cases,
}
use sg_compositor.World.{Output, Server, Host}
use sg_compositor.Lock.Watchers.{session_locked}
use sg_compositor.Lock.Engage.{hide_unprivileged, lock_engage, lock_sas_engage}
use sg_compositor.Outputs.{output_destroy, handle_new_output}
use sg_compositor.Authority.Barred.{Bar, IsBarred, notify_watchers-IsBarred}

abbrev pub BarredResult : Bar → Server × Bool → Type 0
BarredResult r p = IsBarred r (p.0)

sas_to_lock-IsBarred :
    {r : Bar} (s : Server)
    → IsBarred r s
    → IsBarred r (record s { lock = record (s.lock) { sas = false } })
unfolding session_locked
sas_to_lock-IsBarred {r} s b = record {
  locked = b.locked;
  session = λ e. ground (arith, b.session e);
  invited = b.invited;
}

secure_to_lock-IsBarred :
    {r : Bar} (s : Server)
    → IsBarred r s
    → IsBarred r (hide_unprivileged (record s { lock = record (s.lock) { secure = false } }))
unfolding session_locked hide_unprivileged
secure_to_lock-IsBarred {r} s b = record {
  locked = b.locked;
  session = λ e. ground (arith, b.session e);
  invited = b.invited;
}

-- Locking what is locked.
pub lock_engage-IsBarred :
    {r : Bar} (h : Host) (s : Server) → IsBarred r s → IsBarred r (lock_engage h s)
unfolding lock_engage
lock_engage-IsBarred {r} h s b =
    if_cases (IsBarred r) (s.lock.locked && s.lock.sas)
      (λ _. notify_watchers-IsBarred h _ _ (sas_to_lock-IsBarred s b))
      λ _.
        if_cases (IsBarred r) (s.lock.locked && s.lock.secure)
          (λ _. notify_watchers-IsBarred h _ _ (secure_to_lock-IsBarred s b))
          λ _.
            if_cases (IsBarred r) s.lock.locked (λ _. b)
              (λ unlocked. absurd (ground (arith, b.locked)))

pub lock_sas_engage-IsBarred :
    {r : Bar} (h : Host) (s : Server) → IsBarred r s → BarredResult r (lock_sas_engage h s)
unfolding lock_sas_engage
lock_sas_engage-IsBarred {r} h s b =
    if_cases (BarredResult r) s.lock.locked (λ _. b) (λ unlocked. absurd (ground (arith, b.locked)))

pub handle_new_output-lock :
    (h : Host) (o : Output) (s : Server) → (handle_new_output h o s).lock ≡ s.lock
unfolding handle_new_output
handle_new_output-lock h o s =
    if_cases {A = Server} (λ t. t.lock ≡ s.lock) (not (h.init_render_ok o.id) || not h.calloc_ok)
      (λ _. refl)
      λ _.
        if_cases {A = Server} (λ t. t.lock ≡ s.lock) (not (h.scene_output_ok o.id)) (λ _. refl)
          (λ _. refl)

pub output_destroy-lock : (h : Host) (i : ℕ) (s : Server) → (output_destroy h i s).lock ≡ s.lock
unfolding output_destroy
output_destroy-lock h i s =
    if_cases {A = Server} (λ t. t.lock ≡ s.lock) (is_empty (keep _ s.outputs) && any _ s.outputs)
      (λ _. refl)
      λ _.
        if_cases {A = Server} (λ t. t.lock ≡ s.lock)
          (s.output_mode_last && not (is_empty (keep _ s.outputs))) (λ _. refl) (λ _. refl)
