-- ===== src/Isolation/Release.antt =====
-- The isolation and lock_release, lock_secure_release and lock_sas_action (lock.c).
use sg_compositor.Prelude.{ℕ, ◌||◌, true, false, not, Option, arith, ◌≡◌, sym, ◌∙◌, ap, if_cases}
use sg_compositor.World.{
  Server, Host, WatchEvent, unlocked_event, released_event, SasAction, cancel,
}
use sg_compositor.Lock.Engage.{
  end_isolation, reveal, unisolate, lock_release, lock_sas_action, run_sas_helper, known_action,
  lock_secure_release,
}
use sg_compositor.Isolation.Told.{
  beside_watchers, notify_watchers-beside, Told, notify_watchers-Told,
}
use sg_compositor.Isolation.Invariant.{IsIsolated, IsSound, log_effect-IsSound}
use sg_compositor.Isolation.Engage.{focus_first-IsSound, SoundResult}

-- The screen is nobody's alone.
pub record IsOpen (s : Server) : Type 0 where
  pub locked : s.lock.locked ≡ false
  pub secure : s.lock.secure ≡ false
  pub sas : s.lock.sas ≡ false
  pub dimmed : s.dim_rect ≡ true → s.dimmed ≡ false

IsOpen-IsIsolated : {g : Option ℕ} (s : Server) → IsOpen s → IsIsolated g s
IsOpen-IsIsolated {g} s o = record {
  confined = λ l. absurd (contra l);
  hidden = λ l _. absurd (contra l);
  dimmed = λ d. o.dimmed d ∙ sym o.secure;
  secure_locked = ground (arith, o.secure);
  sas_locked = ground (arith, o.sas);
  one_reason = λ _. o.sas;
}
  where
    contra : ¬ (s.lock.locked ≡ true)
    contra l = ground (arith, o.locked)

IsOpen-beside_watchers :
    (s t : Server) → beside_watchers t ≡ beside_watchers s → IsOpen s → IsOpen t
IsOpen-beside_watchers s t e o = ground (
  arith,
  ap (λ r. r.lock.locked) e,
  ap (λ r. r.lock.secure) e,
  ap (λ r. r.lock.sas) e,
  ap (λ r. r.dim_rect) e,
  ap (λ r. r.dimmed) e,
)

end_isolation-IsOpen : (s : Server) → IsOpen (end_isolation s)
unfolding end_isolation
end_isolation-IsOpen s = ground arith

reveal-IsSound : {g : Option ℕ} (h : Host) (s : Server) → IsOpen s → Told s → IsSound g (reveal h s)
unfolding reveal
reveal-IsSound {g} h s o k = record {
  isolated =
      IsOpen-IsIsolated _
        (record { locked = o.locked; secure = o.secure; sas = o.sas; dimmed = o.dimmed });
  told = record { locked = k.locked; remote = k.remote; shadow = k.shadow };
}

-- Whatever the state was.
pub unisolate-IsSound :
    {g : Option ℕ} (h : Host) (e : WatchEvent) (s : Server) → IsSound g (unisolate h e s)
unfolding unisolate
unisolate-IsSound {g} h e s = focus_first-IsSound h _ _ (
    reveal-IsSound h _
      (IsOpen-beside_watchers (end_isolation s) _ (notify_watchers-beside h e _)
        (end_isolation-IsOpen s))
      (notify_watchers-Told h e _))

pub lock_release-IsSound :
    {g : Option ℕ} (h : Host) (s : Server) → IsSound g s → IsSound g (lock_release h s)
unfolding lock_release
lock_release-IsSound {g} h s k =
    if_cases (IsSound g) (not s.lock.locked) (λ _. k) (λ _. unisolate-IsSound h unlocked_event s)

-- Whatever was told.
pub lock_release-IsIsolated :
    {g : Option ℕ} (h : Host) (s : Server) → IsIsolated g s → IsIsolated g (lock_release h s)
unfolding lock_release
lock_release-IsIsolated {g} h s i =
    if_cases (IsIsolated g) (not s.lock.locked) (λ _. i)
      (λ _. (unisolate-IsSound h unlocked_event s).isolated)

pub lock_secure_release-IsSound :
    {g : Option ℕ} (h : Host) (s : Server) → IsSound g s → IsSound g (lock_secure_release h s)
unfolding lock_secure_release
lock_secure_release-IsSound {g} h s k =
    if_cases (IsSound g) (not s.lock.locked || not s.lock.secure) (λ _. k)
      (λ _. unisolate-IsSound h released_event s)

run_sas_helper-IsSound :
    {g : Option ℕ} (a : SasAction) (s : Server) → IsSound g s → IsSound g (run_sas_helper a s)
run_sas_helper-IsSound {g} cancel s k = k
run_sas_helper-IsSound {g} _ s k = log_effect-IsSound _ s k

pub lock_sas_action-IsSound :
    {g : Option ℕ} (h : Host) (a : SasAction) (s : Server)
    → IsSound g s
    → IsSound g (lock_sas_action h a s).0
unfolding lock_sas_action
lock_sas_action-IsSound {g} h a s k =
    if_cases (SoundResult g) (not s.lock.locked || not s.lock.sas) (λ _. k)
      λ _.
        if_cases (SoundResult g) (not (known_action a)) (λ _. k)
          (λ _. run_sas_helper-IsSound a _ (unisolate-IsSound h unlocked_event s))
