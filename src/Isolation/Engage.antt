-- ===== src/Isolation/Engage.antt =====
-- The isolation and lock_engage, lock_secure_engage and lock_sas_engage (lock.c).
use mathlib.Core.Path.{subst}
use sg_compositor.Prelude.{
  ℕ, ◌&&◌, Bool, true, false, List, [], ◌∷◌, map, Option, none, some, arith, ◌≡◌, refl, sym, ◌∙◌,
  ap, is_empty, if_cases, if◌then◌else◌,
}
use sg_compositor.World.{View, Lock, Server, Host, WatchEvent, sas_event, view_set_visible}
use sg_compositor.Lock.Access.{lock_view_is_privileged}
use sg_compositor.Lock.Watchers.{notify_watchers}
use sg_compositor.Lock.Engage.{
  hide_one, hide_unprivileged, focus_first, conceal, isolate, lock_engage, lock_secure_engage,
  lock_sas_engage,
}
use sg_compositor.Isolation.Views.{focus_in-map, is_shown, AllCovered}
use sg_compositor.Isolation.Focus.{Confined}
use sg_compositor.Isolation.Told.{
  beside_watchers, notify_watchers-beside, Told, notify_watchers-Told,
}
use sg_compositor.Isolation.Invariant.{
  excused, IsIsolated, IsSound, notify_watchers-IsSound, seat_set_focus-IsSound,
}

pub focus_first-IsSound :
    {g : Option ℕ} (h : Host) (v : Option View) (s : Server)
    → IsSound g s
    → IsSound g (focus_first h v s)
focus_first-IsSound {g} h none s k = k
focus_first-IsSound {g} h (some v) s k = seat_set_focus-IsSound h v.id s k

-- Made visible, it is shown only if asked.
shown_asked : (b : Bool) (v : View) → is_shown (view_set_visible b v) ≡ true → b ≡ true
unfolding view_set_visible
shown_asked b v e = ground arith

excused-set_visible :
    (g : Option ℕ) (l : Lock) (b : Bool) (v : View)
    → excused g l (view_set_visible b v) ≡ excused g l v
unfolding excused lock_view_is_privileged view_set_visible
excused-set_visible g l b v = ground arith

privileged-excused :
    (g : Option ℕ) (l : Lock) (v : View) → lock_view_is_privileged l v ≡ true → excused g l v ≡ true
unfolding excused
privileged-excused g l v e = ground arith

abbrev show_one : Lock → View → View
show_one l v = view_set_visible (lock_view_is_privileged l v) v

-- A view that was made visible exactly when it is privileged.
AllCovered-show :
    (g : Option ℕ) (l : Lock) (vs : List View) → AllCovered (excused g l) (map (show_one l) vs)
AllCovered-show g l [] = tt
AllCovered-show g l (v ∷ vs) = (
  (λ shown. ground (
    arith,
    excused-set_visible g l (lock_view_is_privileged l v) v,
    shown_asked (lock_view_is_privileged l v) v shown,
    privileged-excused g l v,
  )),
  AllCovered-show g l vs,
)

conceal-IsSound :
    {g : Option ℕ} (h : Host) (s : Server)
    → s.lock.locked ≡ true
    → (s.lock.secure ≡ true → s.lock.sas ≡ false)
    → Told s
    → IsSound g (conceal h s)
unfolding conceal
conceal-IsSound {g} h s l one k = record {
  isolated = record {
    confined = λ _. record { keyboard = λ n. ground (arith, n); pointer = refl };
    hidden = λ _ n.
        subst
          (λ b.
            AllCovered (excused g s.lock) (if b then s.views else map (show_one s.lock) s.views))
          (sym n) (AllCovered-show g s.lock s.views);
    dimmed = λ d. ground arith;
    secure_locked = λ _. l;
    sas_locked = λ _. l;
    one_reason = one;
  };
  told = record { locked = k.locked; remote = k.remote; shadow = k.shadow };
}

isolate-IsSound :
    {g : Option ℕ} (h : Host) (e : WatchEvent) (s : Server)
    → (s.lock.secure ≡ true → s.lock.sas ≡ false)
    → IsSound g (isolate h e s)
unfolding isolate
isolate-IsSound {g} h e s one = focus_first-IsSound h _ _ (
    conceal-IsSound h _ (ap (λ r. r.lock.locked) frame)
      (ground (arith, one, ap (λ r. r.lock.secure) frame, ap (λ r. r.lock.sas) frame))
      (notify_watchers-Told h e t))
  where
    t : Server
    t = record s { lock = record (s.lock) { locked = true } }

    frame : beside_watchers (notify_watchers h e t) ≡ beside_watchers t
    frame = notify_watchers-beside h e t

AllCovered-hide :
    (g : Option ℕ) (l : Lock) (vs : List View) → AllCovered (excused g l) (map (hide_one l) vs)
AllCovered-hide g l [] = tt
AllCovered-hide g l (v ∷ vs) = (
  (λ shown. ground (arith, shown_asked false v, privileged-excused g l v)),
  AllCovered-hide g l vs,
)

hide_one-id : (l : Lock) (v : View) → (hide_one l v).id ≡ v.id
unfolding view_set_visible
hide_one-id l v = ground arith

excused-hide_one : (g : Option ℕ) (l : Lock) (v : View) → excused g l (hide_one l v) ≡ excused g l v
excused-hide_one g l v = ground (arith, excused-set_visible g l false v)

-- Hiding the windows that are not privileged, when a prompt becomes a lock.
hide_unprivileged-IsIsolated :
    {g : Option ℕ} (s : Server)
    → s.lock.locked ≡ true
    → s.lock.secure ≡ false
    → Confined (excused g s.lock) s
    → IsIsolated g (hide_unprivileged s)
unfolding hide_unprivileged
hide_unprivileged-IsIsolated {g} s l n c = record {
  confined = λ _. record {
    keyboard = λ n.
        focus_in-map _ _ s.keyboard_focus s.views (hide_one-id s.lock) (excused-hide_one g s.lock)
        ∙ c.keyboard n;
    pointer =
        focus_in-map _ _ s.pointer_focus s.views (hide_one-id s.lock) (excused-hide_one g s.lock)
        ∙ c.pointer;
  };
  hidden = λ _ _. AllCovered-hide g s.lock s.views;
  dimmed = λ d. ground arith;
  secure_locked = λ _. l;
  sas_locked = λ _. l;
  one_reason = λ e. cc;
}

-- The security screen becomes a lock.
sas_to_lock-IsIsolated :
    {g : Option ℕ} (s : Server)
    → IsIsolated g s
    → IsIsolated g (record s { lock = record (s.lock) { sas = false } })
unfolding excused lock_view_is_privileged
sas_to_lock-IsIsolated {g} s i = record {
  confined = λ l. record { keyboard = (i.confined l).keyboard; pointer = (i.confined l).pointer };
  hidden = i.hidden;
  dimmed = i.dimmed;
  secure_locked = i.secure_locked;
  sas_locked = λ e. cc;
  one_reason = λ _. refl;
}

-- A secure prompt becomes a lock.
secure_to_lock-IsIsolated :
    {g : Option ℕ} (s : Server)
    → s.lock.locked ≡ true
    → IsIsolated g s
    → IsIsolated g (hide_unprivileged (record s { lock = record (s.lock) { secure = false } }))
unfolding excused lock_view_is_privileged
secure_to_lock-IsIsolated {g} s l i =
    hide_unprivileged-IsIsolated (record s { lock = record (s.lock) { secure = false } }) l refl
      (record { keyboard = (i.confined l).keyboard; pointer = (i.confined l).pointer })

pub lock_engage-IsSound :
    {g : Option ℕ} (h : Host) (s : Server) → IsSound g s → IsSound g (lock_engage h s)
unfolding lock_engage
lock_engage-IsSound {g} h s k =
    if_cases (IsSound g) (s.lock.locked && s.lock.sas)
      (λ over_sas. notify_watchers-IsSound h _ _ (sas_to_lock-IsIsolated s k.isolated))
      λ _.
        if_cases (IsSound g) (s.lock.locked && s.lock.secure)
          (λ prompt.
            notify_watchers-IsSound h _ _ (secure_to_lock-IsIsolated s (ground arith) k.isolated))
          λ _.
            if_cases (IsSound g) s.lock.locked (λ _. k)
              (λ _. isolate-IsSound h _ s k.isolated.one_reason)

abbrev pub SoundResult : Option ℕ → Server × Bool → Type 0
SoundResult g r = IsSound g (r.0)

-- SECURE, from the unlocked state only.
pub lock_secure_engage-IsSound :
    {g : Option ℕ} (h : Host) (s : Server) → IsSound g s → IsSound g (lock_secure_engage h s).0
unfolding lock_secure_engage
lock_secure_engage-IsSound {g} h s k =
    if_cases (SoundResult g) s.lock.locked (λ _. k)
      (λ unlocked. isolate-IsSound h _ _ (λ _. ground (arith, k.isolated.sas_locked)))

-- Ctrl+Alt+Del.
pub lock_sas_engage-IsSound :
    {g : Option ℕ} (h : Host) (s : Server) → IsSound g s → IsSound g (lock_sas_engage h s).0
unfolding lock_sas_engage
lock_sas_engage-IsSound {g} h s k =
    if_cases (SoundResult g) s.lock.locked (λ _. k)
      λ unlocked.
        if_cases (SoundResult g) (is_empty s.lock.watchers) (λ alone. lock_engage-IsSound h s k)
          (λ watched.
            isolate-IsSound h sas_event (record s { lock = record (s.lock) { sas = true } })
              (λ secure. absurd (ground (arith, k.isolated.secure_locked))))
