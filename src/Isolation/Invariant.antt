-- ===== src/Isolation/Invariant.antt =====
-- The invariant of the isolation: who has the focus, what is shown, why the screen is isolated, and
-- what the session's programs were told.
use mathlib.Core.Path.{subst, subst₂, fun_ext}
use sg_compositor.Prelude.{
  Bool, List, Option, none, some, ◌||◌, true, false, arith, ◌≡◌, refl, ap, sym, ◌∙◌, ℕ,
}
use sg_compositor.World.{View, Lock, Server, Host, WatchEvent, Effect, same_id, log_effect}
use sg_compositor.Lock.Access.{surface_client, lock_view_is_privileged, lock_view_allowed}
use sg_compositor.Lock.Watchers.{lock_session_update, notify_watchers}
use sg_compositor.Seat.Focus.{seat_set_focus}
use sg_compositor.Seat.Pointer.{process_cursor_motion}
use sg_compositor.Isolation.Views.{AllCovered}
use sg_compositor.Isolation.Focus.{
  beside_focus, Confined, Admits, Moves, process_cursor_motion-Moves,
  process_cursor_motion-Confined, seat_set_focus-beside, seat_set_focus-Confined,
  seat_set_focus-All,
}
use sg_compositor.Isolation.Told.{
  beside_watchers, lock_session_update-beside, lock_session_update-Told, notify_watchers-beside,
  Told, notify_watchers-Told,
}

-- A view of the client `g`, if there is one.
of_client : Option ℕ → View → Bool
of_client none v = false
of_client (some c) v = same_id (surface_client v.surface) (some c)

-- Privileged, or of a client that has just gone and whose views are about to go with it.
unfoldable pub excused : Option ℕ → Lock → View → Bool
unfolding of_client
excused g l v = lock_view_is_privileged l v || of_client g v

-- While locked only privileged views have the pointer, and the keyboard unless a grab kept it; under
-- a lock or the security screen only they are shown; a secure prompt dims the others; there is one
-- reason at most.
pub record IsIsolated (g : Option ℕ) (s : Server) : Type 0 where
  pub confined : s.lock.locked ≡ true → Confined (excused g s.lock) s
  pub hidden : s.lock.locked ≡ true → s.lock.secure ≡ false → AllCovered (excused g s.lock) s.views
  pub dimmed : s.dim_rect ≡ true → s.dimmed ≡ s.lock.secure
  pub secure_locked : s.lock.secure ≡ true → s.lock.locked ≡ true
  pub sas_locked : s.lock.sas ≡ true → s.lock.locked ≡ true
  pub one_reason : s.lock.secure ≡ true → s.lock.sas ≡ false

-- The invariant between two events.
pub record IsSound (g : Option ℕ) (s : Server) : Type 0 where
  pub isolated : IsIsolated g s
  pub told : Told s

-- A view's privilege is read from the list of the privileged clients only.
pub excused_of_list :
    (g : Option ℕ) (l m : Lock) → l.privileged ≡ m.privileged → excused g l ≡ excused g m
unfolding excused lock_view_is_privileged
excused_of_list g l m e = fun_ext λ v. ground (arith, e)

pub locked_Admits : (g : Option ℕ) (l : Lock) → l.locked ≡ true → Admits (excused g l) l
unfolding excused lock_view_allowed
locked_Admits g l e v a = ground arith

Confined-eq :
    (ok more : View → Bool) (s t : Server)
    → more ≡ ok
    → t.views ≡ s.views
    → t.keyboard_focus ≡ s.keyboard_focus
    → t.keyboard_kept ≡ s.keyboard_kept
    → t.pointer_focus ≡ s.pointer_focus
    → Confined ok s
    → Confined more t
Confined-eq ok more s t e vs k n p c = ground arith

-- What the isolation is about.
pub record Screen : Type 0 where
  locked : Bool
  secure : Bool
  sas : Bool
  privileged : List ℕ
  views : List View
  keyboard_focus : Option ℕ
  keyboard_kept : Bool
  pointer_focus : Option ℕ
  dim_rect : Bool
  dimmed : Bool

abbrev pub screen : Server → Screen
screen s = record {
  locked = s.lock.locked;
  secure = s.lock.secure;
  sas = s.lock.sas;
  privileged = s.lock.privileged;
  views = s.views;
  keyboard_focus = s.keyboard_focus;
  keyboard_kept = s.keyboard_kept;
  pointer_focus = s.pointer_focus;
  dim_rect = s.dim_rect;
  dimmed = s.dimmed;
}

-- The invariant reads nothing else.
pub IsIsolated-screen :
    {g : Option ℕ} (s t : Server) → screen t ≡ screen s → IsIsolated g s → IsIsolated g t
IsIsolated-screen {g} s t e i = record {
  confined = λ l.
      Confined-eq (excused g s.lock) (excused g t.lock) s t same views
        (ap (λ r. r.keyboard_focus) e) (ap (λ r. r.keyboard_kept) e) (ap (λ r. r.pointer_focus) e)
        (i.confined (sym locked ∙ l));
  hidden =
      λ l n. subst₂ AllCovered (sym same) (sym views) (i.hidden (sym locked ∙ l) (sym secure ∙ n));
  dimmed = ground (arith, i.dimmed, ap (λ r. r.dim_rect) e, ap (λ r. r.dimmed) e, secure);
  secure_locked = ground (arith, i.secure_locked, locked, secure);
  sas_locked = ground (arith, i.sas_locked, locked, sas);
  one_reason = ground (arith, i.one_reason, sas, secure);
}
  where
    locked : t.lock.locked ≡ s.lock.locked
    locked = ap (λ r. r.locked) e

    secure : t.lock.secure ≡ s.lock.secure
    secure = ap (λ r. r.secure) e

    sas : t.lock.sas ≡ s.lock.sas
    sas = ap (λ r. r.sas) e

    views : t.views ≡ s.views
    views = ap (λ r. r.views) e

    same : excused g t.lock ≡ excused g s.lock
    same = excused_of_list g t.lock s.lock (ap (λ r. r.privileged) e)

pub IsIsolated-beside_watchers :
    {g : Option ℕ} (s t : Server)
    → beside_watchers t ≡ beside_watchers s
    → IsIsolated g s
    → IsIsolated g t
IsIsolated-beside_watchers {g} s t e i = IsIsolated-screen s t (ap screen e) i

pub lock_session_update-IsSound :
    {g : Option ℕ} (h : Host) (s : Server) → IsIsolated g s → IsSound g (lock_session_update h s)
lock_session_update-IsSound {g} h s i = record {
  isolated = IsIsolated-beside_watchers s _ (lock_session_update-beside h s) i;
  told = lock_session_update-Told h s;
}

pub notify_watchers-IsSound :
    {g : Option ℕ} (h : Host) (e : WatchEvent) (s : Server)
    → IsIsolated g s
    → IsSound g (notify_watchers h e s)
notify_watchers-IsSound {g} h e s i = record {
  isolated = IsIsolated-beside_watchers s _ (notify_watchers-beside h e s) i;
  told = notify_watchers-Told h e s;
}

pub Told-beside_focus : (s t : Server) → beside_focus t ≡ beside_focus s → Told s → Told t
Told-beside_focus s t e k =
    ground (arith, k, ap (λ r. r.lock) e, ap (λ r. r.remote) e, ap (λ r. r.shadow_client) e)

pub IsIsolated-beside_focus :
    {g : Option ℕ} (s t : Server)
    → beside_focus t ≡ beside_focus s
    → (s.lock.locked ≡ true → Confined (excused g s.lock) t)
    → (s.lock.locked ≡ true → s.lock.secure ≡ false → AllCovered (excused g s.lock) t.views)
    → IsIsolated g s
    → IsIsolated g t
IsIsolated-beside_focus {g} s t e c a i = record {
  confined =
      λ l. subst (λ k. Confined (excused g k) t) (sym lock) (c (ap (λ k. k.locked) (sym lock) ∙ l));
  hidden = λ l n.
      subst (λ k. AllCovered (excused g k) t.views) (sym lock)
        (a (ap (λ k. k.locked) (sym lock) ∙ l) (ap (λ k. k.secure) (sym lock) ∙ n));
  dimmed = ground (arith, i.dimmed, lock, ap (λ r. r.dim_rect) e, ap (λ r. r.dimmed) e);
  secure_locked = ground (arith, i.secure_locked, lock);
  sas_locked = ground (arith, i.sas_locked, lock);
  one_reason = ground (arith, i.one_reason, lock);
}
  where
    lock : t.lock ≡ s.lock
    lock = ap (λ r. r.lock) e

-- Moving the keyboard's focus keeps the invariant.
pub seat_set_focus-IsIsolated :
    {g : Option ℕ} (h : Host) (n : ℕ) (s : Server)
    → IsIsolated g s
    → IsIsolated g (seat_set_focus h n s)
seat_set_focus-IsIsolated {g} h n s i =
    IsIsolated-beside_focus s _ (seat_set_focus-beside h n s)
      (λ l. seat_set_focus-Confined _ h n s (locked_Admits g s.lock l) (i.confined l))
      (λ l c. seat_set_focus-All _ h n s (i.hidden l c)) i

pub seat_set_focus-IsSound :
    {g : Option ℕ} (h : Host) (n : ℕ) (s : Server) → IsSound g s → IsSound g (seat_set_focus h n s)
seat_set_focus-IsSound {g} h n s k = record {
  isolated = seat_set_focus-IsIsolated h n s k.isolated;
  told = Told-beside_focus s _ (seat_set_focus-beside h n s) k.told;
}

-- So does the pointer's motion.
pub process_cursor_motion-IsSound :
    {g : Option ℕ} (h : Host) (s : Server) → IsSound g s → IsSound g (process_cursor_motion h s)
process_cursor_motion-IsSound {g} h s k = record {
  isolated =
      IsIsolated-beside_focus s _ m.beside
        (λ l.
          process_cursor_motion-Confined _ h s (locked_Admits g s.lock l) (k.isolated.confined l))
        (λ l c. subst (AllCovered _) (sym m.views) (k.isolated.hidden l c)) k.isolated;
  told = Told-beside_focus s _ m.beside k.told;
}
  where
    m : Moves s (process_cursor_motion h s)
    m = process_cursor_motion-Moves h s

pub log_effect-IsSound :
    {g : Option ℕ} (e : Effect) (s : Server) → IsSound g s → IsSound g (log_effect e s)
log_effect-IsSound {g} e s k = record {
  isolated = IsIsolated-beside_watchers s _ refl k.isolated;
  told = record { locked = k.told.locked; remote = k.told.remote; shadow = k.told.shadow };
}
