-- ===== src/System/Consequences.antt =====
-- The isolation as a statement on the windows that have the focus or are shown (lock.c, seat.c).
use sg_compositor.Prelude.{
  ℕ, true, false, List, Option, none, some, arith, ◌≡◌, All-find, ◌==◌, Option-cases, inl, inr,
}
use sg_compositor.World.{View, Lock, Server, find_view}
use sg_compositor.Lock.Access.{lock_view_is_privileged}
use sg_compositor.Keys.Events.{seat_get_focus}
use sg_compositor.Isolation.Views.{focus_in, is_shown, Covers}
use sg_compositor.Isolation.Invariant.{excused}
use sg_compositor.System.Events.{Reachable}
use sg_compositor.System.Soundness.{Reachable-IsSound}

excused-none : (l : Lock) (v : View) → excused none l v ≡ true → lock_view_is_privileged l v ≡ true
unfolding excused
excused-none l v e = ground (arith, e)

focus_in_found :
    (l : Lock) (f : Option ℕ) (vs : List View) (i : ℕ) (v : View)
    → f ≡ some i
    → find_view i vs ≡ some v
    → focus_in (excused none l) vs f ≡ true
    → lock_view_is_privileged l v ≡ true
focus_in_found l f vs i v e found ok = ground (arith, excused-none l v)

-- In a state that can be reached and is locked, where no grab of the seat's keyboard ignored the
-- last call that clears its focus, a window that has the keyboard's focus is privileged; whatever
-- grabs there were before that call, and whichever there are after it.
pub seat_get_focus-privileged :
    (s : Server) (v : View)
    → Reachable s
    → s.lock.locked ≡ true
    → s.keyboard_kept ≡ false
    → seat_get_focus s ≡ some v
    → lock_view_is_privileged s.lock v ≡ true
unfolding seat_get_focus
seat_get_focus-privileged s v r l n e = elim (Option-cases (s.keyboard_focus)) [
  | inl nobody ↦ ground (arith, nobody)
  | inr (i, focus) ↦
      focus_in_found s.lock s.keyboard_focus s.views i v focus (ground (arith, focus, e))
        (((Reachable-IsSound s r).isolated.confined l).keyboard n)
]

-- In a state that can be reached and is locked, a window that has the pointer's focus is
-- privileged.
pub pointer_focus-privileged :
    (s : Server) (i : ℕ) (v : View)
    → Reachable s
    → s.lock.locked ≡ true
    → s.pointer_focus ≡ some i
    → find_view i s.views ≡ some v
    → lock_view_is_privileged s.lock v ≡ true
pointer_focus-privileged s i v r l e found =
    focus_in_found s.lock s.pointer_focus s.views i v e found
      ((Reachable-IsSound s r).isolated.confined l).pointer

-- In a state that can be reached and is locked with no secure prompt, a window of the list that
-- is shown is privileged.
pub shown-privileged :
    (s : Server) (i : ℕ) (v : View)
    → Reachable s
    → s.lock.locked ≡ true
    → s.lock.secure ≡ false
    → find_view i s.views ≡ some v
    → is_shown v ≡ true
    → lock_view_is_privileged s.lock v ≡ true
shown-privileged s i v r l n found shown = excused-none s.lock v (
    All-find (Covers (excused none s.lock)) (λ w. w.id == i) s.views v
      ((Reachable-IsSound s r).isolated.hidden l n) found shown)
