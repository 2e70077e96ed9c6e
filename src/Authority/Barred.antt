-- ===== src/Authority/Barred.antt =====
-- A locked screen and the handlers of windows and the pointer (view.c, seat.c, elevated.c,
-- session_x11.c, wayland_app.c).
use mathlib.Core.Path.{subst}
use sg_compositor.Prelude.{
  List, All, All-keep, any, keep, ◌==◌, sym, ◌∙◌, ℕ, Bool, true, false, not, ◌||◌, Option, none,
  some, arith, ◌≡◌, refl, ap, if_cases,
}
use sg_compositor.World.{View, Surface, Server, Host, WatchEvent, same_id}
use sg_compositor.Lock.Watchers.{session_locked, notify_watchers, lock_session_update}
use sg_compositor.Lock.Engage.{focus_first}
use sg_compositor.Seat.Pointer.{process_cursor_motion}
use sg_compositor.Seat.Focus.{seat_set_focus}
use sg_compositor.Windows.Map.{unmanaged, view_map, refocus, view_unmap, view_destroy}
use sg_compositor.Windows.Minimize.{
  elevated_focus_session, hide_minimized, minimize_view, view_minimize, x11_minimize,
  wayland_app_minimize, view_restore, activate_view,
}
use sg_compositor.Isolation.Focus.{beside_focus, process_cursor_motion-Moves, seat_set_focus-beside}
use sg_compositor.Isolation.Told.{
  beside_watchers, notify_watchers-beside, lock_session_update-beside,
}
use sg_compositor.Isolation.Unmap.{view_unmap-beside}

-- What is asked of a locked screen: that a lock and not a prompt or the security screen locks it, and
-- that no client is privileged but some of these.
pub record Bar : Type 0 where
  pub real : Bool
  pub guests : Option (List ℕ)

abbrev pub Invited : Option (List ℕ) → List ℕ → Type 0
Invited none cs = Unit {0}
Invited (some ps) cs = All (λ c. any (λ p. p == c) ps ≡ true) cs

pub record IsBarred (r : Bar) (s : Server) : Type 0 where
  pub locked : s.lock.locked ≡ true
  pub session : r.real ≡ true → session_locked s.lock ≡ true
  pub invited : Invited r.guests s.lock.privileged

flags-session :
    (s t : Server)
    → t.lock.locked ≡ s.lock.locked
    → t.lock.secure ≡ s.lock.secure
    → t.lock.sas ≡ s.lock.sas
    → session_locked t.lock ≡ session_locked s.lock
unfolding session_locked
flags-session s t l c a = ground arith

-- Only the three flags and the privileged clients count.
pub IsBarred-same :
    {r : Bar} (s t : Server)
    → t.lock.locked ≡ s.lock.locked
    → t.lock.secure ≡ s.lock.secure
    → t.lock.sas ≡ s.lock.sas
    → t.lock.privileged ≡ s.lock.privileged
    → IsBarred r s
    → IsBarred r t
IsBarred-same {r} s t l c a p b = record {
  locked = l ∙ b.locked;
  session = λ e. flags-session s t l c a ∙ b.session e;
  invited = subst (Invited r.guests) (sym p) b.invited;
}

Invited-keep :
    (ps : Option (List ℕ)) (keeps : ℕ → Bool) (cs : List ℕ)
    → Invited ps cs
    → Invited ps (keep keeps cs)
Invited-keep none keeps cs i = tt
Invited-keep (some ps) keeps cs i = All-keep _ keeps cs i

-- Fewer privileged clients.
pub IsBarred-fewer :
    {r : Bar} (s : Server) (keeps : ℕ → Bool)
    → IsBarred r s
    → IsBarred r (record s { lock = record (s.lock) { privileged = keep keeps s.lock.privileged } })
unfolding session_locked
IsBarred-fewer {r} s keeps b = record {
  locked = b.locked;
  session = b.session;
  invited = Invited-keep r.guests keeps s.lock.privileged b.invited;
}

pub IsBarred-lock : {r : Bar} (s t : Server) → t.lock ≡ s.lock → IsBarred r s → IsBarred r t
IsBarred-lock s t e b =
    IsBarred-same s t (ap (λ k. k.locked) e) (ap (λ k. k.secure) e) (ap (λ k. k.sas) e)
      (ap (λ k. k.privileged) e) b

pub IsBarred-beside_focus :
    {r : Bar} (s t : Server) → beside_focus t ≡ beside_focus s → IsBarred r s → IsBarred r t
IsBarred-beside_focus s t e b = IsBarred-lock s t (ap (λ k. k.lock) e) b

pub IsBarred-beside_watchers :
    {r : Bar} (s t : Server) → beside_watchers t ≡ beside_watchers s → IsBarred r s → IsBarred r t
IsBarred-beside_watchers s t e b =
    IsBarred-same s t (ap (λ k. k.lock.locked) e) (ap (λ k. k.lock.secure) e)
      (ap (λ k. k.lock.sas) e) (ap (λ k. k.lock.privileged) e) b

module _ {r : Bar} (h : Host) where
  pub lock_session_update-IsBarred :
      (s : Server) → IsBarred r s → IsBarred r (lock_session_update h s)
  lock_session_update-IsBarred s b = IsBarred-beside_watchers s _ (lock_session_update-beside h s) b

  pub notify_watchers-IsBarred :
      (e : WatchEvent) (s : Server) → IsBarred r s → IsBarred r (notify_watchers h e s)
  notify_watchers-IsBarred e s b = IsBarred-beside_watchers s _ (notify_watchers-beside h e s) b

  pub seat_set_focus-IsBarred :
      (i : ℕ) (s : Server) → IsBarred r s → IsBarred r (seat_set_focus h i s)
  seat_set_focus-IsBarred i s b = IsBarred-beside_focus s _ (seat_set_focus-beside h i s) b

  pub process_cursor_motion-IsBarred :
      (s : Server) → IsBarred r s → IsBarred r (process_cursor_motion h s)
  process_cursor_motion-IsBarred s b =
      IsBarred-beside_focus s _ (process_cursor_motion-Moves h s).beside b

  pub view_unmap-IsBarred : (i : ℕ) (s : Server) → IsBarred r s → IsBarred r (view_unmap h i s)
  view_unmap-IsBarred i s b = IsBarred-beside_focus s _ (view_unmap-beside h i s) b

  focus_first-IsBarred :
      (o : Option View) (s : Server) → IsBarred r s → IsBarred r (focus_first h o s)
  focus_first-IsBarred none s b = b
  focus_first-IsBarred (some v) s b = seat_set_focus-IsBarred v.id s b

  refocus-IsBarred : (o : Option View) (s : Server) → IsBarred r s → IsBarred r (refocus h o s)
  unfolding refocus
  refocus-IsBarred none s b = b
  refocus-IsBarred (some v) s b = seat_set_focus-IsBarred v.id s b

  pub view_destroy-IsBarred : (i : ℕ) (s : Server) → IsBarred r s → IsBarred r (view_destroy h i s)
  unfolding view_destroy
  view_destroy-IsBarred i s b = refocus-IsBarred _ _ (view_unmap-IsBarred i s b)

  pub view_map-IsBarred :
      (tree : Bool) (v : View) (u : Surface) (s : Server)
      → IsBarred r s
      → IsBarred r (view_map h tree v u s)
  unfolding view_map
  view_map-IsBarred false v u s b = b
  view_map-IsBarred true v u s b =
      if_cases (IsBarred r) (unmanaged v) (λ _. IsBarred-lock s _ refl b)
        (λ _. seat_set_focus-IsBarred v.id _ (IsBarred-lock s _ refl b))

  pub elevated_focus_session-IsBarred :
      (s : Server) → IsBarred r s → IsBarred r (elevated_focus_session h s)
  unfolding elevated_focus_session
  elevated_focus_session-IsBarred s b = focus_first-IsBarred _ s b

  minimize_view-IsBarred : (v : View) (s : Server) → IsBarred r s → IsBarred r (minimize_view h v s)
  unfolding minimize_view hide_minimized
  minimize_view-IsBarred v s b =
      if_cases (IsBarred r) (same_id s.keyboard_focus (some v.id))
        (λ _. elevated_focus_session-IsBarred _ (IsBarred-lock s _ refl b))
        (λ _. IsBarred-lock s _ refl b)

  pub view_minimize-IsBarred :
      (v : View) (s : Server) → IsBarred r s → IsBarred r (view_minimize h v s)
  unfolding view_minimize
  view_minimize-IsBarred v s b =
      if_cases (IsBarred r) (v.minimized || not v.has_tree) (λ _. b)
        (λ _. minimize_view-IsBarred v s b)

  pub x11_minimize-IsBarred :
      (v : View) (s : Server) → IsBarred r s → IsBarred r (x11_minimize h v s)
  unfolding x11_minimize
  x11_minimize-IsBarred v s b =
      if_cases (IsBarred r) v.minimized (λ _. b) (λ _. minimize_view-IsBarred v s b)

  pub wayland_app_minimize-IsBarred :
      (v : View) (s : Server) → IsBarred r s → IsBarred r (wayland_app_minimize h v s)
  unfolding wayland_app_minimize hide_minimized
  wayland_app_minimize-IsBarred v s b =
      if_cases (IsBarred r) v.minimized (λ _. b)
        λ _.
          if_cases (IsBarred r) (same_id s.keyboard_focus (some v.id))
            (λ _. elevated_focus_session-IsBarred _ (IsBarred-lock s _ refl b))
            (λ _. IsBarred-lock s _ refl b)

  pub activate_view-IsBarred :
      (v : View) (s : Server) → IsBarred r s → IsBarred r (activate_view h v s)
  unfolding activate_view view_restore
  activate_view-IsBarred v s b =
      seat_set_focus-IsBarred v.id _
        (if_cases (IsBarred r) (not v.minimized) (λ _. b) (λ _. IsBarred-lock s _ refl b))
