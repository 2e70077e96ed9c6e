-- ===== src/Isolation/Gone.antt =====
-- The isolation and the windows of a client that ends (lock.c, view.c).
use mathlib.Core.Path.{subst}
use sg_compositor.Prelude.{
  All-map, All-both, All-keep_passes, All-find, sym, ◌∙◌, ℕ, Bool, true, false, List, [], ◌∷◌,
  Option, none, some, arith, ◌≡◌, ◌==◌, if◌then◌else◌, any, All, if_cases, Option-cases, inl, inr,
  refl, ==_iff,
}
use sg_compositor.World.{View, Lock, Server, Host, find_view, remove_view}
use sg_compositor.Windows.Map.{view_unmap, drop_view}
use sg_compositor.Remote.Clients.{view_of, unmap_views, destroy_resources}
use sg_compositor.Isolation.Views.{focus_in, find_view_id}
use sg_compositor.Isolation.Invariant.{excused, IsIsolated, IsSound}
use sg_compositor.Isolation.Unmap.{view_unmap-All, unmap_view-All, view_unmap-IsSound}

unmap_views-IsSound :
    {g : Option ℕ} (h : Host) (c : ℕ) (vs : List View) (s : Server)
    → IsSound g s
    → IsSound g (unmap_views h c vs s)
unfolding unmap_views
unmap_views-IsSound {g} h c [] s k = k
unmap_views-IsSound {g} h c (v ∷ vs) s k =
    unmap_views-IsSound h c vs _
      (if_cases (IsSound g) (view_of c v) (λ _. view_unmap-IsSound h v.id s k) (λ _. k))

-- Unmapped, a view is not in the list any more.
All-other : (i : ℕ) (vs : List View) → find_view i vs ≡ none → All (λ w. (w.id == i) ≡ false) vs
All-other i [] e = tt
All-other i (v ∷ vs) e = ground (arith, All-other i vs)

abbrev Other : ℕ → View → Type 0
Other i w = (w.id == i) ≡ false

drop_view-Other : (i : ℕ) (s : Server) → All (Other i) (drop_view i s).views
unfolding drop_view
drop_view-Other i s =
    All-map _ _ (remove_view i s.views) (λ w e. ground arith) (All-keep_passes _ s.views)

view_unmap-Other : (h : Host) (i : ℕ) (s : Server) → All (Other i) (view_unmap h i s).views
unfolding view_unmap
view_unmap-Other h i s = elim (Option-cases (find_view i s.views)) [
  | inl out ↦ rw (out, view_unmap) (All-other i s.views out)
  | inr (v, found) ↦
      rw (found, view_unmap)
        (unmap_view-All (Other i) h v s (
          subst (λ j. All (Other i) (drop_view j s).views) (sym (find_view_id i s.views v found))
            (drop_view-Other i s)))
]

-- A view of the client is still to be unmapped.
abbrev pending : ℕ → ℕ → List View → Bool
pending c i vs = any (λ v. if view_of c v then v.id == i else false) vs

abbrev Pending : ℕ → List View → View → Type 0
Pending c vs w = view_of c w ≡ true → pending c w.id vs ≡ true

abbrev pub NotOf : ℕ → View → Type 0
NotOf c w = view_of c w ≡ false

-- One round of the loop: what is pending after it.
Pending-step :
    (h : Host) (c : ℕ) (v : View) (vs : List View) (s : Server)
    → All (Pending c (v ∷ vs)) s.views
    → All (Pending c vs) (if view_of c v then view_unmap h v.id s else s).views
Pending-step h c v vs s p =
    if_cases {A = Server} (λ t. All (Pending c vs) t.views) (view_of c v)
      (λ mine.
        All-map _ _ (view_unmap h v.id s).views
          (λ w q e. ground (arith, q.0 e, q.1, ==_iff v.id w.id, ==_iff w.id v.id))
          (All-both _ _ _ (view_unmap-All (Pending c (v ∷ vs)) h v.id s p)
            (view_unmap-Other h v.id s)))
      (λ other. All-map _ _ s.views (λ w q e. ground (arith, q e)) p)

unmap_views_done :
    (h : Host) (c : ℕ) (vs : List View) (s : Server)
    → All (Pending c vs) s.views
    → All (NotOf c) (unmap_views h c vs s).views
unfolding unmap_views
unmap_views_done h c [] s p = All-map _ _ s.views (λ w q. ground (arith, q)) p
unmap_views_done h c (v ∷ vs) s p = unmap_views_done h c vs _ (Pending-step h c v vs s p)

Pending-self : (c : ℕ) (vs : List View) → All (Pending c vs) vs
Pending-self c [] = tt
Pending-self c (v ∷ vs) =
    ((λ e. ground arith), All-map _ _ vs (λ w q e. ground (arith, q e)) (Pending-self c vs))

-- When a client's resources are destroyed, no window of the list is the client's any more.
pub destroy_resources-NotOf :
    (h : Host) (c : ℕ) (s : Server) → All (NotOf c) (destroy_resources h c s).views
unfolding destroy_resources
destroy_resources-NotOf h c s = unmap_views_done h c s.views s (Pending-self c s.views)

-- Where no view is of the client, nobody is excused for it.
NotOf-excused : (c : ℕ) (l : Lock) (w : View) → NotOf c w → excused (some c) l w ≡ excused none l w
unfolding excused
NotOf-excused c l w n = ground (arith, n)

focus_in-eq :
    (ok more : View → Bool) (f : Option ℕ) (vs : List View)
    → All (λ w. ok w ≡ more w) vs
    → focus_in ok vs f ≡ focus_in more vs f
focus_in-eq ok more none vs same = refl
focus_in-eq ok more (some j) vs same = elim (Option-cases (find_view j vs)) [
  | inl out ↦ ground (arith, out)
  | inr (v, found) ↦
      ground (arith, found, All-find (λ w. ok w ≡ more w) (λ w. w.id == j) vs v same found)
]

NotOf-IsIsolated :
    (c : ℕ) (s : Server) → All (NotOf c) s.views → IsIsolated (some c) s → IsIsolated none s
NotOf-IsIsolated c s gone i = record {
  confined = λ l. record {
    keyboard = λ n. sym (focus_in-eq _ _ s.keyboard_focus s.views same) ∙ (i.confined l).keyboard n;
    pointer = sym (focus_in-eq _ _ s.pointer_focus s.views same) ∙ (i.confined l).pointer;
  };
  hidden = λ l n.
      All-map _ _ s.views (λ w q shown. sym q.0 ∙ q.1 shown)
        (All-both _ _ s.views same (i.hidden l n));
  dimmed = i.dimmed;
  secure_locked = i.secure_locked;
  sas_locked = i.sas_locked;
  one_reason = i.one_reason;
}
  where
    same : All (λ w. excused (some c) s.lock w ≡ excused none s.lock w) s.views
    same = All-map _ _ s.views (NotOf-excused c s.lock) gone

-- A client's resources are destroyed: its views are gone, and the isolation is as strict as before.
pub destroy_resources-IsSound :
    (h : Host) (c : ℕ) (s : Server) → IsSound (some c) s → IsSound none (destroy_resources h c s)
destroy_resources-IsSound h c s k = record {
  isolated =
      NotOf-IsIsolated c _ (destroy_resources-NotOf h c s)
        (unfold destroy_resources in swept.isolated);
  told = unfold destroy_resources in swept.told;
}
  where
    swept : IsSound (some c) (unmap_views h c s.views s)
    swept = unmap_views-IsSound h c s.views s k

pub All-mono :
    (P Q : View → Type 0) (vs : List View) → ((v : View) → P v → Q v) → All P vs → All Q vs
All-mono P Q vs f h = All-map P Q vs f h
