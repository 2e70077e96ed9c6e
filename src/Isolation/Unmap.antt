-- ===== src/Isolation/Unmap.antt =====
-- The isolation and view_unmap and view_destroy (view.c).
use sg_compositor.Prelude.{
  ℕ, Bool, ◌&&◌, Option, none, some, ◌≡◌, refl, ◌∙◌, is_some, All, All-keep, if_cases, Option-cases,
  inl, inr,
}
use sg_compositor.World.{View, Server, Host, same_id, find_view}
use sg_compositor.Windows.Map.{drop_view, refocus, unmap_view, view_unmap, view_destroy}
use sg_compositor.Isolation.Views.{focus_in-remove}
use sg_compositor.Isolation.Focus.{
  beside_focus, Confined, Admits, seat_set_focus-beside, seat_set_focus-Confined,
  seat_set_focus-All,
}
use sg_compositor.Isolation.Invariant.{
  IsSound, IsIsolated-beside_focus, Told-beside_focus, seat_set_focus-IsSound, locked_Admits,
}

-- Against any test that admits who may have the focus.
module _ (h : Host) (ok : View → Bool) where
  drop_view-Confined : (i : ℕ) (s : Server) → Confined ok s → Confined ok (drop_view i s)
  unfolding drop_view
  drop_view-Confined i s c = record {
    keyboard = λ n. focus_in-remove ok i s.keyboard_focus s.views (c.keyboard n);
    pointer = focus_in-remove ok i s.pointer_focus s.views c.pointer;
  }

  refocus-Confined :
      (v : Option View) (s : Server)
      → Admits ok s.lock
      → Confined ok s
      → Confined ok (refocus h v s)
  unfolding refocus
  refocus-Confined none s a c = c
  refocus-Confined (some v) s a c = seat_set_focus-Confined ok h v.id s a c

  pub view_unmap-Confined :
      (i : ℕ) (s : Server) → Admits ok s.lock → Confined ok s → Confined ok (view_unmap h i s)
  unfolding view_unmap unmap_view
  view_unmap-Confined i s a c = elim (Option-cases (find_view i s.views)) [
    | inl out ↦ rw (out, view_unmap) c
    | inr (v, found) ↦
        rw (found, view_unmap)
          (if_cases (Confined ok) (is_some v.surface && same_id s.keyboard_focus (some v.id))
            (λ _.
              refocus-Confined _ (drop_view v.id s) (unfold drop_view in a)
                (drop_view-Confined v.id s c))
            (λ _. drop_view-Confined v.id s c))
  ]

drop_view-beside : (i : ℕ) (s : Server) → beside_focus (drop_view i s) ≡ beside_focus s
unfolding drop_view
drop_view-beside i s = refl

refocus-beside :
    (h : Host) (v : Option View) (s : Server) → beside_focus (refocus h v s) ≡ beside_focus s
unfolding refocus
refocus-beside h none s = refl
refocus-beside h (some v) s = seat_set_focus-beside h v.id s

pub view_unmap-beside :
    (h : Host) (i : ℕ) (s : Server) → beside_focus (view_unmap h i s) ≡ beside_focus s
unfolding view_unmap unmap_view
view_unmap-beside h i s = elim (Option-cases (find_view i s.views)) [
  | inl out ↦ rw (out, view_unmap)
  | inr (v, found) ↦
      rw (found, view_unmap)
        (if_cases (λ t. beside_focus t ≡ beside_focus s)
          (is_some v.surface && same_id s.keyboard_focus (some v.id))
          (λ _. refocus-beside h _ _ ∙ drop_view-beside v.id s) (λ _. drop_view-beside v.id s))
]

module _ (P : View → Type 0) (h : Host) where
  refocus-All : (v : Option View) (s : Server) → All P s.views → All P (refocus h v s).views
  unfolding refocus
  refocus-All none s c = c
  refocus-All (some v) s c = seat_set_focus-All P h v.id s c

  pub unmap_view-All :
      (v : View) (s : Server) → All P (drop_view v.id s).views → All P (unmap_view h v s).views
  unfolding unmap_view
  unmap_view-All v s c =
      if_cases {A = Server} (λ t. All P t.views)
        (is_some v.surface && same_id s.keyboard_focus (some v.id)) (λ _. refocus-All _ _ c)
        (λ _. c)

  -- No view changes but the one that goes.
  pub view_unmap-All : (i : ℕ) (s : Server) → All P s.views → All P (view_unmap h i s).views
  unfolding view_unmap drop_view
  view_unmap-All i s c = elim (Option-cases (find_view i s.views)) [
    | inl out ↦ rw (out, view_unmap) c
    | inr (v, found) ↦ rw (found, view_unmap) (unmap_view-All v s (All-keep P _ s.views c))
  ]

pub view_unmap-IsSound :
    {g : Option ℕ} (h : Host) (i : ℕ) (s : Server) → IsSound g s → IsSound g (view_unmap h i s)
view_unmap-IsSound {g} h i s k = record {
  isolated =
      IsIsolated-beside_focus s _ (view_unmap-beside h i s)
        (λ l. view_unmap-Confined h _ i s (locked_Admits g s.lock l) (k.isolated.confined l))
        (λ l n. view_unmap-All _ h i s (k.isolated.hidden l n)) k.isolated;
  told = Told-beside_focus s _ (view_unmap-beside h i s) k.told;
}

refocus-IsSound :
    {g : Option ℕ} (h : Host) (v : Option View) (s : Server)
    → IsSound g s
    → IsSound g (refocus h v s)
unfolding refocus
refocus-IsSound {g} h none s k = k
refocus-IsSound {g} h (some v) s k = seat_set_focus-IsSound h v.id s k

pub view_destroy-IsSound :
    {g : Option ℕ} (h : Host) (i : ℕ) (s : Server) → IsSound g s → IsSound g (view_destroy h i s)
unfolding view_destroy
view_destroy-IsSound {g} h i s k = refocus-IsSound h _ _ (view_unmap-IsSound h i s k)
