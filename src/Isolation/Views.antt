-- ===== src/Isolation/Views.antt =====
-- Predicates on the list of views, and how writing to the list keeps them.
use sg_compositor.Prelude.{
  ℕ, Bool, true, false, ◌&&◌, List, [], ◌∷◌, map, Option, none, some, arith, ◌≡◌, refl, ◌==◌,
  find_passes, ==_iff, All, All-keep, All-find, Option-cases, inl, inr,
}
use sg_compositor.World.{View, forget, find_view, remove_view, move_to_front}

-- Nothing has the focus, or a view of the list that passes the test.
abbrev pub focus_in : (View → Bool) → List View → Option ℕ → Bool
focus_in ok vs none = true
focus_in ok vs (some i) = elim (find_view i vs) [ none ↦ false | some v ↦ ok v ]

abbrev pub is_shown : View → Bool
is_shown v = v.has_tree && v.enabled

-- Each view that can be seen passes the test.
abbrev pub Covers : (View → Bool) → View → Type 0
Covers ok v = is_shown v ≡ true → ok v ≡ true

abbrev pub AllCovered : (View → Bool) → List View → Type 0
AllCovered ok vs = All (Covers ok) vs

-- An update that keeps the identity keeps who is found.
pub find_view-map :
    (f : View → View) (i : ℕ) (vs : List View)
    → ((v : View) → (f v).id ≡ v.id)
    → find_view i (map f vs) ≡ elim (find_view i vs) [ none ↦ none | some v ↦ some (f v) ]
find_view-map f i [] same = refl
find_view-map f i (v ∷ vs) same = ground (arith, same v, find_view-map f i vs same)

pub find_view_id : (i : ℕ) (vs : List View) (v : View) → find_view i vs ≡ some v → v.id ≡ i
find_view_id i vs v e = (==_iff v.id i).0 (find_passes (λ w. w.id == i) vs v e)

pub find_view-remove :
    (i j : ℕ) (vs : List View) → (i == j) ≡ false → find_view j (remove_view i vs) ≡ find_view j vs
find_view-remove i j [] ne = refl
find_view-remove i j (v ∷ vs) ne = ground (arith, find_view-remove i j vs ne)

-- Moving a view of the list to the front changes nothing for a search by identity.
pub find_view-move_to_front :
    (v : View) (j : ℕ) (vs : List View)
    → find_view v.id vs ≡ some v
    → find_view j (move_to_front v vs) ≡ find_view j vs
find_view-move_to_front v j vs e = ground (arith, find_view-remove v.id j vs)

pub focus_in-move_to_front :
    (ok : View → Bool) (v : View) (f : Option ℕ) (vs : List View)
    → find_view v.id vs ≡ some v
    → focus_in ok (move_to_front v vs) f ≡ focus_in ok vs f
focus_in-move_to_front ok v none vs e = refl
focus_in-move_to_front ok v (some j) vs e = ground (arith, find_view-move_to_front v j vs e)

-- A weaker test lets in whom a stronger one does.
pub focus_in_mono :
    (ok more : View → Bool) (f : Option ℕ) (vs : List View)
    → ((v : View) → ok v ≡ true → more v ≡ true)
    → focus_in ok vs f ≡ true
    → focus_in more vs f ≡ true
focus_in_mono ok more none vs weaker h = refl
focus_in_mono ok more (some j) vs weaker h = elim (Option-cases (find_view j vs)) [
  | inl out ↦ ground (arith, out)
  | inr (v, found) ↦ ground (arith, found, weaker v)
]

pub find_view_self :
    (i : ℕ) (vs : List View) (v : View) → find_view i vs ≡ some v → find_view v.id vs ≡ some v
find_view_self i vs v e = ground (arith, find_view_id i vs v e)

pub All-move_to_front :
    (P : View → Type 0) (v : View) (vs : List View)
    → find_view v.id vs ≡ some v
    → All P vs
    → All P (move_to_front v vs)
All-move_to_front P v vs e h = (All-find P _ vs v h e, All-keep P _ vs h)

-- An update that changes neither who a view is nor whether it passes.
pub focus_in-map :
    (ok : View → Bool) (f : View → View) (j : Option ℕ) (vs : List View)
    → ((v : View) → (f v).id ≡ v.id)
    → ((v : View) → ok (f v) ≡ ok v)
    → focus_in ok (map f vs) j ≡ focus_in ok vs j
focus_in-map ok f none vs same keeps = refl
focus_in-map ok f (some i) vs same keeps = elim (Option-cases (find_view i vs)) [
  | inl out ↦ ground (arith, out, find_view-map f i vs same)
  | inr (v, found) ↦ ground (arith, found, find_view-map f i vs same, keeps v)
]

-- A new view in front, of another identity.
pub focus_in-cons_fresh :
    (ok : View → Bool) (w : View) (f : Option ℕ) (vs : List View)
    → find_view w.id vs ≡ none
    → focus_in ok vs f ≡ true
    → focus_in ok (w ∷ vs) f ≡ true
focus_in-cons_fresh ok w none vs fresh h = refl
focus_in-cons_fresh ok w (some j) vs fresh h = ground (arith, ==_iff w.id j)

-- Removing a view, and the focus that it had.
pub focus_in-remove :
    (ok : View → Bool) (i : ℕ) (f : Option ℕ) (vs : List View)
    → focus_in ok vs f ≡ true
    → focus_in ok (remove_view i vs) (forget i f) ≡ true
focus_in-remove ok i none vs h = refl
focus_in-remove ok i (some j) vs h = ground (arith, find_view-remove i j vs)
