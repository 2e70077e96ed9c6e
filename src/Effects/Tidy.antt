-- ===== src/Effects/Tidy.antt =====
-- What stays true of sg-deskcomp.c's array of windows.
pub mod Kept
pub mod Leaving
pub mod Drawn
use mathlib.Core.Path.{subst}
use sg_compositor.Prelude.{
  ℕ, ◌+◌, ◌≤◌, ◌≡◌, refl, Bool, true, false, not, ◌&&◌, ◌||◌, List, [], ◌∷◌, ◌++◌, Option, none,
  some, arith, ◌==◌, if_cases, if◌then◌else◌, find, ap, ◌∙◌, inl, inr, Bool-cases, ==_iff,
}
use sg_compositor.Effects.{Anim, anim_close, anim_minimize, Win}
use sg_compositor.Effects.Entries.{
  is_own, find_win, on_own, one, count, count-append, last_first, count-last_first, forget,
  ghost_of, make_ghost,
}
use sg_compositor.Effects.Stacking.{restack, count-restack}

abbrev pub is_fading : Anim → Bool
is_fading anim_close = true
is_fading anim_minimize = true
is_fading _ = false

-- Only a window that is redirected here has a picture.
abbrev pub is_ours : Win → Bool
is_ours e = e.managed || not e.pict

-- A ghost has a picture and an animation that ends, and nothing else.
abbrev pub can_end : Win → Bool
can_end e = not e.ghost || (e.pict && is_fading e.anim && not e.wobbling && not e.damaging)

abbrev pub is_unfit : Win → Bool
is_unfit e = not (is_ours e && can_end e)

-- With `c` the canvas: no window has two entries, the canvas has none, and none is unfit.
abbrev pub Tidy : ℕ → List Win → Type 0
Tidy c ws =
    ((i : ℕ) → count (is_own i) ws ≤ 1) × ((count (is_own c) ws ≡ 0) × (count is_unfit ws ≡ 0))

-- The entries of a list are among another's as far as this goes.
abbrev pub Fewer : List Win → List Win → Type 0
Fewer us ws =
    ((i : ℕ) → count (is_own i) us ≤ count (is_own i) ws) × (count is_unfit us ≤ count is_unfit ws)

pub Tidy-Fewer : (c : ℕ) (us ws : List Win) → Fewer us ws → Tidy c ws → Tidy c us
Tidy-Fewer c us ws f t = (
  λ i. let a = f.0 i in let b = t.0 i in omega arith,
  (let a = f.0 c in let b = t.1.0 in omega arith, let a = f.1 in let b = t.1.1 in omega arith),
)

pub restack-Fewer : (tree : Option (List ℕ)) (ws : List Win) → Fewer (restack tree ws) ws
restack-Fewer tree ws = (
  λ i. let a = count-restack (is_own i) tree ws in omega arith,
  let a = count-restack is_unfit tree ws in omega arith,
)

count-forget : (q : Win → Bool) (i : ℕ) (ws : List Win) → count q (forget i ws) ≤ count q ws
unfolding forget
count-forget q i [] = omega arith
count-forget q i (e ∷ ws) =
    let a = count-last_first q ws in
    let b = count-forget q i ws in
    if_cases (λ us. count q us ≤ one (q e) + count q ws) (is_own i e) (λ _. omega arith)
      (λ _. omega arith)

pub forget-Fewer : (i : ℕ) (ws : List Win) → Fewer (forget i ws) ws
forget-Fewer i ws = (λ j. count-forget (is_own j) i ws, count-forget is_unfit i ws)

count-on_own :
    (q : Win → Bool) (i : ℕ) (f : Win → Win) (ws : List Win)
    → ((e : Win) → is_own i e ≡ true → one (q (f e)) ≤ one (q e))
    → count q (on_own i f ws) ≤ count q ws
unfolding on_own
count-on_own q i f [] h = omega arith
count-on_own q i f (e ∷ ws) h =
    let b = count-on_own q i f ws h in
    if_cases (λ us. count q us ≤ one (q e) + count q ws) (is_own i e)
      (λ o. let a = h e o in omega arith) (λ _. omega arith)

-- What a change of a window's own entry keeps.
abbrev pub Keeps : ℕ → (Win → Win) → Type 0
Keeps i f =
    (e : Win)
    → is_own i e ≡ true
    → ((f e).id ≡ e.id) × (((f e).ghost ≡ e.ghost) × (is_ours e ≡ true → is_ours (f e) ≡ true))

is_own_same :
    (j : ℕ) (e f : Win) → f.id ≡ e.id → f.ghost ≡ e.ghost → one (is_own j f) ≤ one (is_own j e)
is_own_same j e f a b = ground (arith, a, b)

ours_fit : (e : Win) → is_unfit e ≡ false → is_ours e ≡ true
ours_fit e h = ground (arith, h)

fit_own : (e : Win) → is_ours e ≡ true → e.ghost ≡ false → is_unfit e ≡ false
fit_own e h g = ground (arith, h, g)

own_not_ghost : (i : ℕ) (e : Win) → is_own i e ≡ true → e.ghost ≡ false
own_not_ghost i e h = ground (arith, h)

unfit_one :
    (e f : Win) → (is_unfit e ≡ false → is_unfit f ≡ false) → one (is_unfit f) ≤ one (is_unfit e)
unfit_one e f h = from (is_unfit e) (is_unfit f) h
  where
    from : (a b : Bool) → (a ≡ false → b ≡ false) → one b ≤ one a
    from true b h = ground arith
    from false b h = let e = h refl in ground (arith, e)

pub on_own-Fewer : (i : ℕ) (f : Win → Win) (ws : List Win) → Keeps i f → Fewer (on_own i f ws) ws
on_own-Fewer i f ws h = (
  λ j. count-on_own (is_own j) i f ws (λ e o. is_own_same j e (f e) (h e o).0 (h e o).1.0),
  count-on_own is_unfit i f ws (λ e o.
      unfit_one e (f e)
        (λ u. fit_own (f e) ((h e o).1.1 (ours_fit e u)) ((h e o).1.0 ∙ own_not_ghost i e o))),
)

-- The window's own entry has no picture after this; the ghost has it.
pub make_ghost-Fewer :
    (i : ℕ) (e : Win) (a : Anim) (ws : List Win)
    → e.pict ≡ true
    → is_fading a ≡ true
    → is_ours e ≡ true
    → Fewer (make_ghost i e a ws) ws
unfolding make_ghost
make_ghost-Fewer i e a ws p f o =
    let g : Win = ghost_of a e in
    let us = on_own i (λ v. record v { pict = false }) ws in
    let r =
      on_own-Fewer i (λ v. record v { pict = false }) ws
        (λ v _. (refl, (refl, λ _. bare v.managed))) in
    (
      λ j.
          let c = count-append (is_own j) us (g ∷ []) in
          let b = r.0 j in let d : one (is_own j g) ≡ 0 = unowned (g.id == j) in omega arith,
      let c = count-append is_unfit us (g ∷ []) in
          let b = r.1 in let d : one (is_unfit g) ≡ 0 = ground (arith, p, f, o) in omega arith,
    )
  where
    bare : (m : Bool) → (m || true) ≡ true
    bare m = ground arith

    unowned : (b : Bool) → one (b && false) ≡ 0
    unowned b = ground arith

count-find : (p : Win → Bool) (ws : List Win) → find p ws ≡ none → count p ws ≡ 0
count-find p [] h = refl
count-find p (e ∷ ws) h = ground (arith, count-find p ws)

one_le : (b : Bool) → one b ≤ 1
one_le b = ground arith

no_second :
    (i j : ℕ) (b : Bool) (ws : List Win)
    → count (is_own j) ws ≡ 0
    → count (is_own i) ws ≤ 1
    → count (is_own i) ws + one ((j == i) && b) ≤ 1
no_second i j b ws z l = elim (Bool-cases (j == i)) [
  | inl e ↦
      (let n : count (is_own i) ws ≡ 0 =
          subst (λ k. count (is_own k) ws ≡ 0) ((==_iff j i).0 e) z in
        let o = one_le ((j == i) && b) in omega arith)
  | inr e ↦ (let o : one ((j == i) && b) ≡ 0 = ground (arith, e) in omega arith)
]

-- A new entry, of a window that has none.
pub Tidy-append :
    (c : ℕ) (e : Win) (ws : List Win)
    → (e.id == c) ≡ false
    → e.ghost ≡ false
    → is_ours e ≡ true
    → find_win e.id ws ≡ none
    → Tidy c ws
    → Tidy c (ws ++ e ∷ [])
Tidy-append c e ws n g o f t = (
  λ i.
      let a = count-append (is_own i) ws (e ∷ []) in
      let b = t.0 i in let d = at_most i in omega arith,
  (
    let a = count-append (is_own c) ws (e ∷ []) in
        let b = t.1.0 in
        let d : one (is_own c e) ≡ 0 = ap (λ b. one (b && not e.ghost)) n in omega arith,
    let a = count-append is_unfit ws (e ∷ []) in
        let b = t.1.1 in let d : one (is_unfit e) ≡ 0 = ap one (fit_own e o g) in omega arith,
  ),
)
  where
    at_most : (i : ℕ) → count (is_own i) ws + one (is_own i e) ≤ 1
    at_most i = no_second i e.id (not e.ghost) ws (count-find (is_own e.id) ws f) (t.0 i)
