-- ===== src/Effects/Stacking.antt =====
-- sg-deskcomp.c's restack: the entries in the X server's stacking order. The entries that used[]
-- does not mark yet are a list here, in the array's order.
pub mod Order
use sg_compositor.Prelude.{
  ℕ, ◌+◌, ◌*◌, ◌≡◌, refl, Bool, true, false, not, ◌&&◌, List, [], ◌∷◌, ◌++◌, Option, none, some,
  arith, ◌==◌, if◌then◌else◌, keep,
}
use sg_compositor.Effects.{Win}
use sg_compositor.Effects.Entries.{is_own, one, count, count-append}

abbrev pub is_ghost : ℕ → Win → Bool
is_ghost i e = e.id == i && e.ghost

module _ {ℓ} {A : Type ℓ} where
  -- One pass over the entries: those it takes, and then those it leaves.
  abbrev pub leave : (A → Bool) → List A → List A
  leave p xs = keep (λ x. not (p x)) xs

  pub count-take_leave :
      (q p : A → Bool) (xs : List A) → count q (keep p xs) + count q (leave p xs) ≡ count q xs
  count-take_leave q p [] = refl
  count-take_leave q p (x ∷ xs) = let h = count-take_leave q p xs in ground arith

-- The loop over the server's windows, bottom to top: each window's own entry, and above it the
-- ghosts; the entries of none of them are on top.
unfoldable pub sort_by : (children : List ℕ) → (unused : List Win) → List Win
sort_by [] ws = ws
sort_by (i ∷ is) ws =
    let others = leave (is_own i) ws in
    keep (is_own i) ws ++ (keep (is_ghost i) others ++ sort_by is (leave (is_ghost i) others))

-- restack; `tree` is what XQueryTree answers.
unfoldable pub restack : (tree : Option (List ℕ)) → List Win → List Win
unfolding sort_by
restack none ws = ws
restack (some children) ws = sort_by children ws

count-sort_by :
    (q : Win → Bool) (is : List ℕ) (ws : List Win) → count q (sort_by is ws) ≡ count q ws
unfolding sort_by
count-sort_by q [] ws = refl
count-sort_by q (i ∷ is) ws =
    let others = leave (is_own i) ws in
    let left = leave (is_ghost i) others in
    let a = count-append q (keep (is_own i) ws) (keep (is_ghost i) others ++ sort_by is left) in
    let b = count-append q (keep (is_ghost i) others) (sort_by is left) in
    let c = count-take_leave q (is_own i) ws in
    let d = count-take_leave q (is_ghost i) others in
    let r = count-sort_by q is left in omega (arith, a, b, c, d, r)

pub count-restack :
    (q : Win → Bool) (tree : Option (List ℕ)) (ws : List Win)
    → count q (restack tree ws) ≡ count q ws
unfolding restack
count-restack q none ws = refl
count-restack q (some is) ws = count-sort_by q is ws
