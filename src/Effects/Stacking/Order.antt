-- ===== src/Effects/Stacking/Order.antt =====
-- The order that sg-deskcomp.c's restack makes.
use sg_compositor.Prelude.{
  ℕ, suc, ◌≤◌, ◌≡◌, Bool, true, false, not, List, [], ◌∷◌, ◌++◌, Option, none, some, arith, ◌==◌,
  if◌then◌else◌, if_cases, keep, All, All-keep, All-map, All-both,
}
use sg_compositor.Effects.{Win}
use sg_compositor.Effects.Entries.{is_own, count, All-append}
use sg_compositor.Effects.Stacking.{is_ghost, leave, sort_by, restack, count-restack}

-- How high in a stack of windows an entry is: a ghost is right above its window.
unfoldable pub rank : List ℕ → Win → ℕ
rank [] e = 0
rank (i ∷ is) e =
    let rest = rank is e in if e.id == i then (if e.ghost then 1 else 0) else suc (suc rest)

-- Each entry is at most as high as those after it.
unfoldable pub Rising : List ℕ → List Win → Type 0
Rising is [] = Unit
Rising is (e ∷ ws) = All (λ v. rank is e ≤ rank is v) ws × Rising is ws

All-imp : {P Q : Win → Type 0} (ws : List Win) → ((v : Win) → P v → Q v) → All P ws → All Q ws
All-imp [] f h = tt
All-imp (v ∷ ws) f h = (f v h.0, All-imp ws f h.1)

-- What holds of the entries that pass a test.
All-kept :
    {Q : Win → Type 0} (p : Win → Bool) (ws : List Win)
    → ((v : Win) → p v ≡ true → Q v)
    → All Q (keep p ws)
All-kept p [] f = tt
All-kept p (v ∷ ws) f =
    if_cases (All _) (p v) (λ e. (f v e, All-kept p ws f)) (λ _. All-kept p ws f)

-- A list on one level, and one above it.
Rising-append :
    (is : List ℕ) (n : ℕ) (us ws : List Win)
    → All (λ v. rank is v ≡ n) us
    → All (λ v. n ≤ rank is v) ws
    → Rising is ws
    → Rising is (us ++ ws)
unfolding Rising
Rising-append is n [] ws h k r = r
Rising-append is n (u ∷ us) ws h k r = (
  All-append (λ v. rank is u ≤ rank is v) us ws
      (All-imp us (λ v e. let e0 = h.0 in omega arith) h.1)
      (All-imp ws (λ v e. let e0 = h.0 in omega arith) k),
  Rising-append is n us ws h.1 k r,
)

Rising-bottom : (ws : List Win) → Rising [] ws
unfolding Rising rank
Rising-bottom [] = tt
Rising-bottom (v ∷ ws) = (All_any ws, Rising-bottom ws)
  where
    All_any : (us : List Win) → All (λ _. 0 ≤ 0) us
    All_any [] = tt
    All_any (u ∷ us) = (omega arith, All_any us)

rank_above :
    (i : ℕ) (is : List ℕ) (v : Win) → (v.id == i) ≡ false → rank (i ∷ is) v ≡ suc (suc (rank is v))
unfolding rank
rank_above i is v e = rw e

Rising-above :
    (i : ℕ) (is : List ℕ) (ws : List Win)
    → All (λ v. (v.id == i) ≡ false) ws
    → Rising is ws
    → Rising (i ∷ is) ws
unfolding Rising
Rising-above i is [] h r = tt
Rising-above i is (v ∷ ws) h r = (higher ws h.1 r.0, Rising-above i is ws h.1 r.1)
  where
    higher :
        (us : List Win)
        → All (λ u. (u.id == i) ≡ false) us
        → All (λ u. rank is v ≤ rank is u) us
        → All (λ u. rank (i ∷ is) v ≤ rank (i ∷ is) u) us
    higher [] k l = tt
    higher (u ∷ us) k l =
        let a = rank_above i is v h.0 in
        let b = rank_above i is u k.0 in let c = l.0 in (omega arith, higher us k.1 l.1)

module _ (Q : Win → Type 0) where
  pub All-sort_by : (is : List ℕ) (ws : List Win) → All Q ws → All Q (sort_by is ws)
  unfolding sort_by
  All-sort_by [] ws h = h
  All-sort_by (i ∷ is) ws h =
      let others = All-keep Q (λ v. not (is_own i v)) ws h in
      All-append Q _ _ (All-keep Q (is_own i) ws h) (
        All-append Q _ _ (All-keep Q (is_ghost i) (leave (is_own i) ws) others)
          (All-sort_by is _ (All-keep Q (λ v. not (is_ghost i v)) (leave (is_own i) ws) others)))

  pub All-restack : (tree : Option (List ℕ)) (ws : List Win) → All Q ws → All Q (restack tree ws)
  unfolding restack
  All-restack none ws h = h
  All-restack (some is) ws h = All-sort_by is ws h

of_neither :
    (i : ℕ) (v : Win) → not (is_own i v) ≡ true → not (is_ghost i v) ≡ true → (v.id == i) ≡ false
of_neither i v a b = ground (arith, a, b)

All-left :
    (i : ℕ) (ws : List Win)
    → All (λ v. (v.id == i) ≡ false) (leave (is_ghost i) (leave (is_own i) ws))
All-left i ws =
    let a : All (λ v. not (is_own i v) ≡ true) (leave (is_own i) ws) =
      All-kept (λ v. not (is_own i v)) ws (λ v e. e) in
    let b =
      All-keep (λ v. not (is_own i v) ≡ true) (λ v. not (is_ghost i v)) (leave (is_own i) ws) a in
    let c : All (λ v. not (is_ghost i v) ≡ true) (leave (is_ghost i) (leave (is_own i) ws)) =
      All-kept (λ v. not (is_ghost i v)) (leave (is_own i) ws) (λ v e. e) in
    All-map _ _ (leave (is_ghost i) (leave (is_own i) ws)) (λ v p. of_neither i v p.0 p.1)
      (All-both _ _ (leave (is_ghost i) (leave (is_own i) ws)) b c)

own_rank : (i : ℕ) (is : List ℕ) (v : Win) → is_own i v ≡ true → rank (i ∷ is) v ≡ 0
unfolding rank
own_rank i is v e = ground (arith, e)

ghost_rank : (i : ℕ) (is : List ℕ) (v : Win) → is_ghost i v ≡ true → rank (i ∷ is) v ≡ 1
unfolding rank
ghost_rank i is v e = ground (arith, e)

Rising-sort_by : (is : List ℕ) (ws : List Win) → Rising is (sort_by is ws)
unfolding sort_by
Rising-sort_by [] ws = Rising-bottom ws
Rising-sort_by (i ∷ is) ws =
    let others = leave (is_own i) ws in
    let left = leave (is_ghost i) others in
    let far = All-sort_by (λ v. (v.id == i) ≡ false) is left (All-left i ws) in
    let two : All (λ v. 2 ≤ rank (i ∷ is) v) (sort_by is left) =
      All-imp (sort_by is left) (λ v e. let a = rank_above i is v e in omega arith) far in
    let ghosts : All (λ v. rank (i ∷ is) v ≡ 1) (keep (is_ghost i) others) =
      All-kept (is_ghost i) others (ghost_rank i is) in
    Rising-append (i ∷ is) 0 (keep (is_own i) ws) (keep (is_ghost i) others ++ sort_by is left)
      (All-kept (is_own i) ws (own_rank i is))
      (All-append (λ v. 0 ≤ rank (i ∷ is) v) (keep (is_ghost i) others) (sort_by is left)
        (All-imp (keep (is_ghost i) others) (λ v e. omega arith) ghosts)
        (All-imp (sort_by is left) (λ v e. omega arith) two))
      (Rising-append (i ∷ is) 1 (keep (is_ghost i) others) (sort_by is left) ghosts
        (All-imp (sort_by is left) (λ v e. omega arith) two)
        (Rising-above i is (sort_by is left) far (Rising-sort_by is left)))

-- restack, with any windows that the X server lists, keeps as many entries that pass a test,
-- whichever test; and each is as high as those before it or higher, where a window is as high as
-- its first place in the list, its ghosts are right above it, and the entries of windows that are
-- not listed are on top.
pub restack-Rising :
    (children : List ℕ) (ws : List Win) (q : Win → Bool)
    → Rising children (restack (some children) ws)
      × (count q (restack (some children) ws) ≡ count q ws)
unfolding restack
restack-Rising children ws q = (Rising-sort_by children ws, count-restack q (some children) ws)
