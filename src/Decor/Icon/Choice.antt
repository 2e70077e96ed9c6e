-- ===== src/Decor/Icon/Choice.antt =====
-- Which entry of _NET_WM_ICON decor.c takes.
use sg_compositor.Prelude.{
  ℕ, zero, suc, ◌+◌, ◌*◌, ◌≤◌, ◌<◌, ◌≡◌, refl, Bool, true, ◌&&◌, ◌⊎◌, inl, inr, List, [], ◌∷◌,
  arith, leb, if_cases, if_both, if◌then◌else◌, All, length,
}
use sg_compositor.Decor.Icon.{
  Entry, icon_px, word, is_better, is_entry, entries_from, best_entry, no_entry,
}

-- The loop's test and the checks on the entry.
abbrev met : List ℕ → ℕ → Bool
met v i = leb (i + 2) (length v) && is_entry v i (word v i) (word v (i + 1))

-- An entry is not empty, and the next one begins after it, at most at the end.
met_bounds :
    (v : List ℕ) (i : ℕ)
    → met v i ≡ true
    → (0 < word v i) × (0 < word v (i + 1)) × (i + 2 + word v i * word v (i + 1) ≤ length v)
unfolding is_entry
met_bounds v i h = (ground (arith, h), ground (arith, h), ground (arith, h))

-- There is no entry, or it lies within the values.
abbrev pub IsInside : List ℕ → Entry → Type 0
IsInside v e = (e.bw ≡ 0) ⊎ ((0 < e.bw) × (0 < e.bh) × (e.best + 2 + e.bw * e.bh ≤ length v))

entries_from-IsInside :
    (fuel : ℕ) (v : List ℕ) (i : ℕ) (e : Entry)
    → IsInside v e
    → IsInside v (entries_from fuel v i e)
unfolding entries_from
entries_from-IsInside zero v i e h = h
entries_from-IsInside (suc fuel) v i e h =
    if_cases (IsInside v) (met v i)
      (λ b.
        entries_from-IsInside fuel v _ _ (
          if_cases (IsInside v) (is_better (word v i) e.bw) (λ _. inr (met_bounds v i b)) (λ _. h)))
      (λ _. h)

pub best_entry-IsInside : (v : List ℕ) → IsInside v (best_entry v)
unfolding best_entry
best_entry-IsInside v = entries_from-IsInside (length v) v 0 _ (inl refl)

-- The widths of the entries that the loop meets.
pub widths_from : ℕ → List ℕ → ℕ → List ℕ
widths_from zero v i = []
widths_from (suc fuel) v i =
    let rest = widths_from fuel v (i + 2 + word v i * word v (i + 1)) in
    if met v i then word v i ∷ rest else []

-- No width is nearer above 16 pixels than `bw`, nor greater if none reaches 16.
abbrev pub IsBestWidth : ℕ → ℕ → Type 0
IsBestWidth bw w = if leb icon_px w then (icon_px ≤ bw) × (bw ≤ w) else ((icon_px ≤ bw) ⊎ (w ≤ bw))

abbrev choose : ℕ → Entry → ℕ → ℕ → Entry
choose w e i h = if is_better w e.bw then record { best = i; bw = w; bh = h } else e

choose-IsBestWidth : (w : ℕ) (e : Entry) (i h : ℕ) → IsBestWidth (choose w e i h).bw w
unfolding is_better
choose-IsBestWidth w e i h = ground arith

IsBestWidth-choose :
    (w : ℕ) (e : Entry) (i h x : ℕ) → 0 < w → IsBestWidth e.bw x → IsBestWidth (choose w e i h).bw x
unfolding is_better
IsBestWidth-choose w e i h x pos b = ground arith

IsBestWidth-entries_from :
    (fuel : ℕ) (v : List ℕ) (i : ℕ) (e : Entry) (x : ℕ)
    → IsBestWidth e.bw x
    → IsBestWidth (entries_from fuel v i e).bw x
unfolding entries_from
IsBestWidth-entries_from zero v i e x b = b
IsBestWidth-entries_from (suc fuel) v i e x b =
    if_cases (λ (r : Entry). IsBestWidth r.bw x) (met v i)
      (λ t.
        IsBestWidth-entries_from fuel v _ _ x
          (IsBestWidth-choose (word v i) e i (word v (i + 1)) x (met_bounds v i t).0 b))
      (λ _. b)

entries_from-All :
    (fuel : ℕ) (v : List ℕ) (i : ℕ) (e : Entry)
    → All (IsBestWidth (entries_from fuel v i e).bw) (widths_from fuel v i)
unfolding entries_from widths_from
entries_from-All zero v i e = tt
entries_from-All (suc fuel) v i e =
    if_both (λ (r : Entry) (ws : List ℕ). All (IsBestWidth r.bw) ws) (met v i)
      (λ t.
        let c = choose (word v i) e i (word v (i + 1)) in
        let next = i + 2 + word v i * word v (i + 1) in
        (
          IsBestWidth-entries_from fuel v next c (word v i)
              (choose-IsBestWidth (word v i) e i (word v (i + 1))),
          entries_from-All fuel v next c,
        ))
      (λ _. tt)

abbrev pub widths : List ℕ → List ℕ
unfolding widths_from
widths v = widths_from (length v) v 0

-- An entry is at least three values, so the loop ends before its fuel does.
entries_from_fuel :
    (j k : ℕ) (v : List ℕ) (i : ℕ) (e : Entry)
    → length v ≤ i + j
    → length v ≤ i + k
    → entries_from j v i e ≡ entries_from k v i e
unfolding entries_from
entries_from_fuel zero zero v i e p q = refl
entries_from_fuel zero (suc k) v i e p q = ground arith
entries_from_fuel (suc j) zero v i e p q = ground arith
entries_from_fuel (suc j) (suc k) v i e p q =
    if_cases (λ (r : Entry). r ≡ entries_from (suc k) v i e) (met v i)
      (λ t.
        let next = i + 2 + word v i * word v (i + 1) in
        let c = choose (word v i) e i (word v (i + 1)) in
        ground (arith, t, entries_from_fuel j k v next c (omega arith) (omega arith)))
      (λ t. ground (arith, t))

-- However long the loop may go on, what it finds lies within the values and is the best of them.
pub best_entry_lem :
    (v : List ℕ)
    → IsInside v (best_entry v)
      × All (IsBestWidth (best_entry v).bw) (widths v)
      × ((fuel : ℕ) → length v ≤ fuel → entries_from fuel v 0 no_entry ≡ best_entry v)
unfolding best_entry widths
best_entry_lem v = (
  best_entry-IsInside v,
  entries_from-All (length v) v 0 no_entry,
  λ fuel h. entries_from_fuel fuel (length v) v 0 no_entry (omega arith) (omega arith),
)
