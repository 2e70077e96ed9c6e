-- ===== src/Decor/Conf/Lines.antt =====
-- The lines that fgets reads from effects.conf into its buffer of 256 bytes.
use sg_compositor.Prelude.{
  ℕ, zero, suc, ◌≤◌, ◌≡◌, refl, ap, ◌∙◌, List, [], ◌∷◌, ◌++◌, arith, ◌==◌, if◌then◌else◌, All,
  length, Bytes,
}

abbrev newline : ℕ
newline = 10

-- fgets (line, n + 1, f): what it reads and what it leaves.
pub fgets : ℕ → Bytes → Bytes × Bytes
fgets zero s = ([], s)
fgets (suc n) [] = ([], [])
fgets (suc n) (b ∷ s) =
    let rest = fgets n s in if b == newline then (b ∷ [], s) else (b ∷ rest.0, rest.1)

abbrev max_line : ℕ
max_line = 255

-- The loop, until the file is at its end.
pub lines_from : ℕ → Bytes → List Bytes
lines_from zero s = []
lines_from (suc fuel) [] = []
lines_from (suc fuel) (b ∷ s) = let r = fgets max_line (b ∷ s) in r.0 ∷ lines_from fuel r.1

unfoldable pub read_lines : Bytes → List Bytes
unfolding lines_from fgets
read_lines s = lines_from (length s) s

abbrev pub join : List Bytes → Bytes
join [] = []
join (l ∷ ls) = l ++ join ls

fgets-append : (n : ℕ) (s : Bytes) → (fgets n s).0 ++ (fgets n s).1 ≡ s
unfolding fgets
fgets-append zero s = refl
fgets-append (suc n) [] = refl
fgets-append (suc n) (b ∷ s) = ground (arith, fgets-append n s)

length-fgets : (n : ℕ) (s : Bytes) → length (fgets n s).0 ≤ n
unfolding fgets
length-fgets zero s = omega arith
length-fgets (suc n) [] = omega arith
length-fgets (suc n) (b ∷ s) = ground (arith, length-fgets n s)

fgets_advances : (n b : ℕ) (s : Bytes) → length (fgets (suc n) (b ∷ s)).1 ≤ length s
unfolding fgets
fgets_advances n b s = ground (arith, left n s)
  where
    left : (n : ℕ) (s : Bytes) → length (fgets n s).1 ≤ length s
    left zero s = omega arith
    left (suc n) [] = omega arith
    left (suc n) (b ∷ s) = ground (arith, left n s)

lines_from_lem :
    (fuel : ℕ) (s : Bytes)
    → length s ≤ fuel
    → (join (lines_from fuel s) ≡ s) × All (λ l. (length l ≤ max_line)) (lines_from fuel s)
unfolding lines_from
lines_from_lem zero [] h = (refl, tt)
lines_from_lem zero (b ∷ s) h = absurd (omega arith)
lines_from_lem (suc fuel) [] h = (refl, tt)
lines_from_lem (suc fuel) (b ∷ s) h =
    let rest = lines_from_lem fuel _ (omega (arith, fgets_advances 254 b s)) in
    (
      ap (λ r. (fgets max_line (b ∷ s)).0 ++ r) rest.0 ∙ fgets-append max_line (b ∷ s),
      (length-fgets max_line (b ∷ s), rest.1),
    )

-- The loop reads the whole file, however long its lines are.
read_lines_lem :
    (s : Bytes) → (join (read_lines s) ≡ s) × All (λ l. (length l ≤ max_line)) (read_lines s)
unfolding read_lines
read_lines_lem s = lines_from_lem (length s) s (omega arith)
