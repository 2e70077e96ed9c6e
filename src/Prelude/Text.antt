-- ===== src/Prelude/Text.antt =====
-- Text as a list of bytes, and what the sources use of string.h and stdlib.h on it.
use Prim.Native.Nat.{ℕ, ◌+◌, ◌-◌, ◌*◌, ◌^◌}
use Prim.Native.Char.{code}
use Prim.Native.String.{String}
use mathlib.Core.Bool.{Bool, true, false, ◌&&◌, ◌||◌}
use mathlib.Core.List.{List, [], ◌∷◌}
use mathlib.Core.Option.{Option, none, some}
use sg_compositor.Prelude.Tests.{ltb, leb, ◌==◌, if◌then◌else◌}
use sg_compositor.Prelude.Int.{ℤ, signed32}

abbrev pub Bytes : Type 0
Bytes = List ℕ

abbrev pub codes : String → Bytes
codes String.[] = []
codes (String.◌∷◌ c s) = code c ∷ codes s

-- What is before the terminator.
abbrev pub c_string : Bytes → Bytes
c_string [] = []
c_string (b ∷ bs) = let rest = c_string bs in if b == 0 then [] else b ∷ rest

-- strcmp (s, t) == 0
abbrev pub same_bytes : Bytes → Bytes → Bool
same_bytes [] [] = true
same_bytes (a ∷ s) (b ∷ t) = if a == b then same_bytes s t else false
same_bytes _ _ = false

-- strncmp (s, p, strlen (p)) == 0
abbrev pub starts_with : Bytes → Bytes → Bool
starts_with s [] = true
starts_with [] (b ∷ p) = false
starts_with (a ∷ s) (b ∷ p) = if a == b then starts_with s p else false

-- strchr (s, c), and what is before it: none if there is no c.
abbrev pub split_at : ℕ → Bytes → Option (Bytes × Bytes)
split_at c [] = none
split_at c (b ∷ bs) =
    let rest = split_at c bs in if b == c then some ([], bs) else with_first b rest
  where
    with_first : ℕ → Option (Bytes × Bytes) → Option (Bytes × Bytes)
    with_first b none = none
    with_first b (some r) = some (b ∷ r.0, r.1)

abbrev is_space : ℕ → Bool
is_space b = b == 32 || (leb 9 b && leb b 13)

abbrev is_digit : ℕ → Bool
is_digit b = leb 48 b && leb b 57

abbrev digits_from : ℕ → Bytes → ℕ
digits_from acc [] = acc
digits_from acc (b ∷ bs) =
    let rest = digits_from (acc * 10 + (b - 48)) bs in if is_digit b then rest else acc

-- strtol's value stops at the ends of a 64-bit long; atoi keeps its low 32 bits.
abbrev positive : Bytes → ℤ
positive s = let n = digits_from 0 s in signed32 (if ltb n (2 ^ 63) then n else 2 ^ 63 - 1)

abbrev negative : Bytes → ℤ
negative s = let n = digits_from 0 s in signed32 (2 ^ 64 - (if ltb n (2 ^ 63) then n else 2 ^ 63))

abbrev pub atoi : Bytes → ℤ
atoi [] = positive []
atoi (b ∷ bs) =
    let rest = atoi bs in
    if is_space b
    then rest
    else if b == 43
    then positive bs
    else if b == 45
    then negative bs
    else positive (b ∷ bs)
