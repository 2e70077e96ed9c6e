-- ===== src/Decor/Text/Utf8.antt =====
-- decor.c's utf8_next reads what UTF-8 writes, and always goes on.
use sg_compositor.Prelude.{
  ℕ, zero, suc, ◌+◌, ◌/◌, ◌%◌, ◌≤◌, ◌<◌, ◌≡◌, refl, ap, if_cases, [], ◌∷◌, ◌++◌, arith, ltb,
  if◌then◌else◌, length, Bytes,
}
use sg_compositor.Decor.Text.{
  is_continuation, continue_char, extra_bytes, lead_bits, utf8_next, Font, char_width, width_from,
  text_width,
}

-- The standard's encoding of a code point.
abbrev pub lead : ℕ → ℕ
lead c =
    if ltb c 0x80
    then c
    else if ltb c 0x800
    then 0xc0 + c / 64
    else if ltb c 0x10000
    then 0xe0 + c / 4096
    else 0xf0 + c / 262144

abbrev pub tail : ℕ → Bytes
tail c =
    let last = 0x80 + c % 64 in
    let middle = 0x80 + c / 64 % 64 in
    let second = 0x80 + c / 4096 % 64 in
    if ltb c 0x80
    then []
    else if ltb c 0x800
    then last ∷ []
    else if ltb c 0x10000
    then middle ∷ last ∷ []
    else second ∷ middle ∷ last ∷ []

-- utf8_next reads from the UTF-8 encoding of a code point, with any bytes after it, that code
-- point and leaves those bytes.
pub utf8_next-encode :
    (c : ℕ) (s : Bytes) → c < 0x110000 → utf8_next (lead c) (tail c ++ s) ≡ (c, s)
unfolding utf8_next continue_char extra_bytes lead_bits
utf8_next-encode c s h = ground arith

length-continue_char : (e c : ℕ) (s : Bytes) → length (continue_char e c s).1 ≤ length s
unfolding continue_char
length-continue_char zero c s = omega arith
length-continue_char (suc e) c [] = omega arith
length-continue_char (suc e) c (b ∷ s) =
    if_cases (λ (r : ℕ × Bytes). length r.1 ≤ suc (length s)) (is_continuation b)
      (λ _. omega (arith, length-continue_char e _ s)) (λ _. omega arith)

same_width :
    (f : Font) (j k n : ℕ) (s : Bytes)
    → length s ≤ j
    → length s ≤ k
    → width_from f j n s ≡ width_from f k n s
unfolding width_from utf8_next
same_width f zero zero n s p q = refl
same_width f zero (suc k) zero s p q = refl
same_width f zero (suc k) (suc n) [] p q = refl
same_width f zero (suc k) (suc n) (b ∷ s) p q = absurd (omega arith)
same_width f (suc j) zero zero s p q = refl
same_width f (suc j) zero (suc n) [] p q = refl
same_width f (suc j) zero (suc n) (b ∷ s) p q = absurd (omega arith)
same_width f (suc j) (suc k) zero s p q = refl
same_width f (suc j) (suc k) (suc n) [] p q = refl
same_width f (suc j) (suc k) (suc n) (b ∷ s) p q =
    let r = utf8_next b s in
    let left = length-continue_char (extra_bytes b) (lead_bits (extra_bytes b) b) s in
    ap (λ w. char_width f r.0 + w)
      (same_width f j k _ r.1 (omega (arith, left)) (omega (arith, left)))

-- Each call leaves fewer bytes than it finds, so the loop of text_width ends.
pub width_from_fuel :
    (f : Font) (fuel n : ℕ) (s : Bytes) → length s ≤ fuel → width_from f fuel n s ≡ text_width f s n
unfolding text_width
width_from_fuel f fuel n s h = same_width f fuel (length s) n s h (omega arith)
