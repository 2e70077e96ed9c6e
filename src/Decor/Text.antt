-- ===== src/Decor/Text.antt =====
-- decor.c: the title's text, its width, and how much of it is drawn.
pub mod Utf8
pub mod Cut
use sg_compositor.Prelude.{
  ℕ, zero, suc, ◌+◌, ◌-◌, ◌*◌, ◌/◌, ◌%◌, ◌^◌, Bool, true, false, not, ◌&&◌, ◌||◌, List, [], ◌∷◌,
  Option, none, some, ltb, leb, ◌==◌, if◌then◌else◌, length, is_empty, ℤ, pos, negsuc, Bytes, codes,
}

abbrev pub is_continuation : ℕ → Bool
is_continuation b = b / 64 == 2

-- while (extra-- && (*p & 0xc0) == 0x80); c is a uint32_t. The end of the text is its terminator.
unfoldable pub continue_char : ℕ → ℕ → Bytes → ℕ × Bytes
continue_char zero c s = (c, s)
continue_char (suc extra) c [] = (c, [])
continue_char (suc extra) c (b ∷ s) =
    let rest = continue_char extra ((c * 64 + b % 64) % 2 ^ 32) s in
    if is_continuation b then rest else (c, b ∷ s)

unfoldable pub extra_bytes : ℕ → ℕ
extra_bytes b = if leb 0xf0 b then 3 else if leb 0xe0 b then 2 else if leb 0xc0 b then 1 else 0

-- c &= 0x3f >> extra, a mask of low bits, if there are extra bytes
unfoldable pub lead_bits : ℕ → ℕ → ℕ
lead_bits zero b = b
lead_bits (suc e) b = b % 2 ^ (6 - suc e)

-- utf8_next: the character at the start of the text b ∷ s, and what follows it.
unfoldable pub utf8_next : ℕ → Bytes → ℕ × Bytes
unfolding continue_char extra_bytes lead_bits
utf8_next b s = continue_char (extra_bytes b) (lead_bits (extra_bytes b) b) s

-- FT_Load_Char with the face at its size: the glyph's advance.x, if it loads.
pub record Font : Type 0 where
  pub load_char : ℕ → Option ℕ
  pub bold : Bool

unfoldable pub char_width : Font → ℕ → ℕ
char_width f c = advance (f.load_char c)
  where
    advance : Option ℕ → ℕ
    advance none = 0
    advance (some x) = x / 64 + (if f.bold then 1 else 0)

-- text_width (s, n): the characters that start in the first n bytes.
pub width_from : Font → ℕ → ℕ → Bytes → ℕ
unfolding utf8_next char_width
width_from f zero n s = 0
width_from f (suc fuel) zero s = 0
width_from f (suc fuel) (suc n) [] = 0
width_from f (suc fuel) (suc n) (b ∷ s) =
    let r = utf8_next b s in
    char_width f r.0 + width_from f fuel (suc n - (suc (length s) - length r.1)) r.1

unfoldable pub text_width : Font → Bytes → ℕ → ℕ
unfolding width_from
text_width f s n = width_from f (length s) n s

-- title[n] is a continuation byte
unfoldable pub inside_char : Bytes → ℕ → Bool
inside_char [] n = false
inside_char (b ∷ s) zero = is_continuation b
inside_char (b ∷ s) (suc n) = inside_char s n

-- do n--; while (n > 0 && title[n] is a continuation byte)
unfoldable pub step_back : Bytes → ℕ → ℕ
unfolding inside_char
step_back s zero = 0
step_back s (suc n) =
    let rest = step_back s n in if not (n == 0) && inside_char s n then rest else n

-- The loop that shortens the title; `dots` is the width of "...".
unfoldable pub shorten : Font → Bytes → ℕ → ℕ → ℕ → ℕ → ℕ
unfolding text_width step_back
shorten f s dots room zero n = n
shorten f s dots room (suc fuel) n =
    let rest = shorten f s dots room fuel (step_back s n) in
    if not (n == 0) && ltb room (text_width f s n + dots) then rest else n

-- The bytes of the title that are drawn, and whether "..." follows them.
pub record Drawn : Type 0 where
  pub bytes : ℕ
  pub dotted : Bool

-- draw_title, in the room there is; `none` draws nothing.
unfoldable pub draw_title : (font : Option Font) → Bytes → ℤ → Option Drawn
unfolding text_width shorten
draw_title none s room = none
draw_title (some f) s (negsuc n) = none
draw_title (some f) s (pos room) =
    let n = length s in
    let dots = text_width f (codes "...") 3 in
    if is_empty s || room == 0
    then none
    else if leb (text_width f s n) room
    then some (record { bytes = n; dotted = false })
    else some (record { bytes = shorten f s dots room n n; dotted = true })
