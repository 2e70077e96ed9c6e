-- ===== src/Decor/Pixels.antt =====
-- decor.c: drawing into the bar's pixels, w in a row and bar_h rows. A pixel is a 32-bit word; a read
-- or a write outside the array gives `none`.
pub mod Bounds
pub mod Blending
use sg_compositor.Prelude.{
  ℕ, zero, suc, ◌+◌, ◌-◌, ◌*◌, ◌/◌, ◌%◌, ◌^◌, ◌≤◌, Bool, true, false, not, ◌&&◌, ◌||◌, List, [],
  ◌∷◌, Option, none, some, ltb, leb, ◌==◌, if◌then◌else◌, ℤ, pos, pos_part, leb_ℤ, ltb_ℤ, get_elem?,
  store, ◌>>=◌,
}

abbrev least : ℕ → ℕ → ℕ
least a b = if leb a b then a else b

-- The fields of a pixel, a word of 32 bits: c >> 24, (c >> 16) & 0xff, (c >> 8) & 0xff and c & 0xff.
abbrev pub alpha_of : ℕ → ℕ
alpha_of c = c / 2 ^ 24 % 256

abbrev pub channel : ℕ → ℕ → ℕ
channel s c = c / 2 ^ s % 256

-- a << 24 | r << 16 | g << 8 | b of bytes, whose bits do not overlap.
unfoldable pub argb : ℕ → ℕ → ℕ → ℕ → ℕ
argb a r g b = a * 2 ^ 24 + r * 2 ^ 16 + g * 2 ^ 8 + b

-- The inner loop of fill, from x on; so many rounds are left.
fill_row : ℕ → ℕ → ℕ → ℕ → ℕ → List ℕ → Option (List ℕ)
fill_row w y color zero x d = some d
fill_row w y color (suc n) x d = store (y * w + x) color d >>= fill_row w y color n (x + 1)

fill_rows : ℕ → (x rounds color : ℕ) → ℕ → ℕ → List ℕ → Option (List ℕ)
unfolding fill_row
fill_rows w x m color zero y d = some d
fill_rows w x m color (suc n) y d = fill_row w y color m x d >>= fill_rows w x m color n (y + 1)

unfoldable pub fill : (w bar_h : ℕ) → (x0 y0 x1 y1 : ℤ) → (color : ℕ) → List ℕ → Option (List ℕ)
unfolding fill_rows
fill w bar_h x0 y0 x1 y1 color d =
    fill_rows w (pos_part x0) (least (pos_part x1) w - pos_part x0) color
      (least (pos_part y1) bar_h - pos_part y0) (pos_part y0) d

abbrev pub in_bar : (w bar_h : ℕ) → ℤ → ℤ → Bool
in_bar w bar_h x y = leb_ℤ (pos 0) x && ltb_ℤ x (pos w) && leb_ℤ (pos 0) y && ltb_ℤ y (pos bar_h)

unfoldable pub put : (w bar_h : ℕ) → (x y : ℤ) → (color : ℕ) → List ℕ → Option (List ℕ)
put w bar_h x y color d =
    if in_bar w bar_h x y then store (pos_part y * w + pos_part x) color d else some d

-- One channel of blend: all is unsigned.
unfoldable pub blend_channel : ℕ → ℕ → ℕ → ℕ
blend_channel cover a b = (a * cover + b * (255 - cover)) / 255

unfoldable pub blend_pixel : (color cover bg : ℕ) → ℕ
unfolding blend_channel argb
blend_pixel color cover bg =
    argb 255 (blend_channel cover (channel 16 color) (channel 16 bg))
      (blend_channel cover (channel 8 color) (channel 8 bg))
      (blend_channel cover (channel 0 color) (channel 0 bg))

unfoldable pub blend : (w bar_h : ℕ) → (x y : ℤ) → (color cover : ℕ) → List ℕ → Option (List ℕ)
unfolding blend_pixel
blend w bar_h x y color cover d =
    let i = pos_part y * w + pos_part x in
    if not (in_bar w bar_h x y) || cover == 0
    then some d
    else (get_elem? d i >>= λ bg. store i (blend_pixel color cover bg) d)

-- A colour at a place in a look's gradient, in thousandths of the height.
pub record Stop : Type 0 where
  pub pos : ℕ
  pub c : ℕ

-- ca + (cb - ca) * t / span on ints, which rounds towards ca.
unfoldable pub between : (t span ca cb : ℕ) → ℕ
between t span ca cb = if leb ca cb then ca + (cb - ca) * t / span else ca - (ca - cb) * t / span

unfoldable pub mix : (t span a b : ℕ) → ℕ
unfolding between argb
mix t span a b =
    argb 255 (between t span (channel 16 a) (channel 16 b))
      (between t span (channel 8 a) (channel 8 b)) (between t span (channel 0 a) (channel 0 b))

-- The loop over the stops; the last one's colour is what is left.
unfoldable pub colour_at : ℕ → Stop → List Stop → ℕ
unfolding mix
colour_at p last [] = 255 * 2 ^ 24 + last.c
colour_at p here (next ∷ rest) =
    let onward = colour_at p next rest in
    if leb p next.pos && ltb here.pos next.pos
    then mix (p - here.pos) (next.pos - here.pos) here.c next.c
    else onward

unfoldable pub gradient : Stop → List Stop → (y h : ℕ) → ℕ
unfolding colour_at
gradient first rest y h = colour_at (if ltb 1 h then y * 1000 / (h - 1) else 0) first rest
