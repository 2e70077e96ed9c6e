-- ===== src/Decor/Icon.antt =====
-- decor.c: the program's icon: its entry in _NET_WM_ICON, boxed down to 16 x 16, over the bar.
pub mod Choice
pub mod Scaled
pub mod Placed
use sg_compositor.Prelude.{
  ℕ, zero, suc, ◌+◌, ◌-◌, ◌*◌, ◌/◌, ◌%◌, ◌^◌, ◌≤◌, Bool, true, false, not, ◌&&◌, ◌||◌, List, [],
  ◌∷◌, Option, none, some, ltb, leb, ◌==◌, if◌then◌else◌, ℤ, pos, negsuc, sub_ℕ, div_ℤ, ◌+ℤ◌,
  get_elem?, length, store, ◌>>=◌,
}
use sg_compositor.Decor.Pixels.{alpha_of, channel, argb}
use sg_compositor.Decor.Conf.{Conf, decor_title_h, body_w, px8}

abbrev pub icon_px : ℕ
icon_px = 16

-- best, bw and bh of fetch_icon; no entry yet: bw is 0.
pub record Entry : Type 0 where
  pub best : ℕ
  pub bw : ℕ
  pub bh : ℕ

unfoldable pub is_better : ℕ → ℕ → Bool
is_better w bw =
    bw == 0 || (leb icon_px w && (ltb bw icon_px || ltb w bw)) || (ltb bw icon_px && ltb bw w)

unfoldable pub is_entry : (v : List ℕ) → (i w h : ℕ) → Bool
is_entry v i w h =
    not (w == 0) && not (h == 0) && leb w 1024 && leb h 1024 && leb (i + 2 + w * h) (length v)

-- v[i], where i is in range.
abbrev pub word : List ℕ → ℕ → ℕ
word [] i = 0
word (x ∷ v) zero = x
word (x ∷ v) (suc i) = word v i

-- The loop over the property's values; an entry is a width, a height and its pixels.
unfoldable pub entries_from : ℕ → List ℕ → ℕ → Entry → Entry
unfolding is_better is_entry
entries_from zero v i e = e
entries_from (suc fuel) v i e =
    let w = word v i in
    let h = word v (i + 1) in
    let taken : Entry = if is_better w e.bw then record { best = i; bw = w; bh = h } else e in
    let rest = entries_from fuel v (i + 2 + w * h) taken in
    if leb (i + 2) (length v) && is_entry v i w h then rest else e

abbrev pub no_entry : Entry
no_entry = record { best = 0; bw = 0; bh = 0 }

unfoldable pub best_entry : List ℕ → Entry
unfolding entries_from
best_entry v = entries_from (length v) v 0 no_entry

-- cnt, sa, sr, sg and sb
pub record Sums : Type 0 where
  pub cnt : ℕ
  pub sa : ℕ
  pub sr : ℕ
  pub sg : ℕ
  pub sb : ℕ

unfoldable pub add_pixel : ℕ → Sums → Sums
add_pixel p s =
    let a = alpha_of p in
    record {
      cnt = s.cnt + 1;
      sa = s.sa + a;
      sr = s.sr + channel 16 p * a / 255;
      sg = s.sg + channel 8 p * a / 255;
      sb = s.sb + channel 0 p * a / 255;
    }

-- The loops over the source pixels of one pixel of the icon.
unfoldable pub sum_row : (v : List ℕ) → (row : ℕ) → (rounds : ℕ) → (xx : ℕ) → Sums → Option Sums
unfolding add_pixel
sum_row v row zero xx s = some s
sum_row v row (suc n) xx s =
    get_elem? v (row + xx) >>= λ p. sum_row v row n (xx + 1) (add_pixel p s)

unfoldable pub sum_rows :
    (v : List ℕ) → (px bw : ℕ) → (x0 columns : ℕ) → (rounds : ℕ) → (yy : ℕ) → Sums → Option Sums
unfolding sum_row
sum_rows v px bw x0 m zero yy s = some s
sum_rows v px bw x0 m (suc n) yy s =
    sum_row v (px + yy * bw) m x0 s >>= sum_rows v px bw x0 m n (yy + 1)

-- From the k-th of 16 parts of a length to the next one; at least one pixel.
abbrev pub part_start : ℕ → ℕ → ℕ
part_start k len = k * len / icon_px

abbrev pub part_end : ℕ → ℕ → ℕ
part_end k len =
    let a = k * len / icon_px in let b = (k + 1) * len / icon_px in if leb b a then a + 1 else b

abbrev pub part_length : ℕ → ℕ → ℕ
part_length k len = let b = part_end k len in (if leb b len then b else len) - part_start k len

abbrev pub no_sums : Sums
no_sums = record { cnt = 0; sa = 0; sr = 0; sg = 0; sb = 0 }

unfoldable pub average : Sums → ℕ
unfolding argb
average s =
    if s.cnt == 0 then 0 else argb (s.sa / s.cnt) (s.sr / s.cnt) (s.sg / s.cnt) (s.sb / s.cnt)

-- The pixel (x, y) of the icon; `none`: a read outside the property's values.
unfoldable pub icon_pixel : List ℕ → Entry → (x y : ℕ) → Option ℕ
unfolding sum_rows average
icon_pixel v e x y =
    sum_rows v (e.best + 2) e.bw (part_start x e.bw) (part_length x e.bw) (part_length y e.bh)
      (part_start y e.bh) no_sums
    >>= λ s. some (average s)

-- The loops over the icon's pixels, row after row.
unfoldable pub icon_pixels : List ℕ → Entry → (rounds k : ℕ) → Option (List ℕ)
unfolding icon_pixel
icon_pixels v e zero k = some []
icon_pixels v e (suc n) k = icon_pixel v e (k % icon_px) (k / icon_px) >>= λ p.
    icon_pixels v e n (k + 1) >>= λ rest. some (p ∷ rest)

-- The icon's part of struct cg_decor.
pub record Icon : Type 0 where
  pub pixels : List ℕ
  pub has_icon : Bool
  pub icon_tries : ℕ

unfoldable pub take_icon : List ℕ → Entry → Icon → Option Icon
take_icon v e i =
    if e.bw == 0
    then some i
    else (icon_pixels v e (icon_px * icon_px) 0 >>= λ ps.
        some (record i { pixels = ps; has_icon = true }))

-- fetch_icon, with the X server's answer: the property's values, unless there is no connection, atom
-- or reply.
unfoldable pub fetch_icon : (xwayland : Bool) → Option (List ℕ) → Icon → Option Icon
fetch_icon xwayland reply i =
    if i.has_icon || leb 8 i.icon_tries || not xwayland
    then some i
    else read reply (record i { icon_tries = i.icon_tries + 1 })
  where
    read : Option (List ℕ) → Icon → Option Icon
    read none i = some i
    read (some v) i = take_icon v (best_entry v) i

-- The row of the bar where the icon begins: it may lie above the bar.
unfoldable pub icon_y : Conf → ℤ
unfolding decor_title_h body_w
icon_y c = pos (body_w c) +ℤ div_ℤ (sub_ℕ (decor_title_h c) (body_w c + icon_px)) 2

unfoldable pub icon_x : Conf → ℕ
unfolding body_w px8
icon_x c = body_w c + px8 c 7

-- One channel of the icon, premultiplied, over the bar's.
unfoldable pub over_channel : (a s b : ℕ) → ℕ
over_channel a s b = let v = s + b * (255 - a) / 255 in if ltb 255 v then 255 else v

unfoldable pub over_pixel : (s b : ℕ) → ℕ
unfolding over_channel argb
over_pixel s b =
    let a = alpha_of s in
    argb 255 (over_channel a (channel 16 s) (channel 16 b))
      (over_channel a (channel 8 s) (channel 8 b)) (over_channel a (channel 0 s) (channel 0 b))

-- p->data[y * w + x]; a row above the bar is before the array, since x < w.
unfoldable pub over_at : (w : ℕ) → (y : ℤ) → (x s : ℕ) → List ℕ → Option (List ℕ)
unfolding over_pixel
over_at w (negsuc y) x s d = none
over_at w (pos y) x s d = get_elem? d (y * w + x) >>= λ b. store (y * w + x) (over_pixel s b) d

unfoldable pub over_row :
    (w : ℕ) → (y : ℤ) → (ix : ℕ) → (icon : List ℕ) → (rounds k x : ℕ) → List ℕ → Option (List ℕ)
unfolding over_at
over_row w y ix icon zero k x d = some d
over_row w y ix icon (suc n) k x d =
    if ltb (ix + x) w
    then (over_at w y (ix + x) (word icon (k + x)) d >>= over_row w y ix icon n k (x + 1))
    else some d

unfoldable pub over_rows :
    (w : ℕ) → (iy : ℤ) → (ix : ℕ) → (icon : List ℕ) → (rounds y : ℕ) → List ℕ → Option (List ℕ)
over_rows w iy ix icon zero y d = some d
over_rows w iy ix icon (suc n) y d =
    over_row w (iy +ℤ pos y) ix icon icon_px (y * icon_px) 0 d >>= over_rows w iy ix icon n (y + 1)

-- render, where the bar has an icon.
unfoldable pub render_icon : Conf → (w : ℕ) → (icon : List ℕ) → List ℕ → Option (List ℕ)
unfolding icon_x icon_y over_rows
render_icon c w icon d = over_rows w (icon_y c) (icon_x c) icon icon_px 0 d
