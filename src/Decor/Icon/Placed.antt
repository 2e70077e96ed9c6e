-- ===== src/Decor/Icon/Placed.antt =====
-- decor.c: where render draws the icon in the bar.
use sg_compositor.Prelude.{
  ℕ, zero, suc, ◌+◌, ◌-◌, ◌*◌, ◌/◌, ◌≤◌, ◌<◌, ◌≡◌, refl, ◌&&◌, ap, get_elem?_past, pos_add, ◌∙◌,
  ◌↔◌, true, ◌⊎◌, inl, inr, Option, none, List, arith, ltb, leb, if_cases, Option-cases, Bool-cases,
  is_some, ℤ, pos, negsuc, ◌+ℤ◌, div_ℤ, length, length-set, set, store, get_elem?, get_elem?_total,
  ◌>>=◌,
}
use sg_compositor.Decor.Conf.{Conf, decor_title_h, body_w}
use sg_compositor.Decor.Conf.Bounds.{IsBounded}
use sg_compositor.Decor.Pixels.Bounds.{Sized, store-Sized, index_lt}
use sg_compositor.Decor.Icon.{
  icon_px, word, icon_x, icon_y, over_pixel, over_at, over_row, over_rows, render_icon,
}

over_at-Sized :
    (w h y x s : ℕ) (d : List ℕ)
    → length d ≡ w * h
    → x < w
    → y < h
    → Sized (w * h) (over_at w (pos y) x s d)
unfolding over_at
over_at-Sized w h y x s d e hx hy =
    let lt = index_lt x y w h hx hy in
    let r = get_elem?_total d (y * w + x) (omega (arith, lt, e)) in
    rw r.1 (store-Sized (w * h) (y * w + x) (over_pixel s r.0) d e lt)

over_row-Sized :
    (w h y ix : ℕ) (icon : List ℕ) (n k x : ℕ) (d : List ℕ)
    → length d ≡ w * h
    → y < h
    → Sized (w * h) (over_row w (pos y) ix icon n k x d)
unfolding over_row
over_row-Sized w h y ix icon zero k x d e hy = (d, refl, e)
over_row-Sized w h y ix icon (suc n) k x d e hy =
    if_cases (Sized (w * h)) (ltb (ix + x) w)
      (λ t.
        let r = over_at-Sized w h y (ix + x) (word icon (k + x)) d e (ground (arith, t)) hy in
        rw r.1 (over_row-Sized w h y ix icon n k (x + 1) r.0 r.2 hy))
      (λ _. (d, refl, e))

over_rows-Sized :
    (w h iy ix : ℕ) (icon : List ℕ) (n y : ℕ) (d : List ℕ)
    → length d ≡ w * h
    → iy + y + n ≤ h
    → Sized (w * h) (over_rows w (pos iy) ix icon n y d)
unfolding over_rows
over_rows-Sized w h iy ix icon zero y d e q = (d, refl, e)
over_rows-Sized w h iy ix icon (suc n) y d e q =
    let r = over_row-Sized w h (iy + y) ix icon icon_px (y * icon_px) 0 d e (omega arith) in
    rw (pos_add iy y, r.1) (over_rows-Sized w h iy ix icon n (y + 1) r.0 r.2 (omega arith))

-- Out of range, or of the same size.
abbrev Kept : ℕ → Option (List ℕ) → Type 0
Kept n r = (r ≡ none) ⊎ Sized n r

store-Kept : (n i v : ℕ) (d : List ℕ) → length d ≡ n → Kept n (store i v d)
unfolding store
store-Kept n i v d e =
    if_cases (Kept n) (ltb i (length d)) (λ _. inr (set d i v, refl, length-set d i v ∙ e))
      (λ _. inl refl)

over_at-Kept : (w n : ℕ) (y : ℤ) (x s : ℕ) (d : List ℕ) → length d ≡ n → Kept n (over_at w y x s d)
unfolding over_at
over_at-Kept w n (negsuc y) x s d e = inl refl
over_at-Kept w n (pos y) x s d e = elim (Option-cases (get_elem? d (y * w + x))) [
  | inl r ↦ inl (rw r refl)
  | inr (b, r) ↦ rw r (store-Kept n (y * w + x) (over_pixel s b) d e)
]

then-Kept :
    (n : ℕ) (r : Option (List ℕ)) (f : List ℕ → Option (List ℕ))
    → Kept n r
    → ((d : List ℕ) → length d ≡ n → Kept n (f d))
    → Kept n (r >>= f)
then-Kept n r f (inl e) k = inl (rw e refl)
then-Kept n r f (inr (d, e, l)) k = rw e (k d l)

over_row-Kept :
    (w m : ℕ) (y : ℤ) (ix : ℕ) (icon : List ℕ) (n k x : ℕ) (d : List ℕ)
    → length d ≡ m
    → Kept m (over_row w y ix icon n k x d)
unfolding over_row
over_row-Kept w m y ix icon zero k x d e = inr (d, refl, e)
over_row-Kept w m y ix icon (suc n) k x d e =
    if_cases (Kept m) (ltb (ix + x) w)
      (λ _.
        then-Kept m (over_at w y (ix + x) (word icon (k + x)) d) (over_row w y ix icon n k (x + 1))
          (over_at-Kept w m y (ix + x) _ d e) (λ d'. over_row-Kept w m y ix icon n k (x + 1) d'))
      (λ _. inr (d, refl, e))

over_row_below :
    (w h y ix : ℕ) (icon : List ℕ) (n k : ℕ) (d : List ℕ)
    → length d ≡ w * h
    → ix < w
    → h ≤ y
    → over_row w (pos y) ix icon (suc n) k 0 d ≡ none
unfolding over_row over_at
over_row_below w h y ix icon n k d e q p =
    let far : w * h ≤ y * w + ix = grind arith in
    ground (arith, get_elem?_past d (y * w + ix) (omega (arith, e, far)))

-- A row of the icon below the bar is not drawn within the array.
over_rows_below :
    (w h : ℕ) (iy : ℤ) (ix : ℕ) (icon : List ℕ) (n y r : ℕ) (d : List ℕ)
    → length d ≡ w * h
    → ix < w
    → iy +ℤ pos (y + n) ≡ pos r
    → h ≤ r
    → over_rows w iy ix icon (suc n) y d ≡ none
unfolding over_rows
over_rows_below w h iy ix icon zero y r d e q s p =
    let here : iy +ℤ pos y ≡ pos r = ap (λ k. iy +ℤ pos k) (omega arith) ∙ s in
    rw here (
      ap (λ o. o >>= over_rows w iy ix icon 0 (y + 1))
        (over_row_below w h r ix icon 15 (y * icon_px) d e q p))
over_rows_below w h iy ix icon (suc n) y r d e q s p =
    elim (over_row-Kept w (w * h) (iy +ℤ pos y) ix icon icon_px (y * icon_px) 0 d e) [
      | inl t ↦ rw t refl
      | inr (d', t, l) ↦ rw t (
          over_rows_below w h iy ix icon n (y + 1) r d' l q
            (ap (λ k. iy +ℤ pos k) (omega arith) ∙ s) p)
    ]

is_some_iff : (n : ℕ) (r : Option (List ℕ)) → Sized n r → is_some r ≡ true
is_some_iff n r h = rw h.1 refl

-- The icon has room in the bar, or its last row falls below it.
room :
    (c : Conf)
    → IsBounded c
    → ((c.caption ≡ 0) ⊎ (16 ≤ c.caption))
    → (y : ℕ) × (icon_y c ≡ pos y) × (y + 16 ≤ decor_title_h c)
unfolding icon_y decor_title_h body_w ◌+ℤ◌ div_ℤ
room c b (inl e) = (8, ground (arith, e), ground (arith, e))
room c b (inr h) = (body_w c + (c.caption - 16) / 2, ground (arith, h, b.3), ground (arith, h, b.3))

no_room :
    (c : Conf)
    → IsBounded c
    → 0 < c.caption
    → c.caption < 16
    → (r : ℕ) × (icon_y c +ℤ pos 15 ≡ pos r) × (decor_title_h c ≤ r)
unfolding icon_y decor_title_h body_w ◌+ℤ◌ div_ℤ
no_room c b p h =
    (body_w c + 15 - (16 - c.caption) / 2, ground (arith, b.3, b.0), ground (arith, b.3, b.0))

-- With a conf in its ranges, pixels of the bar's size and a bar wide enough to begin the icon in,
-- drawing the icon stays within the pixels exactly if the caption's height is not set or at least
-- 16.
pub render_icon_iff :
    (c : Conf) (w : ℕ) (icon d : List ℕ)
    → IsBounded c
    → length d ≡ w * decor_title_h c
    → icon_x c < w
    → (is_some (render_icon c w icon d) ≡ true) ↔ ((c.caption ≡ 0) ⊎ (16 ≤ c.caption))
unfolding render_icon
render_icon_iff c w icon d b e wide = (room_given, drawn)
  where
    drawn :
        ((c.caption ≡ 0) ⊎ (16 ≤ c.caption))
        → is_some (over_rows w (icon_y c) (icon_x c) icon icon_px 0 d) ≡ true
    drawn h =
        let r = room c b h in
        rw r.1 (
          is_some_iff _ _ (
            over_rows-Sized w (decor_title_h c) r.0 (icon_x c) icon icon_px 0 d e
              (omega (arith, r.2))))

    room_given :
        is_some (over_rows w (icon_y c) (icon_x c) icon icon_px 0 d) ≡ true
        → (c.caption ≡ 0) ⊎ (16 ≤ c.caption)
    room_given h = elim (Bool-cases (leb 1 c.caption && ltb c.caption 16)) [
      | inl t ↦
          let r = no_room c b (ground (arith, t)) (ground (arith, t)) in
          let n =
            over_rows_below w (decor_title_h c) (icon_y c) (icon_x c) icon 15 0 r.0 d e wide r.1
              r.2 in
          absurd (cc (h, n))
      | inr t ↦ ground (arith, t)
    ]
