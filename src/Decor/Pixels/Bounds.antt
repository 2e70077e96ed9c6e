-- ===== src/Decor/Pixels/Bounds.antt =====
-- The accesses of decor.c's drawing.
use sg_compositor.Prelude.{
  ℕ, zero, suc, ◌+◌, ◌-◌, ◌*◌, ◌≤◌, ◌<◌, ◌≡◌, refl, ◌∙◌, true, not, ◌||◌, Option, some, List, [],
  ◌∷◌, arith, ◌==◌, if_cases, ℤ, pos_part, length, length-set, set, store, get_elem?_total, ◌>>=◌,
}
use sg_compositor.Decor.Pixels.{least, fill_row, fill_rows, fill, in_bar, put, blend, blend_pixel}

-- The access stays inside, and the size of the array stays as it is.
abbrev pub Sized : ℕ → Option (List ℕ) → Type 0
Sized n r = (d : List ℕ) × (r ≡ some d) × (length d ≡ n)

pub store-Sized : (n i v : ℕ) (d : List ℕ) → length d ≡ n → i < n → Sized n (store i v d)
unfolding store
store-Sized n i v d h lt = (set d i v, ground (arith, h, lt), length-set d i v ∙ h)

pub index_lt : (x y w h : ℕ) → x < w → y < h → y * w + x < w * h
index_lt x y w h p q = grind arith

fill_row-Sized :
    (w h y color n x : ℕ) (d : List ℕ)
    → length d ≡ w * h
    → y < h
    → n ≤ w - x
    → Sized (w * h) (fill_row w y color n x d)
unfolding fill_row
fill_row-Sized w h y color zero x d e p q = (d, refl, e)
fill_row-Sized w h y color (suc n) x d e p q =
    let s = store-Sized (w * h) (y * w + x) color d e (index_lt x y w h (omega arith) p) in
    rw (s.1) (fill_row-Sized w h y color n (x + 1) s.0 s.2 p (omega arith))

fill_rows-Sized :
    (w h x m color n y : ℕ) (d : List ℕ)
    → length d ≡ w * h
    → m ≤ w - x
    → n ≤ h - y
    → Sized (w * h) (fill_rows w x m color n y d)
unfolding fill_rows
fill_rows-Sized w h x m color zero y d e p q = (d, refl, e)
fill_rows-Sized w h x m color (suc n) y d e p q =
    let s = fill_row-Sized w h y color m x d e (omega arith) p in
    rw (s.1) (fill_rows-Sized w h x m color n (y + 1) s.0 s.2 p (omega arith))

module _ (w h : ℕ) (d : List ℕ) (e : length d ≡ w * h) where
  -- A rectangle of any size, wherever its corners are.
  pub fill-Sized : (x0 y0 x1 y1 : ℤ) (color : ℕ) → Sized (w * h) (fill w h x0 y0 x1 y1 color d)
  unfolding fill
  fill-Sized x0 y0 x1 y1 color =
      fill_rows-Sized w h (pos_part x0) (least (pos_part x1) w - pos_part x0) color
        (least (pos_part y1) h - pos_part y0) (pos_part y0) d e (ground arith) (ground arith)

  index_in_bar : (x y : ℤ) → in_bar w h x y ≡ true → pos_part y * w + pos_part x < w * h
  index_in_bar x y b =
      index_lt (pos_part x) (pos_part y) w h (ground (arith, b)) (ground (arith, b))

  pub put-Sized : (x y : ℤ) (color : ℕ) → Sized (w * h) (put w h x y color d)
  unfolding put
  put-Sized x y color =
      if_cases (Sized (w * h)) (in_bar w h x y)
        (λ b. store-Sized (w * h) _ color d e (index_in_bar x y b)) (λ _. (d, refl, e))

  pub blend-Sized : (x y : ℤ) (color cover : ℕ) → Sized (w * h) (blend w h x y color cover d)
  unfolding blend
  blend-Sized x y color cover =
      if_cases (Sized (w * h)) (not (in_bar w h x y) || cover == 0) (λ _. (d, refl, e))
        λ b.
          let lt = index_in_bar x y (ground (arith, b)) in
          let r = get_elem?_total d (pos_part y * w + pos_part x) (omega (arith, lt, e)) in
          rw (r.1) (store-Sized (w * h) _ (blend_pixel color cover r.0) d e lt)

-- What is drawn, one call after the other.
pub data Draw : Type 0 where
  fills : (x0 y0 x1 y1 : ℤ) (color : ℕ) → Draw
  puts : (x y : ℤ) (color : ℕ) → Draw
  blends : (x y : ℤ) (color cover : ℕ) → Draw

draw : (w h : ℕ) → Draw → List ℕ → Option (List ℕ)
draw w h (fills x0 y0 x1 y1 color) d = fill w h x0 y0 x1 y1 color d
draw w h (puts x y color) d = put w h x y color d
draw w h (blends x y color cover) d = blend w h x y color cover d

pub draws : (w h : ℕ) → List Draw → List ℕ → Option (List ℕ)
unfolding draw
draws w h [] d = some d
draws w h (a ∷ ops) d = draw w h a d >>= draws w h ops

draw-Sized : (w h : ℕ) (a : Draw) (d : List ℕ) → length d ≡ w * h → Sized (w * h) (draw w h a d)
unfolding draw
draw-Sized w h (fills x0 y0 x1 y1 color) d e = fill-Sized w h d e x0 y0 x1 y1 color
draw-Sized w h (puts x y color) d e = put-Sized w h d e x y color
draw-Sized w h (blends x y color cover) d e = blend-Sized w h d e x y color cover

-- Any sequence of fill, put and blend, with any coordinates and colours, on pixels of the bar's
-- size reads and writes only these.
pub draws-Sized :
    (w h : ℕ) (ops : List Draw) (d : List ℕ) → length d ≡ w * h → Sized (w * h) (draws w h ops d)
unfolding draws
draws-Sized w h [] d e = (d, refl, e)
draws-Sized w h (a ∷ ops) d e =
    let s = draw-Sized w h a d e in rw (s.1) (draws-Sized w h ops s.0 s.2)
