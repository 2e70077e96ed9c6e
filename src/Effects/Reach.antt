-- ===== src/Effects/Reach.antt =====
-- What sg-deskcomp.c's damage_win damages.
use mathlib.Core.Path.{subst⁻¹}
use sg_compositor.Prelude.{
  ℕ, suc, ◌+◌, ◌^◌, ◌<◌, ◌≡◌, true, false, ◌&&◌, ◌⊎◌, inl, inr, Option, none, some, arith, ltb,
  if_cases, if◌then◌else◌, ap, ℤ, pos, pos_part, neg_part, +ℤ_parts, -ℤ_parts, ◌+ℤ◌, ◌-ℤ◌, ◌≤ℤ◌,
  ltb_ℤ, int_laws,
}
use sg_compositor.Decor.Frames.{Box}
use sg_compositor.Effects.{
  Win, Desktop, shadow_geometry, has_shadow, to_taskbar, Sides, lower, raise, own_sides,
  shadow_sides, widened, wobbled, toward_taskbar, wide_sides, low16, short, side_length, Rect,
  cut_to_desktop, extents, damage_win,
}

-- A place of the desktop, between the sides.
abbrev pub Within : (px py : ℕ) → Sides → Type 0
Within px py s =
    (s.left ≤ℤ pos px)
    × ((pos (suc px) ≤ℤ s.right) × ((s.top ≤ℤ pos py) × (pos (suc py) ≤ℤ s.bottom)))

-- The window with its border and the shadow that it has.
abbrev pub Paints : Desktop → Win → (px py : ℕ) → Type 0
Paints k e px py =
    Within px py (own_sides e)
    ⊎ ((has_shadow k e ≡ true) × Within px py (shadow_sides (shadow_geometry k.options e) e))

abbrev pub InRect : (px py : ℕ) → Rect → Type 0
InRect px py r =
    (r.x ≤ℤ pos px)
    × ((pos (suc px) ≤ℤ r.x +ℤ pos r.width)
        × ((r.y ≤ℤ pos py) × (pos (suc py) ≤ℤ r.y +ℤ pos r.height)))

abbrev pub OnDesktop : Desktop → Rect → Type 0
OnDesktop k r =
    (pos 0 ≤ℤ r.x)
    × ((r.x +ℤ pos r.width ≤ℤ pos k.dw) × ((pos 0 ≤ℤ r.y) × (r.y +ℤ pos r.height ≤ℤ pos k.dh)))

lower_le : (a b p : ℤ) → (a ≤ℤ p) ⊎ (b ≤ℤ p) → lower a b ≤ℤ p
lower_le a b p h = ground arith

raise_le : (a b p : ℤ) → (p ≤ℤ a) ⊎ (p ≤ℤ b) → p ≤ℤ raise a b
raise_le a b p h = ground arith

widened-Within :
    (px py : ℕ) (s t : Sides) → Within px py s ⊎ Within px py t → Within px py (widened s t)
unfolding widened
widened-Within px py s t (inl (a, (b, (c, d)))) = (
  lower_le s.left t.left (pos px) (inl a),
  (
    raise_le s.right t.right (pos (suc px)) (inl b),
    (lower_le s.top t.top (pos py) (inl c), raise_le s.bottom t.bottom (pos (suc py)) (inl d)),
  ),
)
widened-Within px py s t (inr (a, (b, (c, d)))) = (
  lower_le s.left t.left (pos px) (inr a),
  (
    raise_le s.right t.right (pos (suc px)) (inr b),
    (lower_le s.top t.top (pos py) (inr c), raise_le s.bottom t.bottom (pos (suc py)) (inr d)),
  ),
)

less : (a p : ℤ) (m : ℕ) → a ≤ℤ p → a -ℤ pos m ≤ℤ p
less a p m h = omega int_laws

more : (a p : ℤ) (m : ℕ) → p ≤ℤ a → p ≤ℤ a +ℤ pos m
more a p m h = omega int_laws

wobbled-Within : (px py m : ℕ) (s : Sides) → Within px py s → Within px py (wobbled m s)
unfolding wobbled
wobbled-Within px py m s (a, (b, (c, d))) = (
  less s.left (pos px) (m + 2) a,
  (
    more s.right (pos (suc px)) (m + 2) b,
    (less s.top (pos py) (m + 2) c, more s.bottom (pos (suc py)) (m + 2) d),
  ),
)

toward_taskbar-Within :
    (px py dh : ℕ) (b : Option Box) (s : Sides)
    → py < dh
    → Within px py s
    → Within px py (toward_taskbar dh b s)
unfolding toward_taskbar
toward_taskbar-Within px py dh none s l (a, (b, (c, d))) = (a, (b, (c, omega arith)))
toward_taskbar-Within px py dh (some m) s l (a, (b, (c, d))) = (
  lower_le s.left m.x (pos px) (inl a),
  (
    raise_le s.right (m.x +ℤ m.width) (pos (suc px)) (inl b),
    (lower_le s.top m.y (pos py) (inl c), omega arith),
  ),
)

wide_sides-Within :
    (k : Desktop) (e : Win) (px py : ℕ)
    → py < k.dh
    → Paints k e px py
    → Within px py (wide_sides k e)
unfolding wide_sides
wide_sides-Within k e px py l h =
    let s = own_sides e in
    let g = shadow_sides (shadow_geometry k.options e) e in
    let t : Sides = if has_shadow k e then widened s g else s in
    let a : Within px py t =
      if_cases (Within px py) (has_shadow k e) (λ _. widened-Within px py s g (own_or_shadow h))
        (λ f. own_only h f) in
    let u : Sides = if e.wobbling then wobbled e.reach t else t in
    let b : Within px py u =
      if_cases (Within px py) e.wobbling (λ _. wobbled-Within px py e.reach t a) (λ _. a) in
    if_cases (Within px py) (to_taskbar e.anim)
      (λ _. toward_taskbar-Within px py k.dh e.minrect u l b) (λ _. b)
  where
    own_or_shadow :
        Paints k e px py
        → Within px py (own_sides e) ⊎ Within px py (shadow_sides (shadow_geometry k.options e) e)
    own_or_shadow (inl w) = inl w
    own_or_shadow (inr w) = inr w.1

    own_only : Paints k e px py → has_shadow k e ≡ false → Within px py (own_sides e)
    own_only (inl w) f = w
    own_only (inr w) f = absurd (cc)

short_small : (z : ℤ) (p : ℕ) → pos 0 ≤ℤ z → z ≤ℤ pos p → p < 2 ^ 15 → short z ≡ z
unfolding short
short_small (pos n) p a b c = ground arith
short_small (ℤ.negsuc n) p a b c = absurd (omega arith)

low16_small : (z : ℤ) → pos 0 ≤ℤ z → z ≤ℤ pos (2 ^ 15) → pos (low16 z) ≡ z
low16_small (pos n) a b = ap pos (omega arith)
low16_small (ℤ.negsuc n) a b = absurd (omega arith)

-- One direction of a rectangle that has a place.
abbrev Spans : (p d : ℕ) (x : ℤ) (n : ℕ) → Type 0
Spans p d x n =
    (x ≤ℤ pos p) × ((pos (suc p) ≤ℤ x +ℤ pos n) × ((pos 0 ≤ℤ x) × (x +ℤ pos n ≤ℤ pos d)))

side_length_lem :
    (a b : ℤ) (p d : ℕ)
    → pos 0 ≤ℤ a
    → a ≤ℤ pos p
    → pos (suc p) ≤ℤ b
    → b ≤ℤ pos d
    → p < d
    → d < 2 ^ 15
    → Spans p d (short a) (side_length a b) × (0 < side_length a b)
unfolding side_length
side_length_lem a b p d h i j k l m =
    subst⁻¹ (λ (z : ℤ). Spans p d z (side_length a b) × (0 < side_length a b))
      (short_small a p h i (omega arith))
      (if_cases (λ (n : ℕ). Spans p d a n × (0 < n)) (ltb_ℤ a b)
        (λ _.
          let z = b -ℤ a in
          let e = low16_small z (omega int_laws) (omega int_laws) in
          let q = -ℤ_parts b a in
          let n = low16 z in
          let f : pos_part (pos n) ≡ pos_part z = ap pos_part e in
          let g : neg_part (pos n) ≡ neg_part z = ap neg_part e in
          let u = +ℤ_parts a (pos n) in ((i, (omega arith, (h, omega arith))), omega arith))
        (λ e. absurd (ground (arith, e))))

cut_lem :
    (l r : ℤ) (p d : ℕ)
    → l ≤ℤ pos p
    → pos (suc p) ≤ℤ r
    → p < d
    → d < 2 ^ 15
    → Spans p d (short (raise l (pos 0))) (side_length (raise l (pos 0)) (lower r (pos d)))
      × (0 < side_length (raise l (pos 0)) (lower r (pos d)))
cut_lem l r p d h i j k =
    side_length_lem (raise l (pos 0)) (lower r (pos d)) p d
      (raise_le l (pos 0) (pos 0) (inr (omega arith))) (ground arith) (ground arith)
      (lower_le r (pos d) (pos d) (inr (omega arith))) j k

some_rect :
    (r : Rect)
    → 0 < r.width
    → 0 < r.height
    → (if ltb 0 r.width && ltb 0 r.height then some r else none) ≡ some r
some_rect r a b = ground (arith, a, b)

-- On a desktop of less than 32768 pixels each way, a place of it that a window with its border,
-- or the shadow that it has, covers is in the rectangle that damage_win damages, and that
-- rectangle lies on the desktop; so for any window, whether it wobbles or is on its way to the
-- taskbar.
pub damage_win-Covers :
    (k : Desktop) (e : Win) (px py : ℕ)
    → k.dw < 2 ^ 15
    → k.dh < 2 ^ 15
    → px < k.dw
    → py < k.dh
    → Paints k e px py
    → (r : Rect) × ((damage_win k e ≡ some r) × (OnDesktop k r × InRect px py r))
unfolding extents cut_to_desktop damage_win
damage_win-Covers k e px py dw dh lx ly h =
    let s = wide_sides k e in
    let w = wide_sides-Within k e px py ly h in
    let a = cut_lem s.left s.right px k.dw w.0 w.1.0 lx dw in
    let b = cut_lem s.top s.bottom py k.dh w.1.1.0 w.1.1.1 ly dh in
    (
      extents k e,
      (
        some_rect (extents k e) a.1 b.1,
        ((a.0.1.1.0, (a.0.1.1.1, (b.0.1.1.0, b.0.1.1.1))), (a.0.0, (a.0.1.0, (b.0.0, b.0.1.0)))),
      ),
    )
