-- ===== src/Decor/Pixels/Blending.antt =====
-- The colours that decor.c's blending and gradients give.
use sg_compositor.Prelude.{
  ℕ, ◌+◌, ◌-◌, ◌*◌, ◌/◌, ◌^◌, ◌≤◌, ◌<◌, ◌≡◌, ◌&&◌, if_cases, List, [], ◌∷◌, arith, leb, ltb,
  Bool-cases, inl, inr, if◌then◌else◌, All,
}
use native.Mathlib.Nat.{div-le_of_le-mul, mul_comm}
use sg_compositor.Decor.Pixels.{
  alpha_of, channel, argb, least, blend_channel, blend_pixel, Stop, between, mix, colour_at,
  gradient,
}

abbrev most : ℕ → ℕ → ℕ
most a b = if leb a b then b else a

-- Between the two, whichever is the greater.
abbrev pub IsBetween : ℕ → ℕ → ℕ → Type 0
IsBetween a b r = (least a b ≤ r) × (r ≤ most a b)

weighted : (j k a b : ℕ) → a ≤ b → (a * (j + k) ≤ a * j + b * k) × (a * j + b * k ≤ b * (j + k))
weighted j k a b l =
    let p : a * k ≤ b * k = grind arith in
    let q : a * j ≤ b * j = grind arith in (grind (arith, p), grind (arith, q))

blend_channel-IsBetween : (k a b : ℕ) → k ≤ 255 → IsBetween a b (blend_channel k a b)
unfolding blend_channel
blend_channel-IsBetween k a b h = elim (Bool-cases (leb a b)) [
  | inl e ↦ ground (arith, e, weighted k (255 - k) a b (ground (arith, e)))
  | inr e ↦ ground (arith, e, weighted (255 - k) k b a (ground (arith, e)))
]

between-IsBetween :
    (t span ca cb : ℕ) → 0 < span → t ≤ span → IsBetween ca cb (between t span ca cb)
unfolding between
between-IsBetween t span ca cb pos le = ground (arith, share (cb - ca), share (ca - cb))
  where
    share : (x : ℕ) → x * t / span ≤ x
    share x =
        div-le_of_le-mul span
          (let p : x * t ≤ x * span = grind arith in omega (arith, p, mul_comm x span))

pub argb_fields :
    (a r g b : ℕ)
    → a < 256
    → r < 256
    → g < 256
    → b < 256
    → (alpha_of (argb a r g b) ≡ a)
      × (channel 16 (argb a r g b) ≡ r)
      × (channel 8 (argb a r g b) ≡ g)
      × (channel 0 (argb a r g b) ≡ b)
unfolding argb
argb_fields a r g b p q s t = (omega arith, omega arith, omega arith, omega arith)

-- Opaque, with each channel between those of the two colours.
abbrev pub IsOverlay : (color bg p : ℕ) → Type 0
IsOverlay color bg p =
    (alpha_of p ≡ 255)
    × IsBetween (channel 16 color) (channel 16 bg) (channel 16 p)
    × IsBetween (channel 8 color) (channel 8 bg) (channel 8 p)
    × IsBetween (channel 0 color) (channel 0 bg) (channel 0 p)

byte_between : (a b r : ℕ) → a < 256 → b < 256 → IsBetween a b r → r < 256
byte_between a b r p q h = ground arith

overlay :
    (color bg r g b : ℕ)
    → IsBetween (channel 16 color) (channel 16 bg) r
    → IsBetween (channel 8 color) (channel 8 bg) g
    → IsBetween (channel 0 color) (channel 0 bg) b
    → IsOverlay color bg (argb 255 r g b)
overlay color bg r g b hr hg hb =
    let fr = byte_between (channel 16 color) (channel 16 bg) r (omega arith) (omega arith) hr in
    let fg = byte_between (channel 8 color) (channel 8 bg) g (omega arith) (omega arith) hg in
    let fb = byte_between (channel 0 color) (channel 0 bg) b (omega arith) (omega arith) hb in
    let f = argb_fields 255 r g b (omega arith) fr fg fb in (f.0, rw f.1 hr, rw f.2 hg, rw f.3 hb)

blend_pixel-IsOverlay :
    (color cover bg : ℕ) → cover ≤ 255 → IsOverlay color bg (blend_pixel color cover bg)
unfolding blend_pixel
blend_pixel-IsOverlay color cover bg h =
    overlay color bg _ _ _ (blend_channel-IsBetween cover (channel 16 color) (channel 16 bg) h)
      (blend_channel-IsBetween cover (channel 8 color) (channel 8 bg) h)
      (blend_channel-IsBetween cover (channel 0 color) (channel 0 bg) h)

mix-IsOverlay : (t span a b : ℕ) → 0 < span → t ≤ span → IsOverlay a b (mix t span a b)
unfolding mix
mix-IsOverlay t span a b pos le =
    overlay a b _ _ _ (between-IsBetween t span (channel 16 a) (channel 16 b) pos le)
      (between-IsBetween t span (channel 8 a) (channel 8 b) pos le)
      (between-IsBetween t span (channel 0 a) (channel 0 b) pos le)

-- The colour's channels lie within the limits, one pair for each channel.
abbrev pub InPalette : (lo hi : ℕ → ℕ) → ℕ → Type 0
InPalette lo hi c =
    (lo 16 ≤ channel 16 c)
    × (channel 16 c ≤ hi 16)
    × (lo 8 ≤ channel 8 c)
    × (channel 8 c ≤ hi 8)
    × (lo 0 ≤ channel 0 c)
    × (channel 0 c ≤ hi 0)

abbrev pub IsStop : (lo hi : ℕ → ℕ) → Stop → Type 0
IsStop lo hi s = (s.c < 2 ^ 24) × InPalette lo hi s.c

module _ (lo hi : ℕ → ℕ) where
  overlay-InPalette :
      (a b p : ℕ) → InPalette lo hi a → InPalette lo hi b → IsOverlay a b p → InPalette lo hi p
  overlay-InPalette a b p ha hb h = ground arith

  colour_at-InPalette :
      (p : ℕ) (here : Stop) (rest : List Stop)
      → IsStop lo hi here
      → All (IsStop lo hi) rest
      → (alpha_of (colour_at p here rest) ≡ 255) × InPalette lo hi (colour_at p here rest)
  unfolding colour_at
  colour_at-InPalette p here [] h k =
      let c = here.c in
      let lt : c < 2 ^ 24 = h.0 in
      let r : channel 16 (255 * 2 ^ 24 + c) ≡ channel 16 c = omega arith in
      let g : channel 8 (255 * 2 ^ 24 + c) ≡ channel 8 c = omega arith in
      let b : channel 0 (255 * 2 ^ 24 + c) ≡ channel 0 c = omega arith in
      (omega arith, rw (r, g, b) h.1)
  colour_at-InPalette p here (next ∷ rest) h k =
      if_cases (λ c. (alpha_of c ≡ 255) × InPalette lo hi c)
        (leb p next.pos && ltb here.pos next.pos)
        (λ e.
          let m =
            mix-IsOverlay (p - here.pos) (next.pos - here.pos) here.c next.c (ground (arith, e))
              (ground (arith, e)) in
          (m.0, overlay-InPalette here.c next.c _ h.1 (k.0).1 m))
        (λ _. colour_at-InPalette p next rest k.0 k.1)

  pub gradient-InPalette :
      (first : Stop) (rest : List Stop) (y h : ℕ)
      → IsStop lo hi first
      → All (IsStop lo hi) rest
      → (alpha_of (gradient first rest y h) ≡ 255) × InPalette lo hi (gradient first rest y h)
  unfolding gradient
  gradient-InPalette first rest y h p q = colour_at-InPalette _ first rest p q
