-- ===== src/Decor/Text/Cut.antt =====
-- decor.c's draw_title: how much of a long title is drawn.
use sg_compositor.Prelude.{
  ℕ, zero, suc, ◌+◌, ◌≤◌, ◌<◌, ◌≡◌, refl, true, false, not, ◌&&◌, some, ◌⊎◌, inl, inr, arith, [],
  ◌∷◌, is_empty, leb, ==_iff, Bool-cases, ltb, ◌==◌, if_cases, length, pos, Bytes, codes,
}
use sg_compositor.Decor.Text.{Font, text_width, step_back, inside_char, shorten, draw_title}

-- A place where a character starts, or the start of the text.
abbrev pub IsBoundary : Bytes → ℕ → Type 0
IsBoundary s n = (n ≡ 0) ⊎ (inside_char s n ≡ false)

-- `r` is the last boundary before `n`.
abbrev LastBefore : Bytes → ℕ → ℕ → Type 0
LastBefore s n r = (r < n) × IsBoundary s r × ((m : ℕ) → r < m → m < n → inside_char s m ≡ true)

extend : (s : Bytes) (n r : ℕ) → LastBefore s n r → inside_char s n ≡ true → LastBefore s (suc n) r
extend s n r h e = (
  omega (arith, h.0),
  h.1,
  λ m p q. elim (Bool-cases (m == n)) [
    | inl eq ↦ rw ((==_iff m n).0 eq) e
    | inr ne ↦ h.2 m p (ground (arith, ne))
  ],
)

step_back-LastBefore : (s : Bytes) (n : ℕ) → 0 < n → LastBefore s n (step_back s n)
unfolding step_back
step_back-LastBefore s zero h = absurd (omega arith)
step_back-LastBefore s (suc n) h =
    if_cases (LastBefore s (suc n)) (not (n == 0) && inside_char s n)
      (λ e. extend s n _ (step_back-LastBefore s n (ground (arith, e))) (ground (arith, e)))
      (λ e. (omega arith, ground (arith, e), λ m p q. absurd (omega arith)))

-- What is drawn of a text that does not fit: nothing, or what fits with the dots after it, up to
-- the last boundary for which it does.
abbrev pub IsLongest : Font → Bytes → ℕ → ℕ → ℕ → ℕ → Type 0
IsLongest f s dots room n r =
    (r ≤ n)
    × ((r ≡ 0) ⊎ (text_width f s r + dots ≤ room))
    × ((m : ℕ) → r < m → m ≤ n → inside_char s m ≡ false → room < text_width f s m + dots)

module _ (f : Font) (s : Bytes) (dots room : ℕ) where
  stops_here :
      (n : ℕ)
      → (not (n == 0) && ltb room (text_width f s n + dots)) ≡ false
      → IsLongest f s dots room n n
  stops_here n e = (omega arith, ground (arith, e), λ m p q. absurd (omega arith))

  goes_on :
      (n b r : ℕ)
      → room < text_width f s n + dots
      → LastBefore s n b
      → IsLongest f s dots room b r
      → IsLongest f s dots room n r
  goes_on n b r wide l h = (omega (arith, h.0, l.0), h.1, longest)
    where
      longest : (m : ℕ) → r < m → m ≤ n → inside_char s m ≡ false → room < text_width f s m + dots
      longest m p q e = elim (Bool-cases (m == n)) [
        | inl eq ↦ rw ((==_iff m n).0 eq) wide
        | inr ne ↦ elim (Bool-cases (ltb b m)) [
          | inl lt ↦ absurd (ground (arith, l.2 m (ground (arith, lt)) (ground (arith, ne)), e))
          | inr ge ↦ h.2 m p (ground (arith, ge)) e
        ]
      ]

  shorten-IsLongest :
      (fuel n : ℕ) → n ≤ fuel → IsLongest f s dots room n (shorten f s dots room fuel n)
  unfolding shorten
  shorten-IsLongest zero n h = (omega arith, inl (omega arith), λ m p q. absurd (omega arith))
  shorten-IsLongest (suc fuel) n h =
      if_cases (IsLongest f s dots room n) (not (n == 0) && ltb room (text_width f s n + dots))
        (λ e.
          let l = step_back-LastBefore s n (ground (arith, e)) in
          goes_on n _ _ (ground (arith, e)) l
            (shorten-IsLongest fuel (step_back s n) (omega (arith, l.0))))
        (stops_here n)

  shorten-IsBoundary : (fuel n : ℕ) → IsBoundary s n → IsBoundary s (shorten f s dots room fuel n)
  unfolding shorten
  shorten-IsBoundary zero n h = h
  shorten-IsBoundary (suc fuel) n h =
      if_cases (IsBoundary s) (not (n == 0) && ltb room (text_width f s n + dots))
        (λ e.
          shorten-IsBoundary fuel (step_back s n) (step_back-LastBefore s n (ground (arith, e))).1)
        (λ _. h)

inside_char-end : (s : Bytes) (n : ℕ) → length s ≤ n → inside_char s n ≡ false
unfolding inside_char
inside_char-end [] n h = refl
inside_char-end (b ∷ s) zero h = absurd (omega arith)
inside_char-end (b ∷ s) (suc n) h = inside_char-end s n (omega arith)

-- Of a title that is not empty, in room that is not 0 and with a font: the whole is drawn if it
-- fits; otherwise the loop ends, with a cut that is not within a character, where nothing or what
-- fits with the dots is left, and every longer cut between characters is too wide.
pub draw_title_lem :
    (f : Font) (s : Bytes) (room : ℕ)
    → is_empty s ≡ false
    → 0 < room
    → let dots = text_width f (codes "...") 3 in
      ((text_width f s (length s) ≤ room)
        × (draw_title (some f) s (pos room) ≡ some (record { bytes = length s; dotted = false })))
      ⊎ ((r : ℕ) × (draw_title (some f) s (pos room) ≡ some (record { bytes = r; dotted = true }))
          × (room < text_width f s (length s))
          × IsBoundary s r
          × IsLongest f s dots room (length s) r)
unfolding draw_title
draw_title_lem f s room full h = elim (Bool-cases (leb (text_width f s (length s)) room)) [
  | inl e ↦ inl (ground (arith, e), ground (arith, e, full, h))
  | inr e ↦ inr (
    shorten f s dots room (length s) (length s),
    ground (arith, e, full, h),
    ground (arith, e),
    shorten-IsBoundary f s dots room (length s) (length s)
        (inr (inside_char-end s _ (omega arith))),
    shorten-IsLongest f s dots room (length s) (length s) (omega arith),
  )
]
  where
    dots : ℕ
    dots = text_width f (codes "...") 3
