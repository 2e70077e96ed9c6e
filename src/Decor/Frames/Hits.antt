-- ===== src/Decor/Frames/Hits.antt =====
-- decor.c: the buttons under the pointer and the buttons that are drawn.
use sg_compositor.Prelude.{
  ℕ, ◌+◌, ◌*◌, ◌<◌, ◌≡◌, refl, ◌↔◌, arith, ◌==◌, if◌then◌else◌, ℤ, pos, pos_part, neg_part, ◌+ℤ◌,
  ◌-ℤ◌, ◌≤ℤ◌, -ℤ_parts, int_laws,
}
use sg_compositor.Decor.Conf.{Conf, button_w}
use sg_compositor.Decor.Frames.{
  part_min, part_max, part_close, right_end, part_in, part_at, slot_end, slot_start,
}

-- From a to b, without b.
abbrev pub InSpan : ℤ → ℤ → ℤ → Type 0
InSpan a b x = (a ≤ℤ x) × (pos_part x + neg_part b < pos_part b + neg_part x)

-- The columns of the parts left of a right end.
column_close : (r sx : ℤ) (bw : ℕ) → (part_in r bw sx ≡ part_close) ↔ InSpan (r -ℤ pos bw) r sx
unfolding part_in
column_close r sx bw = ground (arith, -ℤ_parts r (pos bw))

column_max :
    (r sx : ℤ) (bw : ℕ) → (part_in r bw sx ≡ part_max) ↔ InSpan (r -ℤ pos (2 * bw)) (r -ℤ pos bw) sx
unfolding part_in
column_max r sx bw = ground (arith, -ℤ_parts r (pos bw), -ℤ_parts r (pos (2 * bw)))

column_min :
    (r sx : ℤ) (bw : ℕ)
    → (part_in r bw sx ≡ part_min) ↔ InSpan (r -ℤ pos (3 * bw)) (r -ℤ pos (2 * bw)) sx
unfolding part_in
column_min r sx bw =
    ground (arith, -ℤ_parts r (pos bw), -ℤ_parts r (pos (2 * bw)), -ℤ_parts r (pos (3 * bw)))

slot_end_eq :
    (c : Conf) (width i : ℕ) → slot_end c width i ≡ right_end c width -ℤ pos (i * button_w c)
unfolding slot_end right_end ◌-ℤ◌
slot_end_eq c width i = ground arith

-- The button that render draws i-th from the right, with the gap before it.
abbrev pub InColumn : Conf → ℕ → ℕ → ℤ → Type 0
InColumn c width i sx =
    InSpan (slot_start c width i -ℤ pos (if c.caption == 0 then 0 else 2)) (slot_end c width i) sx

minus_zero : (r : ℤ) → r -ℤ pos 0 ≡ r
minus_zero r = omega int_laws

take_twice : (r : ℤ) (a b g : ℕ) → r -ℤ pos a -ℤ pos b +ℤ pos g -ℤ pos g ≡ r -ℤ pos (a + b)
take_twice r a b g = omega int_laws

column_span :
    (c : Conf) (width i a b : ℕ) (sx : ℤ)
    → a ≡ i * button_w c
    → b ≡ (i + 1) * button_w c
    → InColumn c width i sx ≡ InSpan (right_end c width -ℤ pos b) (right_end c width -ℤ pos a) sx
unfolding slot_start
column_span c width i a b sx ea eb =
    let r = right_end c width in
    let bw = button_w c in
    let e : i * bw + bw ≡ b = grind (arith, eb) in
    rw (slot_end_eq c width i, take_twice r (i * bw) bw (if c.caption == 0 then 0 else 2), e, ea)
      refl

-- The part that decor_at gives for a place in the bar is a button exactly if the place is in the
-- column where render draws that button, the gap before it included; so for all three buttons and
-- any place.
pub part_at_iff :
    (c : Conf) (width : ℕ) (sx : ℤ)
    → ((part_at c width sx ≡ part_close) ↔ InColumn c width 0 sx)
      × ((part_at c width sx ≡ part_max) ↔ InColumn c width 1 sx)
      × ((part_at c width sx ≡ part_min) ↔ InColumn c width 2 sx)
unfolding part_at
part_at_iff c width sx = (
  rw (column_span c width 0 0 (button_w c) sx (omega arith) (omega arith), minus_zero r)
      (column_close r sx (button_w c)),
  rw (column_span c width 1 (button_w c) (2 * button_w c) sx (omega arith) (omega arith))
      (column_max r sx (button_w c)),
  rw (column_span c width 2 (2 * button_w c) (3 * button_w c) sx (omega arith) (omega arith))
      (column_min r sx (button_w c)),
)
  where
    r : ℤ
    r = right_end c width
