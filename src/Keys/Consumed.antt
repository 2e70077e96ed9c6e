-- ===== src/Keys/Consumed.antt =====
-- seat.c: take_consumed_release after mark_consumed.
use sg_compositor.Prelude.{ℕ, true, false, List, [], ◌∷◌, arith, ◌≡◌, ◌==◌, any, ==_iff}
use sg_compositor.Keys.Reserved.{take_consumed_release, mark_consumed}

-- A press that is marked where a slot is free, of a key code that is not 0 and not marked yet, is
-- taken by its release, and the slots are then as they were.
pub take_consumed_release-mark_consumed :
    (code : ℕ) (ks : List ℕ)
    → (code == 0) ≡ false
    → any (λ k. k == 0) ks ≡ true
    → any (λ k. k == code) ks ≡ false
    → take_consumed_release code (mark_consumed code ks) ≡ (ks, true)
unfolding take_consumed_release mark_consumed
take_consumed_release-mark_consumed code [] ne free new = ground arith
take_consumed_release-mark_consumed code (k ∷ ks) ne free new = ground (
  arith,
  ==_iff k 0,
  ==_iff code code,
  ==_iff k code,
  take_consumed_release-mark_consumed code ks,
)

-- A key that is not marked keeps its release, and the slots stay.
pub take_consumed_release-other :
    (code : ℕ) (ks : List ℕ)
    → any (λ k. k == code) ks ≡ false
    → take_consumed_release code ks ≡ (ks, false)
unfolding take_consumed_release
take_consumed_release-other code [] new = ground arith
take_consumed_release-other code (k ∷ ks) new = ground (arith, take_consumed_release-other code ks)
