-- ===== src/Effects/Painting.antt =====
-- sg-deskcomp.c's loop of paint that draws the windows. `over` says of an entry whether its
-- animation has come to its end: a quotient of times in floating point is at least 1.
use sg_compositor.Prelude.{
  ℕ, zero, suc, ◌+◌, ◌≤◌, ◌≡◌, refl, Bool, true, false, not, ◌&&◌, ◌||◌, List, [], ◌∷◌, Option,
  none, some, arith, if◌then◌else◌, length,
}
use sg_compositor.Effects.{anim_none, is_still, Win}
use sg_compositor.Effects.Entries.{one, count, last_first, count-last_first, length-last_first}

-- The entries that the loop calls draw_window for.
abbrev pub is_drawable : Win → Bool
is_drawable e = (e.mapped || e.ghost) && e.pict

-- draw_window answers -1.
abbrev pub is_ended : (Win → Bool) → Win → Bool
is_ended over e = is_drawable e && not (is_still e.anim) && over e && e.ghost

-- What draw_window changes of its entry.
abbrev pub settled : (Win → Bool) → Win → Win
settled over e =
    if is_drawable e && not (is_still e.anim) && over e then record e { anim = anim_none } else e

-- The array, and the windows in the order in which they were drawn.
pub record Painted : Type 0 where
  pub wins : List Win
  pub drawn : List Win

abbrev enter : (ended drawable : Bool) → Win → Painted → Painted
enter ended drawable f p =
    if ended
    then p
    else record { wins = f ∷ p.wins; drawn = if drawable then f ∷ p.drawn else p.drawn }

abbrev pub visited : (Win → Bool) → Win → Painted → Painted
visited over e p = enter (is_ended over e) (is_drawable e) (settled over e) p

abbrev visit : (Win → Bool) → Win → Option Painted → Option Painted
visit over e none = none
visit over e (some p) = some (visited over e p)

-- The entries from the loop's index on. The last one takes the place of one that is forgotten, and
-- is the next to be drawn. `none`: there is no fuel left.
unfoldable pub paint_windows : (fuel : ℕ) → (over : Win → Bool) → List Win → Option Painted
unfolding last_first
paint_windows n over [] = some (record { wins = []; drawn = [] })
paint_windows zero over (e ∷ ws) = none
paint_windows (suc n) over (e ∷ ws) =
    let rest = paint_windows n over (if is_ended over e then last_first ws else ws) in
    visit over e rest

module _ (over : Win → Bool) (q : Win → Bool) where
  -- The entries that stay, and those that are drawn, that pass the test.
  abbrev pub stays : Win → Bool
  stays e = q (settled over e) && not (is_ended over e)

  abbrev pub gets_drawn : Win → Bool
  gets_drawn e = is_drawable e && stays e

  enter_wins :
      (b d : Bool) (f : Win) (p : Painted)
      → count q (enter b d f p).wins ≡ one (q f && not b) + count q p.wins
  enter_wins b d f p = ground arith

  enter_drawn :
      (b d : Bool) (f : Win) (p : Painted)
      → count q (enter b d f p).drawn ≡ one (d && (q f && not b)) + count q p.drawn
  enter_drawn b d f p = ground arith

  next_count :
      (r : Win → Bool) (b : Bool) (ws : List Win)
      → count r (if b then last_first ws else ws) ≡ count r ws
  next_count r true ws = count-last_first r ws
  next_count r false ws = refl

  next_length : (b : Bool) (ws : List Win) → length (if b then last_first ws else ws) ≡ length ws
  next_length true ws = length-last_first ws
  next_length false ws = refl

  -- paint's loop over the windows ends after at most as many rounds as there are entries. It then
  -- has forgotten the ghosts whose animation has ended and no other entry, and has called
  -- draw_window once for each other entry with a picture that is mapped or a ghost; so for the
  -- entries that pass a test, whichever test.
  pub paint_windows-Whole :
      (n : ℕ) (ws : List Win)
      → length ws ≤ n
      → (p : Painted) × ((paint_windows n over ws ≡ some p)
          × ((count q p.wins ≡ count stays ws) × (count q p.drawn ≡ count gets_drawn ws)))
  unfolding paint_windows
  paint_windows-Whole n [] h = (record { wins = []; drawn = [] }, (refl, (refl, refl)))
  paint_windows-Whole zero (e ∷ ws) h = absurd (omega arith)
  paint_windows-Whole (suc n) (e ∷ ws) h =
      let b = is_ended over e in
      let us : List Win = if b then last_first ws else ws in
      let l = next_length b ws in
      let r = paint_windows-Whole n us (omega arith) in
      let p = r.0 in
      let cs = next_count stays b ws in
      let cd = next_count gets_drawn b ws in
      let vs = enter_wins b (is_drawable e) (settled over e) p in
      let vd = enter_drawn b (is_drawable e) (settled over e) p in
      let is = r.1.1.0 in
      let id = r.1.1.1 in (visited over e p, (rw r.1.0, (omega arith, omega arith)))
