-- ===== src/Effects/Configure.antt =====
-- sg-deskcomp.c's on_configure.
use sg_compositor.Prelude.{
  ℕ, Bool, true, false, not, ◌&&◌, ◌||◌, ◌==◌, if◌then◌else◌, ℤ, leb_ℤ, ltb_ℤ,
}
use sg_compositor.Effects.{
  is_framed, anim_minimize, anim_restore, Win, want_minimize, want_wobbly, Desktop, offscreen,
}
use sg_compositor.Effects.Entries.{find_win, if_found, on_own, make_ghost}
use sg_compositor.Effects.Handlers.{
  XServer, Effects, get_pictures, read_minrect, damage_entry, slot, restack_and_damage,
}

-- XConfigureEvent
pub record Configure : Type 0 where
  pub window : ℕ
  pub x : ℤ
  pub y : ℤ
  pub width : ℕ
  pub height : ℕ
  pub border_width : ℕ

abbrev equal_ℤ : ℤ → ℤ → Bool
equal_ℤ a b = leb_ℤ a b && leb_ℤ b a

abbrev pub has_moved : Configure → Win → Bool
has_moved c e = not (equal_ℤ e.x c.x) || not (equal_ℤ e.y c.y)

abbrev pub has_resized : Configure → Win → Bool
has_resized c e = not (e.w == c.width) || not (e.h == c.height)

abbrev pub is_minimizing : Configure → Win → Bool
is_minimizing c e = ltb_ℤ offscreen e.x && leb_ℤ c.x offscreen

abbrev pub is_restoring : Configure → Win → Bool
is_restoring c e = leb_ℤ e.x offscreen && ltb_ℤ offscreen c.x

-- Where the window's button is, once it is asked for.
unfoldable pub asked_minrect : XServer → Configure → Win → Win
unfolding read_minrect
asked_minrect x c e =
    if is_minimizing c e || is_restoring c e
    then record e { minrect = read_minrect (x.minrect e.id) }
    else e

abbrev pub leaves_ghost : Desktop → Configure → Win → Bool
leaves_ghost k c e =
    is_minimizing c e && e.mapped && e.pict && want_minimize k.options && is_framed e.kind

-- The window moves with a wobble, or not; its size ends one.
unfoldable pub shaken : Desktop → XServer → Configure → Win → Win
shaken k x c e =
    let f : Win =
      if has_moved c e
        && not (has_resized c e)
        && not (is_minimizing c e)
        && not (is_restoring c e)
        && e.mapped
        && is_framed e.kind
        && want_wobbly k.options
      then record e { wobbling = true; reach = x.reach e.id }
      else e in
    if has_resized c e then record f { wobbling = false } else f

abbrev pub place_entry : Configure → Win → Win
place_entry c e = record e { x = c.x; y = c.y; w = c.width; h = c.height; bw = c.border_width }

abbrev pub picture_again : XServer → (direct : ℕ) → Configure → (old e : Win) → Win
picture_again x direct c old e =
    if (has_resized c old || not e.pict) && e.mapped then get_pictures x direct e else e

abbrev pub rising : Desktop → Configure → (old e : Win) → Win
rising k c old e =
    if is_restoring c old && want_minimize k.options && is_framed e.kind
    then record e { anim = anim_restore }
    else e

-- on_configure's changes of the window's own entry `e`, after a ghost was made of it: with `old`
-- the entry as it was before.
unfoldable pub configured : Desktop → XServer → (direct : ℕ) → Configure → (old e : Win) → Win
unfolding shaken get_pictures
configured k x direct c old e =
    rising k c old (picture_again x direct c old (place_entry c (shaken k x c e)))

unfoldable pub configure_entry : Desktop → XServer → Configure → Win → Effects → Effects
unfolding asked_minrect configured make_ghost restack_and_damage
configure_entry k x c e s =
    let asked = on_own c.window (asked_minrect x c) s.wins in
    let ws =
      if leaves_ghost k c e
      then make_ghost c.window (asked_minrect x c e) anim_minimize asked
      else asked in
    restack_and_damage k x (slot c.window ws)
      (record s { wins = on_own c.window (configured k x s.direct c e) ws })

unfoldable pub on_configure : Desktop → XServer → Configure → Effects → Effects
unfolding configure_entry damage_entry
on_configure k x c s =
    if_found (find_win c.window s.wins) s (λ e. configure_entry k x c e (damage_entry k e s))
