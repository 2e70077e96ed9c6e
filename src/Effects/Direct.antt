-- ===== src/Effects/Direct.antt =====
-- sg-deskcomp.c's check_direct: a window that covers the desktop is drawn by X itself.
pub mod Top
pub mod Again
use sg_compositor.Prelude.{
  ℕ, ◌+◌, ◌*◌, ◌≡◌, refl, Bool, true, false, not, ◌&&◌, ◌||◌, List, [], ◌∷◌, ◌++◌, Option, none,
  some, ltb, ◌==◌, if◌then◌else◌, ℤ, pos, ◌+ℤ◌, leb_ℤ,
}
use sg_compositor.Effects.{is_still, Win, Desktop, whole_width, whole_height, Rect}
use sg_compositor.Effects.Entries.{find_win, on_own}
use sg_compositor.Effects.Handlers.{XServer, Effects, get_pictures}

abbrev pub is_visible : Win → Bool
is_visible e = e.mapped && not e.ghost && ltb 1 e.w

abbrev or_else : Option Win → Option Win → Option Win
or_else none b = b
or_else (some e) b = some e

-- The highest entry that is shown.
abbrev pub top_shown : List Win → Option Win
top_shown [] = none
top_shown (e ∷ ws) = let rest = top_shown ws in or_else rest (if is_visible e then some e else none)

abbrev pub covers_desktop : Desktop → Win → Bool
covers_desktop k e =
    leb_ℤ e.x (pos 0)
    && leb_ℤ e.y (pos 0)
    && leb_ℤ (pos k.dw) (e.x +ℤ pos (whole_width e))
    && leb_ℤ (pos k.dh) (e.y +ℤ pos (whole_height e))

abbrev pub opaque_and_still : Win → Bool
opaque_and_still e =
    not e.win_argb
    && (e.opacity == 4294967295)
    && (e.acrylic == 0)
    && is_still e.anim
    && not e.wobbling

-- Redirected here, over all of the desktop, opaque and still.
unfoldable pub fills_desktop : Desktop → Win → Bool
fills_desktop k e = e.managed && covers_desktop k e && opaque_and_still e

abbrev that_fills_desktop : Desktop → Option Win → Option Win
that_fills_desktop k none = none
that_fills_desktop k (some e) = if fills_desktop k e then some e else none

unfoldable pub wanted : Desktop → List Win → Option Win
unfolding fills_desktop
wanted k ws = that_fills_desktop k (top_shown ws)

-- The window that X drew is redirected, and drawn, again.
unfoldable pub undirect : Desktop → XServer → Effects → Effects
unfolding get_pictures
undirect k x s = if s.direct == 0 then s else record s {
  wins =
      on_own s.direct (λ e. get_pictures x 0 (record e { managed = x.redirects s.direct })) s.wins;
  direct = 0;
  damage = record { x = pos 0; y = pos 0; width = k.dw; height = k.dh } ∷ s.damage;
}

abbrev pub direct_to : Win → Effects → Effects
direct_to e s = record s {
  wins = on_own e.id (λ v. record v { pict = false }) s.wins;
  direct = e.id;
}

unfoldable pub redirect : Desktop → XServer → Option Win → Effects → Effects
unfolding undirect on_own
redirect k x none s = undirect k x s
redirect k x (some e) s = if e.id == s.direct then s else direct_to e (undirect k x s)

unfoldable pub check_direct : Desktop → XServer → Effects → Effects
unfolding wanted redirect
check_direct k x s = redirect k x (wanted k s.wins) s
