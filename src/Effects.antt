-- ===== src/Effects.antt =====
-- sg-deskcomp.c: the windows that the desktop effects draw, their settings, and the places on the
-- desktop that a window may paint over. X positions are 16-bit, so that no sum of them overflows.
pub mod Entries
pub mod Stacking
pub mod Reach
pub mod Handlers
pub mod Configure
pub mod Direct
pub mod Painting
pub mod Tidy
pub mod Events
use sg_compositor.Prelude.{
  ℕ, ◌+◌, ◌-◌, ◌*◌, ◌%◌, ◌^◌, Bool, true, false, not, ◌&&◌, ◌||◌, List, [], ◌∷◌, Option, none, some,
  ltb, if◌then◌else◌, ℤ, pos, negsuc, ◌+ℤ◌, ◌-ℤ◌, leb_ℤ, ltb_ℤ, Bytes, codes, same_bytes,
}
use sg_compositor.Decor.Frames.{Box}

-- enum kind
pub data Kind : Type 0 where
  kind_plain : Kind
  kind_framed : Kind
  kind_popup : Kind

abbrev pub is_plain : Kind → Bool
is_plain kind_plain = true
is_plain _ = false

abbrev pub is_framed : Kind → Bool
is_framed kind_framed = true
is_framed _ = false

abbrev pub is_popup : Kind → Bool
is_popup kind_popup = true
is_popup _ = false

-- enum anim
pub data Anim : Type 0 where
  anim_none : Anim
  anim_open : Anim
  anim_close : Anim
  anim_minimize : Anim
  anim_restore : Anim

abbrev pub is_still : Anim → Bool
is_still anim_none = true
is_still _ = false

-- Down into the taskbar, or up from it.
abbrev pub to_taskbar : Anim → Bool
to_taskbar anim_minimize = true
to_taskbar anim_restore = true
to_taskbar _ = false

-- struct win. `pict` says whether there is a picture, `damaging` whether there is a Damage;
-- `reach` is the whole number that extents makes of the wobble's largest offset.
pub record Win : Type 0 where
  pub id : ℕ
  pub x : ℤ
  pub y : ℤ
  pub w : ℕ
  pub h : ℕ
  pub bw : ℕ
  pub mapped : Bool
  pub win_argb : Bool
  pub managed : Bool
  pub kind : Kind
  pub opacity : ℕ
  pub damaging : Bool
  pub pict : Bool
  pub anim : Anim
  pub ghost : Bool
  pub wobbling : Bool
  pub reach : ℕ
  pub acrylic : ℕ
  pub minrect : Option Box  -- none: has_minrect is 0
  pub frame : Option (ℤ × ℤ × ℤ × ℤ)  -- none: has_frame is 0

-- The settings that the modelled code reads.
pub record Settings : Type 0 where
  pub opt_shadows : Bool
  pub opt_anim : Bool
  pub opt_wobbly : Bool
  pub opt_glass : ℤ
  pub opt_shadow : Bytes
  pub opt_open : Bytes
  pub opt_minimize : Bytes

abbrev pub want_open : Settings → Bool
want_open o = o.opt_anim && not (same_bytes o.opt_open (codes "none"))

abbrev pub want_minimize : Settings → Bool
want_minimize o = o.opt_anim && not (same_bytes o.opt_minimize (codes "none"))

abbrev pub want_wobbly : Settings → Bool
want_wobbly o = o.opt_anim && o.opt_wobbly

-- The size of the desktop, and the settings.
pub record Desktop : Type 0 where
  pub dw : ℕ
  pub dh : ℕ
  pub options : Settings

-- Where Wine puts a minimized window.
abbrev pub offscreen : ℤ
offscreen = negsuc 29999

abbrev pub whole_width : Win → ℕ
whole_width e = e.w + 2 * e.bw

abbrev pub whole_height : Win → ℕ
whole_height e = e.h + 2 * e.bw

unfoldable pub glass_frame_fits : ℤ × ℤ × ℤ × ℤ → Win → Bool
glass_frame_fits (l, t, r, b) e = ltb_ℤ (l +ℤ r) (pos e.w) && ltb_ℤ (t +ℤ b) (pos e.h)

abbrev pub framed_by : Option (ℤ × ℤ × ℤ × ℤ) → Win → Bool
framed_by none e = false
framed_by (some f) e = glass_frame_fits f e

-- glass_frame
unfoldable pub glass_frame : Settings → Win → Bool
unfolding glass_frame_fits
glass_frame o e =
    ltb_ℤ (pos 0) o.opt_glass && not e.win_argb && is_framed e.kind && framed_by e.frame e

-- shadow_geometry's whole numbers
pub record Shadow : Type 0 where
  pub dx : ℕ
  pub dy : ℕ
  pub radius : ℕ

unfoldable pub shadow_geometry : Settings → Win → Shadow
shadow_geometry o e =
    let popup = is_popup e.kind in
    if same_bytes o.opt_shadow (codes "horizon")
    then record {
      radius = if popup then 2 else 3;
      dx = if popup then 3 else 4;
      dy = if popup then 3 else 4;
    }
    else if same_bytes o.opt_shadow (codes "glass")
    then record { radius = if popup then 5 else 15; dx = 0; dy = if popup then 2 else 3 }
    else record { radius = if popup then 6 else 14; dx = 0; dy = if popup then 2 else 5 }

unfoldable pub has_shadow : Desktop → Win → Bool
has_shadow k e =
    k.options.opt_shadows
    && not (is_plain e.kind)
    && ltb 4 e.w
    && ltb 4 e.h
    && ltb_ℤ offscreen e.x
    && not (
        leb_ℤ e.x (pos 0)
        && leb_ℤ e.y (pos 0)
        && leb_ℤ (pos k.dw) (e.x +ℤ pos e.w)
        && leb_ℤ (pos k.dh) (e.y +ℤ pos e.h))

pub record Sides : Type 0 where
  pub left : ℤ
  pub top : ℤ
  pub right : ℤ
  pub bottom : ℤ

-- `if (a > b) a = b;` and `if (a < b) a = b;`
abbrev pub lower : ℤ → ℤ → ℤ
lower a b = if ltb_ℤ b a then b else a

abbrev pub raise : ℤ → ℤ → ℤ
raise a b = if ltb_ℤ a b then b else a

unfoldable pub own_sides : Win → Sides
own_sides e = record {
  left = e.x;
  top = e.y;
  right = e.x +ℤ pos (whole_width e);
  bottom = e.y +ℤ pos (whole_height e);
}

unfoldable pub shadow_sides : Shadow → Win → Sides
shadow_sides g e = record {
  left = e.x +ℤ pos g.dx -ℤ pos (2 * g.radius);
  top = e.y +ℤ pos g.dy -ℤ pos (2 * g.radius);
  right = e.x +ℤ pos (whole_width e + g.dx + 2 * g.radius);
  bottom = e.y +ℤ pos (whole_height e + g.dy + 2 * g.radius);
}

unfoldable pub widened : Sides → Sides → Sides
widened s t = record {
  left = lower s.left t.left;
  top = lower s.top t.top;
  right = raise s.right t.right;
  bottom = raise s.bottom t.bottom;
}

unfoldable pub wobbled : ℕ → Sides → Sides
wobbled m s = record {
  left = s.left -ℤ pos (m + 2);
  top = s.top -ℤ pos (m + 2);
  right = s.right +ℤ pos (m + 2);
  bottom = s.bottom +ℤ pos (m + 2);
}

-- Down to the taskbar, and to the window's button where that is known.
unfoldable pub toward_taskbar : ℕ → Option Box → Sides → Sides
toward_taskbar dh none s = record s { bottom = pos dh }
toward_taskbar dh (some b) s = record {
  left = lower s.left b.x;
  top = lower s.top b.y;
  right = raise s.right (b.x +ℤ b.width);
  bottom = pos dh;
}

-- extents, before it is cut to the desktop
unfoldable pub wide_sides : Desktop → Win → Sides
unfolding has_shadow widened own_sides shadow_sides wobbled toward_taskbar shadow_geometry
wide_sides k e =
    let s = own_sides e in
    let t =
      if has_shadow k e then widened s (shadow_sides (shadow_geometry k.options e) e) else s in
    let u = if e.wobbling then wobbled e.reach t else t in
    if to_taskbar e.anim then toward_taskbar k.dh e.minrect u else u

-- The short and the unsigned short of an int.
abbrev pub low16 : ℤ → ℕ
low16 (pos n) = n % 2 ^ 16
low16 (negsuc n) = 2 ^ 16 - 1 - n % 2 ^ 16

unfoldable pub short : ℤ → ℤ
short z = let w = low16 z in if ltb w (2 ^ 15) then pos w else negsuc (2 ^ 16 - w - 1)

-- XRectangle
pub record Rect : Type 0 where
  pub x : ℤ
  pub y : ℤ
  pub width : ℕ
  pub height : ℕ

unfoldable pub side_length : (from to : ℤ) → ℕ
side_length from to = if ltb_ℤ from to then low16 (to -ℤ from) else 0

unfoldable pub cut_to_desktop : Desktop → Sides → Rect
unfolding short side_length
cut_to_desktop k s =
    let left = raise s.left (pos 0) in
    let top = raise s.top (pos 0) in
    let right = lower s.right (pos k.dw) in
    let bottom = lower s.bottom (pos k.dh) in
    record {
      x = short left;
      y = short top;
      width = side_length left right;
      height = side_length top bottom;
    }

unfoldable pub extents : Desktop → Win → Rect
unfolding cut_to_desktop wide_sides
extents k e = cut_to_desktop k (wide_sides k e)

-- What damage_win adds to the damage.
unfoldable pub damage_win : Desktop → Win → Option Rect
unfolding extents
damage_win k e = let r = extents k e in if ltb 0 r.width && ltb 0 r.height then some r else none
