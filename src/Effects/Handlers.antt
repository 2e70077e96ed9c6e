-- ===== src/Effects/Handlers.antt =====
-- sg-deskcomp.c's handlers of the X server's events about windows.
use sg_compositor.Prelude.{
  ℕ, suc, Bool, true, false, not, ◌&&◌, ◌||◌, List, [], ◌∷◌, ◌++◌, Option, none, some, ◌==◌,
  if◌then◌else◌, is_some, ℤ, pos, leb_ℤ, ltb_ℤ, get_elem?,
}
use sg_compositor.Decor.Frames.{Box}
use sg_compositor.Effects.{
  Kind, kind_plain, kind_framed, kind_popup, is_plain, anim_none, anim_open, anim_close, Win,
  Settings, want_open, Desktop, offscreen, Rect, damage_win,
}
use sg_compositor.Effects.Entries.{is_own, find_win, if_found, on_own, forget, make_ghost}
use sg_compositor.Effects.Stacking.{restack}

-- XWindowAttributes, of a window that is there
pub record Attributes : Type 0 where
  pub input_only : Bool
  pub x : ℤ
  pub y : ℤ
  pub width : ℕ
  pub height : ℕ
  pub border_width : ℕ
  pub viewable : Bool
  pub alpha : Bool  -- the format of its visual has an alpha mask

-- What the X server answers while an event is handled. A property that is not there is `none`.
pub record XServer : Type 0 where
  pub attributes : ℕ → Option Attributes
  pub redirects : ℕ → Bool  -- XCompositeRedirectWindow has no error
  pub names : ℕ → Bool  -- XCompositeNameWindowPixmap has no error
  pub tree : Option (List ℕ)
  pub shadow : ℕ → Option ℕ
  pub opacity : ℕ → Option ℕ
  pub acrylic : ℕ → Option ℕ
  pub minrect : ℕ → Option (ℤ × ℤ × ℤ × ℤ)
  pub frame : ℕ → Option (ℤ × ℤ × ℤ × ℤ)
  pub reach : ℕ → ℕ  -- what the wobble of a window comes to, in floating point

-- The array of windows, the canvas, the window that X draws itself, and what was damaged.
pub record Effects : Type 0 where
  pub wins : List Win
  pub canvas : ℕ
  pub direct : ℕ
  pub damage : List Rect

abbrev pub prop_card : Option ℕ → ℕ → ℕ
prop_card none def = def
prop_card (some v) def = v

-- window_kind
unfoldable pub window_kind : XServer → ℕ → Kind
window_kind x i =
    let shadow = prop_card (x.shadow i) 0 in
    if shadow == 1 then kind_framed else if shadow == 2 then kind_popup else kind_plain

unfoldable pub read_minrect : Option (ℤ × ℤ × ℤ × ℤ) → Option Box
read_minrect none = none
read_minrect (some (l, t, width, height)) =
    if ltb_ℤ (pos 0) width && ltb_ℤ (pos 0) height
    then some (record { x = l; y = t; width = width; height = height })
    else none

unfoldable pub read_frame : Option (ℤ × ℤ × ℤ × ℤ) → Option (ℤ × ℤ × ℤ × ℤ)
read_frame none = none
read_frame (some (l, t, r, b)) =
    if leb_ℤ (pos 0) l && ltb_ℤ (pos 0) t && leb_ℤ (pos 0) r && leb_ℤ (pos 0) b
    then some (l, t, r, b)
    else none

-- get_pictures
unfoldable pub get_pictures : XServer → (direct : ℕ) → Win → Win
get_pictures x direct e =
    let f : Win = record e { pict = false } in
    if not f.mapped || not f.managed || f.id == direct
    then f
    else if_found (x.attributes f.id) f
        (λ a. if x.names f.id then record f { win_argb = a.alpha; pict = true } else f)

unfoldable pub damage_entry : Desktop → Win → Effects → Effects
damage_entry k e s = if_found (damage_win k e) s (λ (r : Rect). record s { damage = r ∷ s.damage })

abbrev pub new_win : XServer → ℕ → Attributes → Win
new_win x i a = record {
  id = i;
  x = a.x;
  y = a.y;
  w = a.width;
  h = a.height;
  bw = a.border_width;
  mapped = a.viewable;
  win_argb = false;
  managed = x.redirects i;
  kind = kind_plain;
  opacity = 4294967295;
  damaging = false;
  pict = false;
  anim = anim_none;
  ghost = false;
  wobbling = false;
  reach = 0;
  acrylic = 0;
  minrect = none;
  frame = none;
}

-- add_window's entry of a window that no other client redirected
unfoldable pub managed_win : XServer → (direct : ℕ) → Win → Win
unfolding window_kind read_frame get_pictures
managed_win x direct e =
    let f : Win = record e {
      damaging = true;
      kind = window_kind x e.id;
      opacity = prop_card (x.opacity e.id) 4294967295;
      acrylic = prop_card (x.acrylic e.id) 0;
      frame = read_frame (x.frame e.id);
    } in
    if f.mapped then get_pictures x direct f else f

abbrev pub append : Win → Effects → Effects
append e s = record s { wins = s.wins ++ e ∷ [] }

unfoldable pub enter_managed : Desktop → Win → Effects → Effects
unfolding damage_entry
enter_managed k f s = if f.mapped then damage_entry k f (append f s) else append f s

unfoldable pub enter_window : Desktop → XServer → ℕ → Attributes → Effects → Effects
unfolding enter_managed managed_win
enter_window k x i a s =
    let e = new_win x i a in
    if a.input_only
    then s
    else if not e.managed
    then append e s
    else enter_managed k (managed_win x s.direct e) s

-- add_window
unfoldable pub add_window : Desktop → XServer → ℕ → Effects → Effects
unfolding enter_window
add_window k x i s =
    if i == s.canvas || is_some (find_win i s.wins)
    then s
    else if_found (x.attributes i) s (λ a. enter_window k x i a s)

unfoldable pub restacked : XServer → Effects → Effects
restacked x s = record s { wins = restack x.tree s.wins }

-- CreateNotify, and ReparentNotify to the desktop
unfoldable pub handle_create : Desktop → XServer → ℕ → Effects → Effects
unfolding add_window restacked
handle_create k x i s = restacked x (add_window k x i s)

-- DestroyNotify, and ReparentNotify to another parent
unfoldable pub handle_destroy : Desktop → ℕ → Effects → Effects
unfolding damage_entry
handle_destroy k i s =
    if_found (find_win i s.wins) s
      (λ e. let t = damage_entry k e s in record t { wins = forget i t.wins })

abbrev pub opened : Settings → Win → Win
opened o e =
    if want_open o && not (is_plain e.kind) && ltb_ℤ offscreen e.x
    then record e { anim = anim_open }
    else e

abbrev pub mapped_win : Desktop → XServer → (direct : ℕ) → Win → Win
mapped_win k x direct e = opened k.options (
    get_pictures x direct
      (record e { mapped = true; kind = window_kind x e.id; frame = read_frame (x.frame e.id) }))

-- The array index that the pointer of find stands for.
abbrev pub slot : ℕ → List Win → ℕ
slot i [] = 0
slot i (e ∷ ws) = let rest = slot i ws in if is_own i e then 0 else suc rest

-- `restack(); damage_win(w);`: the pointer is into the array that restack writes, so that what is
-- damaged is the entry that stands there now.
unfoldable pub restack_and_damage : Desktop → XServer → ℕ → Effects → Effects
unfolding restacked damage_entry
restack_and_damage k x n s =
    let t = restacked x s in if_found (get_elem? t.wins n) t (λ e. damage_entry k e t)

-- MapNotify
unfoldable pub handle_map : Desktop → XServer → ℕ → Effects → Effects
unfolding get_pictures window_kind read_frame restack_and_damage
handle_map k x i s =
    if is_some (find_win i s.wins)
    then restack_and_damage k x (slot i s.wins)
        (record s { wins = on_own i (mapped_win k x s.direct) s.wins })
    else s

abbrev pub unmapped : Win → Win
unmapped e = record e { mapped = false; wobbling = false }

unfoldable pub fade_or_free : Desktop → XServer → ℕ → Win → Effects → Effects
unfolding make_ghost restacked
fade_or_free k x i e s =
    if want_open k.options && not (is_plain e.kind) && e.pict && ltb_ℤ offscreen e.x
    then restacked x
        (record s { wins = make_ghost i (unmapped e) anim_close (on_own i unmapped s.wins) })
    else record s { wins = on_own i (λ v. record (unmapped v) { pict = false }) s.wins }

-- UnmapNotify: its picture fades out, or is freed.
unfoldable pub handle_unmap : Desktop → XServer → ℕ → Effects → Effects
unfolding fade_or_free damage_entry
handle_unmap k x i s =
    if_found (find_win i s.wins) s (λ e. fade_or_free k x i e (damage_entry k e s))

-- The properties of PropertyNotify.
pub data Property : Type 0 where
  its_opacity : Property
  its_shadow : Property
  its_acrylic : Property
  its_frame : Property
  another : Property

unfoldable pub read_property : XServer → Property → Win → Win
unfolding window_kind read_frame
read_property x its_opacity e = record e { opacity = prop_card (x.opacity e.id) 4294967295 }
read_property x its_shadow e = record e { kind = window_kind x e.id }
read_property x its_acrylic e = record e { acrylic = prop_card (x.acrylic e.id) 0 }
read_property x its_frame e = record e { frame = read_frame (x.frame e.id) }
read_property x another e = e

-- PropertyNotify, of a window that is not the desktop
unfoldable pub handle_property : Desktop → XServer → ℕ → Property → Effects → Effects
unfolding damage_entry read_property
handle_property k x i p s = if_found (find_win i s.wins) s (λ e.
    damage_entry k (read_property x p e) (record s { wins = on_own i (read_property x p) s.wins }))
