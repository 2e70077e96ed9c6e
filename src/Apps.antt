-- ===== src/Apps.antt =====
-- wayland_app.c: native Wayland programs' windows, placed, moved and sized like other windows. A state
-- has one window, with what the seat keeps of its grab; positions of the pointer are in 1/256 pixels.
pub mod Handlers
pub mod Moved
pub mod Resized
pub mod Clipped
pub mod Restored
pub mod Events
use sg_compositor.Prelude.{
  ℕ, ◌+◌, ◌-◌, ◌*◌, Bool, true, false, not, ◌&&◌, ◌||◌, List, [], ◌∷◌, Option, none, some,
  if◌then◌else◌, ℤ, pos, negsuc, ◌+ℤ◌, ◌-ℤ◌, div_ℤ, leb_ℤ, ltb_ℤ,
}
use sg_compositor.Decor.Frames.{Box}

abbrev pub min_w : ℤ
min_w = pos 120

abbrev pub min_h : ℤ
min_h = pos 60

-- What is asked of the program.
pub data Ask : Type 0 where
  size : (width height : ℤ) → Ask
  maximize : Bool → Ask
  fullscreen : Bool → Ask
  resizing : Bool → Ask
  bounds : (width height : ℤ) → Ask
  capabilities : Ask
  configure : Ask

-- enum wlr_edges, a bit for each edge
pub record Edges : Type 0 where
  pub left : Bool
  pub right : Bool
  pub top : Bool
  pub bottom : Bool

-- The seat's grab_view (whether it is this window), grab_resize, grab_edges, grab_cx, grab_cy, grab_box.
pub record Grab : Type 0 where
  pub here : Bool
  pub resize : Bool
  pub edges : Edges
  pub cx : ℤ
  pub cy : ℤ
  pub box : Box

-- cg_xdg_shell_view and its cg_view, with the toplevel's state. The geometry is the program's own.
pub record App : Type 0 where
  pub managed : Bool
  pub mapped : Bool  -- view->wlr_surface is not NULL
  pub has_tree : Bool
  pub initialized : Bool
  pub geometry : Box
  pub lx : ℤ
  pub ly : ℤ
  pub gx : ℤ
  pub gy : ℤ
  pub maximized : Bool
  pub fullscreen : Bool
  pub user_placed : Bool
  pub want_maximized : Bool
  pub want_fullscreen : Bool
  pub restore : Box
  pub windowed : Box
  pub last_w : ℤ
  pub last_h : ℤ
  pub clip : Option Box
  pub grab : Grab
  pub asked : List Ask  -- newest first

-- view_get_layout_box of the window, decor_taskbar_h, and the seat's cursor and pressed buttons.
pub record Desk : Type 0 where
  pub layout : Box
  pub taskbar : ℕ
  pub cursor_x : ℤ
  pub cursor_y : ℤ
  pub button_count : ℕ

abbrev pub ask : Ask → App → App
ask q a = record a { asked = q ∷ a.asked }

unfoldable pub work_area : Desk → Box
work_area k =
    let h = k.layout.height -ℤ pos k.taskbar in
    record k.layout { height = if ltb_ℤ h min_h then min_h else h }

-- The part of the window that is drawn: down to the taskbar, in the window's coordinates.
unfoldable pub clip_box : Desk → App → Box
clip_box k a =
    let w = work_area k in
    let h = w.y +ℤ w.height -ℤ a.ly +ℤ pos 100000 in
    record {
      x = negsuc 99999;
      y = negsuc 99999;
      width = pos 200000;
      height = if ltb_ℤ h (pos 1) then pos 1 else h;
    }

unfoldable pub new_clip : Desk → App → Option Box
unfolding clip_box
new_clip k a =
    if not a.has_tree then a.clip else if not a.fullscreen then some (clip_box k a) else none

unfoldable pub update_clip : Desk → App → App
unfolding new_clip
update_clip k a = record a { clip = new_clip k a }

-- place: the visible corner to x, y.
unfoldable pub place : Desk → ℤ → ℤ → App → App
unfolding update_clip
place k x y a = update_clip k (record a {
  lx = x -ℤ a.geometry.x;
  ly = y -ℤ a.geometry.y;
  gx = a.geometry.x;
  gy = a.geometry.y;
})

unfoldable pub centre : Desk → App → App
unfolding place
centre k a =
    let w = work_area k in
    let b =
      place k (w.x +ℤ div_ℤ (w.width -ℤ a.geometry.width) 2)
        (w.y +ℤ div_ℤ (w.height -ℤ a.geometry.height) 2) a in
    if ltb_ℤ (b.ly +ℤ a.geometry.y) w.y then place k (b.lx +ℤ a.geometry.x) w.y b else b

abbrev pub is_empty_box : Box → Bool
is_empty_box b = leb_ℤ b.width (pos 0) || leb_ℤ b.height (pos 0)

-- The visible place and size.
abbrev pub visible_box : App → Box
visible_box a = record {
  x = a.lx +ℤ a.geometry.x;
  y = a.ly +ℤ a.geometry.y;
  width = a.geometry.width;
  height = a.geometry.height;
}

-- Two thirds of the work area, in its middle.
unfoldable pub middle_box : Box → Box
middle_box w = record {
  x = w.x +ℤ div_ℤ w.width 6;
  y = w.y +ℤ div_ℤ w.height 6;
  width = div_ℤ (w.width +ℤ w.width) 3;
  height = div_ℤ (w.height +ℤ w.height) 3;
}

abbrev pub has_size : App → Bool
has_size a = ltb_ℤ (pos 0) a.geometry.width && ltb_ℤ (pos 0) a.geometry.height

-- set_maximized, on
unfoldable pub maximize_on : Desk → App → App
unfolding place
maximize_on k a =
    let w = work_area k in
    place k w.x w.y (
      ask (maximize true) (
        ask (size w.width w.height) (record a {
          restore = if not a.maximized && has_size a then visible_box a else a.restore;
          maximized = true;
        })))

-- set_maximized, off
unfoldable pub maximize_off : Desk → App → App
unfolding place
maximize_off k a =
    let r = if is_empty_box a.restore then middle_box (work_area k) else a.restore in
    let b = place k r.x r.y (
      ask (maximize false)
        (ask (size r.width r.height) (record a { restore = r; maximized = false }))) in
    if not a.maximized then a else record b { user_placed = true }

unfoldable pub set_maximized : Desk → Bool → App → App
unfolding maximize_on maximize_off
set_maximized k on a = if on then maximize_on k a else maximize_off k a

-- set_fullscreen, on
unfoldable pub fullscreen_on : Desk → App → App
unfolding place
fullscreen_on k a = place k k.layout.x k.layout.y (
    ask (fullscreen true) (
      ask (size k.layout.width k.layout.height) (record a {
        windowed = if has_size a then visible_box a else a.windowed;
        fullscreen = true;
      })))

-- set_fullscreen, off
unfoldable pub fullscreen_off : Desk → App → App
unfolding maximize_on place centre
fullscreen_off k a =
    let b = ask (fullscreen false) (record a { fullscreen = false }) in
    if a.maximized
    then record (maximize_on k (record b { maximized = false })) { restore = a.restore }
    else if not (is_empty_box a.windowed)
    then place k a.windowed.x a.windowed.y (ask (size a.windowed.width a.windowed.height) b)
    else centre k (ask (size (pos 0) (pos 0)) b)

unfoldable pub set_fullscreen : Desk → Bool → App → App
unfolding fullscreen_on fullscreen_off
set_fullscreen k true a = if a.fullscreen then ask (fullscreen true) a else fullscreen_on k a
set_fullscreen k false a = if a.fullscreen then fullscreen_off k a else ask (fullscreen false) a
