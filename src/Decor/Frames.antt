-- ===== src/Decor/Frames.antt =====
-- decor.c: the frames and what the mouse does to them. Positions of the pointer are in 1/256 of a
-- pixel; a frame is named by its view, which has one frame at most.
pub mod Hits
pub mod Maximized
use sg_compositor.Prelude.{
  ℕ, ◌+◌, ◌-◌, ◌*◌, ◌/◌, ◌%◌, ◌^◌, Bool, true, false, not, ◌&&◌, ◌||◌, List, [], ◌∷◌, map, Option,
  none, some, ltb, ◌==◌, if◌then◌else◌, find, any, keep, ℤ, pos, negsuc, sub_ℕ, ◌+ℤ◌, ◌-ℤ◌, div_ℤ,
  leb_ℤ, ltb_ℤ,
}
use sg_compositor.World.{same_id}
use sg_compositor.Decor.Conf.{Conf, decor_title_h, decor_taskbar_h, button_w, body_w}

-- struct wlr_box
pub record Box : Type 0 where
  pub x : ℤ
  pub y : ℤ
  pub width : ℤ
  pub height : ℤ

-- enum part
pub data Part : Type 0 where
  part_none part_bar part_min part_max part_close : Part

abbrev pub same_part : Part → Part → Bool
same_part part_none part_none = true
same_part part_bar part_bar = true
same_part part_min part_min = true
same_part part_max part_max = true
same_part part_close part_close = true
same_part _ _ = false

-- struct cg_decor, with what it uses of its view and of the X window.
pub record Frame : Type 0 where
  pub view : ℕ
  pub tree_enabled : Bool
  pub width : ℕ
  pub height : ℕ
  pub active : Bool
  pub hover : Part
  pub lx : ℤ
  pub ly : ℤ
  pub rx : ℤ
  pub ry : ℤ
  pub user_placed : Bool
  pub maximized : Bool
  pub restore : Box
  pub xs_width : ℤ  -- the X window's size
  pub xs_height : ℤ

-- The static press.
pub record Press : Type 0 where
  pub decor : Option ℕ
  pub part : Part
  pub moving : Bool
  pub cx : ℤ
  pub cy : ℤ
  pub x : ℤ
  pub y : ℤ
  pub last_bar_time : ℕ
  pub last_bar_view : Option ℕ

abbrev pub no_press : Press
no_press = record {
  decor = none;
  part = part_none;
  moving = false;
  cx = pos 0;
  cy = pos 0;
  x = pos 0;
  y = pos 0;
  last_bar_time = 0;
  last_bar_view = none;
}

-- What the frames ask of the seat, the X window manager and the session's X connection.
pub data Request : Type 0 where
  focus : ℕ → Request
  close : ℕ → Request
  minimize : ℕ → Request
  mark_maximized : ℕ → Bool → Request
  configure : ℕ → Box → Request

pub record Frames : Type 0 where
  pub decors : List Frame
  pub press : Press
  pub requests : List Request  -- newest first

-- Answers from outside: the bar that the scene has at a point, by its view, with the place in it in
-- whole pixels; the box of the layout's output that a view is on.
pub record Scene : Type 0 where
  pub bar_at : List Frame → ℤ → ℤ → Option (ℕ × ℤ)
  pub layout_box : ℕ → Box

abbrev pub decor_of : ℕ → List Frame → Option Frame
decor_of v fs = find (λ d. d.view == v) fs

abbrev pub on_frame : ℕ → (Frame → Frame) → List Frame → List Frame
on_frame v f fs = map (λ d. if d.view == v then f d else d) fs

abbrev pub request : Request → Frames → Frames
request r s = record s { requests = r ∷ s.requests }

-- The right end of the buttons, in the bar's coordinates, as decor_at has it.
unfoldable pub right_end : Conf → ℕ → ℤ
unfolding body_w
right_end c width = sub_ℕ (width + body_w c) (if c.caption == 0 then 0 else 2)

-- The columns of decor_at, from the right end on and with the buttons' width.
unfoldable pub part_in : (right : ℤ) → (bw : ℕ) → (sx : ℤ) → Part
part_in right bw sx =
    if leb_ℤ right sx
    then part_bar
    else if leb_ℤ (right -ℤ pos bw) sx
    then part_close
    else if leb_ℤ (right -ℤ pos (2 * bw)) sx
    then part_max
    else if leb_ℤ (right -ℤ pos (3 * bw)) sx
    then part_min
    else part_bar

unfoldable pub part_at : Conf → ℕ → ℤ → Part
unfolding part_in
part_at c width sx = part_in (right_end c width) (button_w c) sx

unfoldable pub decor_at : Scene → Conf → List Frame → ℤ → ℤ → Option (ℕ × Part)
unfolding part_at
decor_at sc c fs lx ly = over (sc.bar_at fs lx ly)
  where
    hit : ℤ → Option Frame → Option (ℕ × Part)
    hit sx none = none
    hit sx (some d) = some (d.view, part_at c d.width sx)

    over : Option (ℕ × ℤ) → Option (ℕ × Part)
    over none = none
    over (some (v, sx)) = hit sx (find (λ d. d.view == v && d.tree_enabled) fs)

-- The buttons as render draws them: button i, from the right, is between the two.
unfoldable pub slot_end : Conf → ℕ → ℕ → ℤ
unfolding body_w button_w
slot_end c width i =
    sub_ℕ (width + 2 * body_w c) (body_w c + (if c.caption == 0 then 0 else 2) + i * button_w c)

unfoldable pub slot_start : Conf → ℕ → ℕ → ℤ
unfolding slot_end
slot_start c width i =
    slot_end c width i -ℤ pos (button_w c) +ℤ pos (if c.caption == 0 then 0 else 2)

abbrev pub moved : Box → Box → Frame → Frame
moved layout b d = record d {
  lx = b.x;
  ly = b.y;
  rx = b.x -ℤ layout.x;
  ry = b.y -ℤ layout.y;
  user_placed = true;
}

-- move_view
unfoldable pub move_view : Scene → ℕ → Box → Frames → Frames
move_view sc v b s = record s {
  decors = on_frame v (moved (sc.layout_box v) b) s.decors;
  requests = configure v b ∷ s.requests;
}

-- The place of a maximized window: its frame fills the layout's box down to the taskbar.
unfoldable pub maximized_box : Conf → Box → Box
maximized_box c b = record {
  x = b.x +ℤ pos (body_w c);
  y = b.y +ℤ pos (decor_title_h c);
  width = b.width -ℤ pos (2 * body_w c);
  height = b.height -ℤ pos (decor_title_h c) -ℤ pos (body_w c) -ℤ pos (decor_taskbar_h c);
}

-- The first half of toggle_maximize, on the frame that is there.
abbrev pub toggled : Frame → Frame
toggled d =
    if not d.maximized
    then record d {
      restore = record { x = d.lx; y = d.ly; width = d.xs_width; height = d.xs_height };
      maximized = true;
    }
    else record d { maximized = false }

abbrev pub set_toggled : Frame → Frames → Frames
set_toggled d s = record s {
  decors = on_frame d.view toggled s.decors;
  requests = mark_maximized d.view (not d.maximized) ∷ s.requests;
}

-- toggle_maximize; the window moves to the box that its second half gives.
unfoldable pub toggled_box : Scene → Conf → Frame → Box
unfolding maximized_box
toggled_box sc c d = if not d.maximized then maximized_box c (sc.layout_box d.view) else d.restore

unfoldable pub toggle_maximize : Scene → Conf → Frame → Frames → Frames
unfolding move_view toggled_box
toggle_maximize sc c d s = move_view sc d.view (toggled_box sc c d) (set_toggled d s)
