-- ===== src/Decor/Mouse.antt =====
-- decor.c: frames come and go with their windows, and the mouse presses their bars and buttons.
pub mod Live
pub mod Clicks
pub mod Drags
use sg_compositor.Prelude.{
  ℕ, ◌+◌, ◌-◌, ◌*◌, ◌%◌, ◌^◌, Bool, true, false, not, ◌&&◌, ◌||◌, List, [], ◌∷◌, map, Option, none,
  some, ltb, ◌==◌, if◌then◌else◌, is_some, find, keep, ℤ, pos, ◌+ℤ◌, ◌-ℤ◌, div_ℤ, ltb_ℤ,
}
use sg_compositor.World.{View, same_id}
use sg_compositor.Decor.Conf.{Conf, decor_title_h}
use sg_compositor.Decor.Frames.{
  Box, Part, part_none, part_bar, part_min, part_max, part_close, same_part, Frame, Press, no_press,
  focus, close, minimize, mark_maximized, Frames, Scene, decor_of, on_frame, request, decor_at,
  move_view, toggle_maximize,
}

-- A window that may get a frame: its view, and what decor_create reads of the X window and surface.
pub record Candidate : Type 0 where
  pub view : View
  pub fullscreen : Bool
  pub decorations_all : Bool  -- WLR_XWAYLAND_SURFACE_DECORATIONS_ALL
  pub width : ℕ
  pub height : ℕ
  pub new_frame : Frame  -- the view's geometry; the rest is set here

unfoldable pub gets_frame : Candidate → List Frame → Bool
gets_frame k fs =
    k.view.has_tree
    && not (is_some k.view.elevated)
    && not k.view.override_redirect
    && not k.fullscreen
    && not k.view.shell_desktop
    && k.decorations_all
    && not (is_some (decor_of k.view.id fs))

-- decor_create; `made`: the allocations succeed.
unfoldable pub decor_create : (made : Bool) → (focused : Option ℕ) → Candidate → Frames → Frames
unfolding gets_frame
decor_create made focused k s =
    if gets_frame k s.decors && made
    then record s {
      decors =
          record k.new_frame {
            view = k.view.id;
            tree_enabled = true;
            width = k.width;
            height = k.height;
            active = same_id focused (some k.view.id);
            hover = part_none;
          }
          ∷ s.decors;
    }
    else s

abbrev pub forget_press : ℕ → Press → Press
forget_press v p =
    let q = if same_id p.decor (some v) then no_press else p in
    if same_id q.last_bar_view (some v) then record q { last_bar_view = none } else q

-- decor_destroy
unfoldable pub decor_destroy : ℕ → Frames → Frames
decor_destroy v s =
    if is_some (decor_of v s.decors)
    then record s {
      press = forget_press v s.press;
      decors = keep (λ d. not (d.view == v)) s.decors;
    }
    else s

-- decor_set_active
unfoldable pub decor_set_active : ℕ → Bool → Frames → Frames
decor_set_active v active s = record s {
  decors = on_frame v (λ d. record d { active = active }) s.decors;
}

-- decor_set_fullscreen
unfoldable pub decor_set_fullscreen : ℕ → Bool → Frames → Frames
decor_set_fullscreen v fullscreen s = record s {
  decors = on_frame v (λ d. record d { tree_enabled = not fullscreen }) s.decors;
}

-- handle_commit, with the size of the surface's current state
unfoldable pub handle_commit : ℕ → (width height : ℕ) → Frames → Frames
handle_commit v width height s = record s {
  decors = on_frame v (λ d. record d { width = width; height = height }) s.decors;
}

-- What a click on a part does.
unfoldable pub click_part : Scene → Conf → Frame → Part → Frames → Frames
unfolding toggle_maximize
click_part sc c d part_close s = request (close d.view) s
click_part sc c d part_max s = toggle_maximize sc c d s
click_part sc c d part_min s = request (minimize d.view) s
click_part sc c d _ s = s

abbrev pub release_press : Frames → Frames
release_press s = record s {
  press = record s.press { decor = none; part = part_none; moving = false };
}

unfoldable pub click_frame : Scene → Conf → Part → Option Frame → Frames → Frames
unfolding click_part
click_frame sc c part none s = s
click_frame sc c part (some d) s = click_part sc c d part s

unfoldable pub click_hit : Scene → Conf → Option (ℕ × Part) → Frames → Frames
unfolding click_frame
click_hit sc c none s = s
click_hit sc c (some (v, part)) s =
    if same_id (some v) s.press.decor && same_part part s.press.part
    then click_frame sc c part (decor_of v s.decors) s
    else s

-- decor_button, when the button is released, with the part under the pointer.
unfoldable pub decor_release : Scene → Conf → Option (ℕ × Part) → Frames → Frames × Bool
unfolding click_hit
decor_release sc c hit s =
    if is_some s.press.decor then (release_press (click_hit sc c hit s), true) else (s, false)

abbrev pub double_click_ms : ℕ
double_click_ms = 400

-- A press on a bar: the second of a double click, or the start of a move. Times are 32-bit numbers.
unfoldable pub press_bar : Scene → Conf → (time_msec : ℕ) → (cx cy : ℤ) → Frame → Frames → Frames
unfolding toggle_maximize
press_bar sc c time_msec cx cy d s =
    if same_id s.press.last_bar_view (some d.view)
      && ltb ((time_msec + 2 ^ 32 - s.press.last_bar_time) % 2 ^ 32) double_click_ms
    then toggle_maximize sc c d
        (record s { press = record s.press { last_bar_view = none; decor = none } })
    else record s {
      press = record s.press {
        last_bar_view = some d.view;
        last_bar_time = time_msec;
        moving = true;
        cx = cx;
        cy = cy;
        x = d.lx;
        y = d.ly;
      };
    }

-- The frame under the pointer, once it has the focus.
unfoldable pub press_frame :
    Scene → Conf → ℕ → Part → (time_msec : ℕ) → (cx cy : ℤ) → Option Frame → Frames → Frames
unfolding press_bar
press_frame sc c v part time_msec cx cy none s = s
press_frame sc c v part time_msec cx cy (some d) s =
    let t : Frames = record s { press = record s.press { decor = some v; part = part } } in
    if same_part part part_bar then press_bar sc c time_msec cx cy d t else t

unfoldable pub take_focus : (focused : Option ℕ) → ℕ → Frames → Frames
take_focus focused v s = if same_id focused (some v) then s else request (focus v) s

-- decor_button, when the button is pressed.
unfoldable pub decor_press :
    Scene
    → Conf
    → (focused : Option ℕ) → Option (ℕ × Part)
    → (time_msec : ℕ) → (cx cy : ℤ) → Frames
    → Frames × Bool
unfolding press_frame take_focus
decor_press sc c focused none time_msec cx cy s = (s, false)
decor_press sc c focused (some (v, part)) time_msec cx cy s =
    (press_frame sc c v part time_msec cx cy (decor_of v s.decors) (take_focus focused v s), true)

-- The whole of decor_button, with the pointer's place.
unfoldable pub decor_button :
    Scene
    → Conf
    → (focused : Option ℕ) → (pressed : Bool) → (time_msec : ℕ) → (lx ly : ℤ) → Frames
    → Frames × Bool
unfolding decor_release decor_press decor_at
decor_button sc c focused pressed time_msec lx ly s =
    let hit = decor_at sc c s.decors lx ly in
    if pressed then decor_press sc c focused hit time_msec lx ly s else decor_release sc c hit s

-- (int) of a place in 1/256 pixels
unfoldable pub to_pixels : ℤ → ℤ
unfolding div_ℤ
to_pixels n = div_ℤ n 256

-- The row that a move leads to, never above the place where the bar is at the screen's top.
unfoldable pub drag_y : Scene → Conf → (ly : ℤ) → Frame → Press → ℤ
unfolding to_pixels
drag_y sc c ly d p =
    let y = p.y +ℤ to_pixels (ly -ℤ p.cy) in
    let top = (sc.layout_box d.view).y +ℤ pos (decor_title_h c) in if ltb_ℤ y top then top else y

unfoldable pub drag_box : Scene → Conf → (lx ly : ℤ) → Frame → Press → Box
unfolding drag_y to_pixels
drag_box sc c lx ly d p = record {
  x = p.x +ℤ to_pixels (lx -ℤ p.cx);
  y = drag_y sc c ly d p;
  width = d.xs_width;
  height = d.xs_height;
}

-- A maximized window is restored under the pointer.
unfoldable pub under_pointer : (lx : ℤ) → Frame → ℤ
unfolding to_pixels
under_pointer lx d = to_pixels lx -ℤ div_ℤ d.restore.width 2

unfoldable pub restored_box : Scene → Conf → (lx ly : ℤ) → Frame → Press → Box
unfolding drag_y under_pointer
restored_box sc c lx ly d p = record {
  x = under_pointer lx d;
  y = drag_y sc c ly d p;
  width = d.restore.width;
  height = d.restore.height;
}

unfoldable pub unmaximize : (lx : ℤ) → Frame → Frames → Frames
unfolding under_pointer
unmaximize lx d s = record s {
  decors = on_frame d.view (λ f. record f { maximized = false }) s.decors;
  press = record s.press { x = under_pointer lx d; cx = lx };
  requests = mark_maximized d.view false ∷ s.requests;
}

-- The move in decor_motion.
unfoldable pub decor_drag : Scene → Conf → (lx ly : ℤ) → Frame → Frames → Frames
unfolding move_view drag_box restored_box unmaximize
decor_drag sc c lx ly d s =
    if d.maximized
    then move_view sc d.view (restored_box sc c lx ly d s.press) (unmaximize lx d s)
    else move_view sc d.view (drag_box sc c lx ly d s.press) s

abbrev pub hover_at : Option (ℕ × Part) → Frame → Frame
hover_at none d = record d { hover = part_none }
hover_at (some (v, part)) d = record d {
  hover = if d.view == v && not (same_part part part_bar) then part else part_none;
}

unfoldable pub drag_frame : Scene → Conf → (lx ly : ℤ) → Option Frame → Frames → Frames
unfolding decor_drag
drag_frame sc c lx ly none s = s
drag_frame sc c lx ly (some d) s = decor_drag sc c lx ly d s

unfoldable pub hover_frames : Option (ℕ × Part) → Frames → Frames
hover_frames hit s = record s { decors = map (hover_at hit) s.decors }

abbrev pub drag_or_hover :
    Scene → Conf → (lx ly : ℤ) → Option ℕ → Option (ℕ × Part) → Frames → Frames × Bool
unfolding drag_frame hover_frames
drag_or_hover sc c lx ly none hit s = (hover_frames hit s, false)
drag_or_hover sc c lx ly (some v) hit s =
    if s.press.moving
    then (drag_frame sc c lx ly (decor_of v s.decors) s, true)
    else (hover_frames hit s, false)

-- decor_motion: a move goes on, or the button under the pointer is lit.
unfoldable pub decor_motion : Scene → Conf → (lx ly : ℤ) → Frames → Frames × Bool
unfolding drag_or_hover decor_at
decor_motion sc c lx ly s = drag_or_hover sc c lx ly s.press.decor (decor_at sc c s.decors lx ly) s
