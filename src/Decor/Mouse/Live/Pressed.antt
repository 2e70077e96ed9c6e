-- ===== src/Decor/Mouse/Live/Pressed.antt =====
-- decor.c's press when the mouse is used.
use sg_compositor.Prelude.{
  ℕ, ◌+◌, ◌-◌, ◌%◌, ◌^◌, ltb, ◌≡◌, refl, Bool, true, false, ◌&&◌, List, Option, none, some, arith,
  ◌==◌, ==_iff, if_cases, is_some, find_passes, ℤ,
}
use sg_compositor.World.{same_id}
use sg_compositor.Decor.Conf.{Conf}
use sg_compositor.Decor.Frames.{
  Part, part_bar, same_part, Frame, focus, Frames, Scene, decor_of, request,
}
use sg_compositor.Decor.Mouse.{
  double_click_ms, press_frame, click_frame, click_hit, drag_frame, drag_box, restored_box,
  unmaximize, hover_frames, drag_or_hover, decor_release, press_bar, decor_press, decor_drag,
  hover_at,
}
use sg_compositor.Decor.Mouse.Live.{
  IsLive, has, names, is_some-decor_of, names-map, on_frame-IsLive, move_view-IsLive,
  toggle_maximize-IsLive, click_part-IsLive,
}

press_bar-IsLive :
    (sc : Scene) (c : Conf) (t : ℕ) (cx cy : ℤ) (d : Frame) (s : Frames)
    → has d.view (names s.decors) ≡ true
    → IsLive s
    → IsLive (press_bar sc c t cx cy d s)
unfolding press_bar
press_bar-IsLive sc c t cx cy d s h l =
    if_cases IsLive
      (same_id s.press.last_bar_view (some d.view)
        && ltb ((t + 2 ^ 32 - s.press.last_bar_time) % 2 ^ 32) double_click_ms)
      (λ _.
        toggle_maximize-IsLive sc c d
          (record s { press = record s.press { last_bar_view = none; decor = none } })
          (tt, tt, l.2))
      (λ _. (l.0, h, l.2))

found :
    (v : ℕ) (fs : List Frame) (d : Frame) → decor_of v fs ≡ some d → has d.view (names fs) ≡ true
found v fs d e =
    let v' : d.view ≡ v = (==_iff d.view v).0 (find_passes (λ f. f.view == v) fs d e) in
    ground (arith, v', e, is_some-decor_of v fs)

press_frame-IsLive :
    (sc : Scene) (c : Conf) (v : ℕ) (part : Part) (t : ℕ) (cx cy : ℤ) (o : Option Frame)
    (s : Frames)
    → decor_of v s.decors ≡ o
    → IsLive s
    → IsLive (press_frame sc c v part t cx cy o s)
unfolding press_frame
press_frame-IsLive sc c v part t cx cy none s e l = l
press_frame-IsLive sc c v part t cx cy (some d) s e l =
    let u : Frames = record s { press = record s.press { decor = some v; part = part } } in
    let there : has v (names s.decors) ≡ true = ground (arith, e, is_some-decor_of v s.decors) in
    if_cases IsLive (same_part part part_bar)
      (λ _. press_bar-IsLive sc c t cx cy d u (found v s.decors d e) (there, l.1, l.2))
      (λ _. (there, l.1, l.2))

pub decor_press-IsLive :
    (sc : Scene) (c : Conf) (focused : Option ℕ) (hit : Option (ℕ × Part)) (t : ℕ) (cx cy : ℤ)
    (s : Frames)
    → IsLive s
    → IsLive (decor_press sc c focused hit t cx cy s).0
unfolding decor_press
decor_press-IsLive sc c focused none t cx cy s l = l
decor_press-IsLive sc c focused (some (v, part)) t cx cy s l =
    if_cases (λ (u : Frames). IsLive (press_frame sc c v part t cx cy (decor_of v s.decors) u))
      (same_id focused (some v))
      (λ _. press_frame-IsLive sc c v part t cx cy (decor_of v s.decors) s refl l)
      (λ _.
        press_frame-IsLive sc c v part t cx cy (decor_of v s.decors) (request (focus v) s) refl l)

click_frame-IsLive :
    (sc : Scene) (c : Conf) (part : Part) (o : Option Frame) (s : Frames)
    → IsLive s
    → IsLive (click_frame sc c part o s)
unfolding click_frame
click_frame-IsLive sc c part none s l = l
click_frame-IsLive sc c part (some d) s l = click_part-IsLive sc c d part s l

pub decor_release-IsLive :
    (sc : Scene) (c : Conf) (hit : Option (ℕ × Part)) (s : Frames)
    → IsLive s
    → IsLive (decor_release sc c hit s).0
unfolding decor_release click_hit
decor_release-IsLive sc c none s l =
    if_cases (λ (r : Frames × Bool). IsLive r.0) (is_some s.press.decor) (λ _. (tt, l.1, l.2))
      (λ _. l)
decor_release-IsLive sc c (some (v, part)) s l =
    if_cases (λ (r : Frames × Bool). IsLive r.0) (is_some s.press.decor)
      (λ _.
        let k =
          if_cases IsLive (same_id (some v) s.press.decor && same_part part s.press.part)
            (λ _. click_frame-IsLive sc c part (decor_of v s.decors) s l) (λ _. l) in
        (tt, k.1, k.2))
      (λ _. l)

decor_drag-IsLive :
    (sc : Scene) (c : Conf) (lx ly : ℤ) (d : Frame) (s : Frames)
    → IsLive s
    → IsLive (decor_drag sc c lx ly d s)
unfolding decor_drag unmaximize
decor_drag-IsLive sc c lx ly d s l =
    if_cases IsLive d.maximized
      (λ _. move_view-IsLive sc d.view (restored_box sc c lx ly d s.press) (unmaximize lx d s) (
        on_frame-IsLive d.view (λ f. record f { maximized = false }) s.decors
          (unmaximize lx d s).press (λ f. refl) l))
      (λ _. move_view-IsLive sc d.view (drag_box sc c lx ly d s.press) s l)

drag_frame-IsLive :
    (sc : Scene) (c : Conf) (lx ly : ℤ) (o : Option Frame) (s : Frames)
    → IsLive s
    → IsLive (drag_frame sc c lx ly o s)
unfolding drag_frame
drag_frame-IsLive sc c lx ly none s l = l
drag_frame-IsLive sc c lx ly (some d) s l = decor_drag-IsLive sc c lx ly d s l

hover_at_view : (hit : Option (ℕ × Part)) (d : Frame) → (hover_at hit d).view ≡ d.view
hover_at_view none d = refl
hover_at_view (some (v, part)) d = refl

hover_frames-IsLive :
    (hit : Option (ℕ × Part)) (s : Frames) → IsLive s → IsLive (hover_frames hit s)
unfolding hover_frames
hover_frames-IsLive hit s l = rw (names-map (hover_at hit) s.decors (hover_at_view hit)) l

pub drag_or_hover-IsLive :
    (sc : Scene) (c : Conf) (lx ly : ℤ) (o : Option ℕ) (hit : Option (ℕ × Part)) (s : Frames)
    → IsLive s
    → IsLive (drag_or_hover sc c lx ly o hit s).0
unfolding drag_or_hover
drag_or_hover-IsLive sc c lx ly none hit s l = hover_frames-IsLive hit s l
drag_or_hover-IsLive sc c lx ly (some v) hit s l =
    if_cases (λ (r : Frames × Bool). IsLive r.0) s.press.moving
      (λ _. drag_frame-IsLive sc c lx ly (decor_of v s.decors) s l)
      (λ _. hover_frames-IsLive hit s l)
