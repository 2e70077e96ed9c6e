-- ===== src/Decor/Mouse/Drags.antt =====
-- decor.c: a window is dragged by its bar, and a double click on the bar.
use sg_compositor.Prelude.{
  ℕ, ◌+◌, ◌-◌, ◌%◌, ◌^◌, ◌<◌, ◌≤◌, ◌≡◌, refl, true, false, not, List, ◌∷◌, some, none, arith, ltb,
  if_cases, ℤ, pos, ◌+ℤ◌, ◌≤ℤ◌,
}
use sg_compositor.World.{same_id}
use sg_compositor.Decor.Conf.{Conf, decor_title_h}
use sg_compositor.Decor.Frames.{
  Box, Frame, Frames, Request, configure, mark_maximized, Scene, move_view, toggled_box,
  toggle_maximize,
}
use sg_compositor.Decor.Mouse.{
  double_click_ms, press_bar, drag_y, drag_box, restored_box, unmaximize, decor_drag,
}

drag_y_top :
    (sc : Scene) (c : Conf) (ly : ℤ) (d : Frame) (s : Frames)
    → (sc.layout_box d.view).y +ℤ pos (decor_title_h c) ≤ℤ drag_y sc c ly d s.press
unfolding drag_y
drag_y_top sc c ly d s = ground arith

-- The window is asked to a place where its bar is not above the screen.
abbrev pub IsBelowTop : Scene → Conf → Frame → List Request → Type 0
IsBelowTop sc c d new =
    (b : Box) × (old : List Request) × (new ≡ configure d.view b ∷ old)
    × ((sc.layout_box d.view).y +ℤ pos (decor_title_h c) ≤ℤ b.y)

pub decor_drag-IsBelowTop :
    (sc : Scene) (c : Conf) (lx ly : ℤ) (d : Frame) (s : Frames)
    → IsBelowTop sc c d (decor_drag sc c lx ly d s).requests
unfolding decor_drag move_view drag_box restored_box unmaximize
decor_drag-IsBelowTop sc c lx ly d s =
    if_cases (λ (t : Frames). IsBelowTop sc c d t.requests) d.maximized
      (λ _. (
        restored_box sc c lx ly d s.press,
        mark_maximized d.view false ∷ s.requests,
        refl,
        drag_y_top sc c ly d s,
      ))
      (λ _. (drag_box sc c lx ly d s.press, s.requests, refl, drag_y_top sc c ly d s))

-- Two presses on the bar within the time of a double click toggle the window once: the second
-- press is forgotten, so that a third one starts a move.
pub press_bar_twice :
    (sc : Scene) (c : Conf) (t1 t2 : ℕ) (cx cy : ℤ) (d : Frame) (s : Frames)
    → same_id s.press.last_bar_view (some d.view) ≡ false
    → t1 ≤ t2
    → t2 < t1 + double_click_ms
    → t2 < 2 ^ 32
    → let u = press_bar sc c t1 cx cy d s in
      let v = press_bar sc c t2 cx cy d u in
      (u.requests ≡ s.requests)
      × (u.press.moving ≡ true)
      × (v.requests
          ≡ configure d.view (toggled_box sc c d)
            ∷ mark_maximized d.view (not d.maximized)
            ∷ s.requests)
      × (v.press.decor ≡ none)
      × (v.press.last_bar_view ≡ none)
unfolding press_bar toggle_maximize move_view
press_bar_twice sc c t1 t2 cx cy d s fresh le lt w =
    let near : ltb ((t2 + 2 ^ 32 - t1) % 2 ^ 32) double_click_ms ≡ true = ground arith in
    let self : same_id (some d.view) (some d.view) ≡ true = ground arith in
    rw (fresh, self, near) (refl, refl, refl, refl, refl)
