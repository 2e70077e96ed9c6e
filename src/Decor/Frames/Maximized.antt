-- ===== src/Decor/Frames/Maximized.antt =====
-- decor.c: a window is maximized and restored.
use mathlib.Core.Path.{subst, subst⁻¹}
use sg_compositor.Prelude.{
  ℕ, ◌*◌, ◌≡◌, refl, true, false, List, [], ◌∷◌, some, arith, ℤ, pos, ◌+ℤ◌, ◌-ℤ◌, int_laws,
}
use sg_compositor.Decor.Conf.{Conf, decor_title_h, decor_taskbar_h, body_w}
use sg_compositor.Decor.Frames.{
  Box, Frame, Frames, configure, mark_maximized, Scene, decor_of, on_frame, moved, toggled,
  move_view, maximized_box, toggled_box, toggle_maximize,
}

-- The window with its frame reaches the sides and the top of the box, and the taskbar.
abbrev pub IsFull : Conf → Box → Box → Type 0
IsFull c screen b =
    (b.x -ℤ pos (body_w c) ≡ screen.x)
    × (b.x +ℤ b.width +ℤ pos (body_w c) ≡ screen.x +ℤ screen.width)
    × (b.y -ℤ pos (decor_title_h c) ≡ screen.y)
    × (b.y +ℤ b.height +ℤ pos (body_w c) +ℤ pos (decor_taskbar_h c) ≡ screen.y +ℤ screen.height)

maximized_box-IsFull : (c : Conf) (screen : Box) → IsFull c screen (maximized_box c screen)
unfolding maximized_box
maximized_box-IsFull c screen = (omega int_laws, wide, omega int_laws, high)
  where
    wide :
        screen.x +ℤ pos (body_w c) +ℤ (screen.width -ℤ pos (2 * body_w c)) +ℤ pos (body_w c)
        ≡ screen.x +ℤ screen.width
    wide = omega int_laws

    high :
        screen.y
          +ℤ pos (decor_title_h c)
          +ℤ (screen.height -ℤ pos (decor_title_h c) -ℤ pos (body_w c) -ℤ pos (decor_taskbar_h c))
          +ℤ pos (body_w c)
          +ℤ pos (decor_taskbar_h c)
        ≡ screen.y +ℤ screen.height
    high = omega int_laws

-- The frame that is found is the one that has been changed.
decor_of-on_frame :
    (v : ℕ) (f : Frame → Frame) (fs : List Frame) (d : Frame)
    → ((e : Frame) → (f e).view ≡ e.view)
    → decor_of v fs ≡ some d
    → decor_of v (on_frame v f fs) ≡ some (f d)
decor_of-on_frame v f [] d h e = cc
decor_of-on_frame v f (a ∷ fs) d h e = ground (arith, h a, decor_of-on_frame v f fs d h)

-- The X window takes a size.
abbrev pub resized : ℕ → (w h : ℤ) → Frames → Frames
resized v w h s = record s {
  decors = on_frame v (λ d. record d { xs_width = w; xs_height = h }) s.decors;
}

abbrev pub after_toggle : Scene → Conf → Frame → Frame
after_toggle sc c d = moved (sc.layout_box d.view) (toggled_box sc c d) (toggled d)

toggled_view : (d : Frame) → (toggled d).view ≡ d.view
toggled_view d = ground arith

decor_of-toggle_maximize :
    (sc : Scene) (c : Conf) (d : Frame) (s : Frames)
    → decor_of d.view s.decors ≡ some d
    → decor_of d.view (toggle_maximize sc c d s).decors ≡ some (after_toggle sc c d)
unfolding toggle_maximize move_view
decor_of-toggle_maximize sc c d s e =
    decor_of-on_frame d.view (moved (sc.layout_box d.view) (toggled_box sc c d))
      (on_frame d.view toggled s.decors) (toggled d) (λ f. refl)
      (decor_of-on_frame d.view toggled s.decors d toggled_view e)

toggled_free :
    (d : Frame)
    → d.maximized ≡ false
    → toggled d ≡ record d {
      restore = record { x = d.lx; y = d.ly; width = d.xs_width; height = d.xs_height };
      maximized = true;
    }
toggled_free d free = rw free refl

abbrev maximized_frame : Scene → Conf → Frame → (w h : ℤ) → Frame
maximized_frame sc c d w h = record (after_toggle sc c d) { xs_width = w; xs_height = h }

-- The window is maximized, its X window takes some size, and the window is restored.
abbrev pub maximize_restore : Scene → Conf → Frame → (w h : ℤ) → Frames → Frames
maximize_restore sc c d w h s =
    toggle_maximize sc c (maximized_frame sc c d w h)
      (resized d.view w h (toggle_maximize sc c d s))

module _ (sc : Scene) (c : Conf) (d : Frame) (w h : ℤ) (s : Frames)
    (free : d.maximized ≡ false) where
  asked_full :
      (toggle_maximize sc c d s).requests
      ≡ configure d.view (maximized_box c (sc.layout_box d.view))
        ∷ mark_maximized d.view true
        ∷ s.requests
  unfolding toggle_maximize move_view toggled_box
  asked_full = rw free refl

  asked_back :
      (maximize_restore sc c d w h s).requests
      ≡ configure d.view (record { x = d.lx; y = d.ly; width = d.xs_width; height = d.xs_height })
        ∷ mark_maximized d.view false
        ∷ (toggle_maximize sc c d s).requests
  unfolding toggle_maximize move_view toggled_box
  asked_back = rw (toggled_free d free) refl

  back_again :
      let m = maximized_frame sc c d w h in
      let r = after_toggle sc c m in (r.maximized ≡ false) × (r.lx ≡ d.lx) × (r.ly ≡ d.ly)
  unfolding toggled_box
  back_again = rw (toggled_free d free) (refl, refl, refl)

-- Of a frame that is in the list and not maximised: toggle_maximize asks for a box with which the
-- frame fills the screen's box from its top and sides down to the taskbar; and a second one,
-- whatever size the X window took in between, asks for the size and place that the window had,
-- and leaves it there and not maximised.
pub toggle_maximize_twice :
    (sc : Scene) (c : Conf) (d : Frame) (w h : ℤ) (s : Frames)
    → decor_of d.view s.decors ≡ some d
    → d.maximized ≡ false
    → let screen = sc.layout_box d.view in
      ((toggle_maximize sc c d s).requests
        ≡ configure d.view (maximized_box c screen) ∷ mark_maximized d.view true ∷ s.requests)
      × IsFull c screen (maximized_box c screen)
      × ((maximize_restore sc c d w h s).requests
          ≡ configure d.view
              (record { x = d.lx; y = d.ly; width = d.xs_width; height = d.xs_height })
            ∷ mark_maximized d.view false
            ∷ (toggle_maximize sc c d s).requests)
      × (r : Frame) × (decor_of d.view (maximize_restore sc c d w h s).decors ≡ some r)
      × (r.maximized ≡ false)
      × (r.lx ≡ d.lx)
      × (r.ly ≡ d.ly)
toggle_maximize_twice sc c d w h s e free =
    let m = maximized_frame sc c d w h in
    let there =
      decor_of-on_frame d.view (λ f. record f { xs_width = w; xs_height = h })
        (toggle_maximize sc c d s).decors (after_toggle sc c d) (λ f. refl)
        (decor_of-toggle_maximize sc c d s e) in
    let back = back_again sc c d w h s free in
    let same : m.view ≡ d.view = toggled_view d in
    let found = decor_of-toggle_maximize sc c m (resized d.view w h (toggle_maximize sc c d s)) (
      subst⁻¹ (λ v. decor_of v (resized d.view w h (toggle_maximize sc c d s)).decors ≡ some m) same
        there) in
    (
      asked_full sc c d w h s free,
      maximized_box-IsFull c (sc.layout_box d.view),
      asked_back sc c d w h s free,
      after_toggle sc c m,
      subst (λ v. decor_of v (maximize_restore sc c d w h s).decors ≡ some (after_toggle sc c m))
          same found,
      back.0,
      back.1,
      back.2,
    )
