-- ===== src/Decor/Mouse/Clicks.antt =====
-- decor.c: what a click asks for.
use sg_compositor.Prelude.{
  ℕ, ◌≡◌, refl, sym, ap, ◌∙◌, Bool, true, false, not, ◌&&◌, ◌⊎◌, inl, inr, List, ◌∷◌, Option, none,
  some, arith, ◌==◌, ==_iff, if_cases, is_some, find_passes, ℤ,
}
use sg_compositor.World.{same_id}
use sg_compositor.Decor.Conf.{Conf}
use sg_compositor.Decor.Frames.{
  Part, part_none, part_bar, part_min, part_max, part_close, same_part, Frame, Frames, Request,
  close, minimize, mark_maximized, configure, Scene, decor_of, toggle_maximize, toggled_box,
  move_view,
}
use sg_compositor.Decor.Mouse.{
  click_part, click_frame, click_hit, decor_release, decor_press, press_frame, take_focus,
}

-- The button was pressed on this part of this view's frame.
abbrev pub PressedOn : ℕ → Part → Frames → Type 0
PressedOn v part s = (s.press.decor ≡ some v) × (s.press.part ≡ part)

-- What a release may ask for, on this part of this frame.
abbrev pub Asked : Scene → Conf → Frame → Part → List Request → List Request → Type 0
Asked sc c d part_close old new = new ≡ close d.view ∷ old
Asked sc c d part_min old new = new ≡ minimize d.view ∷ old
Asked sc c d part_max old new =
    new ≡ configure d.view (toggled_box sc c d) ∷ mark_maximized d.view (not d.maximized) ∷ old
Asked sc c d part_bar old new = new ≡ old
Asked sc c d part_none old new = new ≡ old

click_part-Asked :
    (sc : Scene) (c : Conf) (d : Frame) (part : Part) (s : Frames)
    → Asked sc c d part s.requests (click_part sc c d part s).requests
unfolding click_part toggle_maximize move_view
click_part-Asked sc c d part_close s = refl
click_part-Asked sc c d part_min s = refl
click_part-Asked sc c d part_max s = refl
click_part-Asked sc c d part_bar s = refl
click_part-Asked sc c d part_none s = refl

same_part_eq : (a b : Part) → same_part a b ≡ true → a ≡ b
same_part_eq a b e = ground arith

same_part_refl : (a : Part) → same_part a a ≡ true
same_part_refl part_none = refl
same_part_refl part_bar = refl
same_part_refl part_min = refl
same_part_refl part_max = refl
same_part_refl part_close = refl

same_id_lem : (v : ℕ) (o : Option ℕ) → same_id (some v) o ≡ true → o ≡ some v
same_id_lem v none e = cc
same_id_lem v (some u) e = ground arith

-- The requests are those of a click on the part, if the pointer is where the button was pressed.
abbrev pub Clicked : Scene → Conf → Option (ℕ × Part) → Frames → List Request → Type 0
Clicked sc c hit s new =
    (new ≡ s.requests)
    ⊎ ((d : Frame) × (part : Part) × (hit ≡ some (d.view, part))
        × PressedOn d.view part s
        × (decor_of d.view s.decors ≡ some d)
        × Asked sc c d part s.requests new)

click_frame-Clicked :
    (sc : Scene) (c : Conf) (v : ℕ) (part : Part) (o : Option Frame) (s : Frames)
    → decor_of v s.decors ≡ o
    → PressedOn v part s
    → Clicked sc c (some (v, part)) s (click_frame sc c part o s).requests
unfolding click_frame
click_frame-Clicked sc c v part none s e p = inl refl
click_frame-Clicked sc c v part (some d) s e p =
    let v' : d.view ≡ v = (==_iff d.view v).0 (find_passes (λ f. f.view == v) s.decors d e) in
    inr (
      d,
      part,
      ap (λ u. some (u, part)) (sym v'),
      (p.0 ∙ ap (λ u. some u) (sym v'), p.1),
      ap (λ u. decor_of u s.decors) v' ∙ e,
      click_part-Asked sc c d part s,
    )

-- A release of the button asks for nothing new, or the pointer is on the part of the frame on
-- which the button was pressed, and it asks for exactly what a click on that part asks for: to
-- close or to minimise that window, or to maximise or restore it.
pub decor_release-Clicked :
    (sc : Scene) (c : Conf) (hit : Option (ℕ × Part)) (s : Frames)
    → Clicked sc c hit s (decor_release sc c hit s).0.requests
unfolding decor_release click_hit
decor_release-Clicked sc c none s =
    if_cases (λ (r : Frames × Bool). Clicked sc c none s r.0.requests) (is_some s.press.decor)
      (λ _. inl refl) (λ _. inl refl)
decor_release-Clicked sc c (some (v, part)) s =
    if_cases (λ (r : Frames × Bool). Clicked sc c (some (v, part)) s r.0.requests)
      (is_some s.press.decor)
      (λ _.
        if_cases (λ (r : Frames). Clicked sc c (some (v, part)) s r.requests)
          (same_id (some v) s.press.decor && same_part part s.press.part)
          (λ e. click_frame-Clicked sc c v part (decor_of v s.decors) s refl (
            same_id_lem v s.press.decor (ground (arith, e)),
            sym (same_part_eq part s.press.part (ground (arith, e))),
          ))
          (λ _. inl refl))
      (λ _. inl refl)

release_same :
    (sc : Scene) (c : Conf) (d : Frame) (part : Part) (s : Frames)
    → decor_of d.view s.decors ≡ some d
    → PressedOn d.view part s
    → same_part part part ≡ true
    → Asked sc c d part s.requests (decor_release sc c (some (d.view, part)) s).0.requests
unfolding decor_release click_hit click_frame
release_same sc c d part s e p r =
    let self : same_id (some d.view) (some d.view) ≡ true = ground arith in
    let there : is_some s.press.decor ≡ true = ap is_some p.0 in
    let view : same_id (some d.view) s.press.decor ≡ true = ap (same_id (some d.view)) p.0 ∙ self in
    let button : same_part part s.press.part ≡ true = ap (same_part part) p.1 ∙ r in
    rw (there, view, button, e) (click_part-Asked sc c d part s)

pressed_state :
    (sc : Scene) (c : Conf) (focused : Option ℕ) (d : Frame) (part : Part) (t : ℕ) (cx cy : ℤ)
    (s : Frames)
    → decor_of d.view s.decors ≡ some d
    → same_part part part_bar ≡ false
    → let u = (decor_press sc c focused (some (d.view, part)) t cx cy s).0 in
      PressedOn d.view part u × (u.decors ≡ s.decors)
unfolding decor_press press_frame take_focus
pressed_state sc c focused d part t cx cy s e nb =
    rw (e, nb)
      (if_cases
        (λ (u : Frames).
          PressedOn d.view part
            (record u { press = record u.press { decor = some d.view; part = part } })
          × (u.decors ≡ s.decors))
        (same_id focused (some d.view)) (λ _. ((refl, refl), refl)) (λ _. ((refl, refl), refl)))

-- A press and then a release on one button of a window's frame, whatever was pressed before, ask
-- for what a click on that button asks for.
pub press-release-Asked :
    (sc : Scene) (c : Conf) (focused : Option ℕ) (d : Frame) (part : Part) (t : ℕ) (cx cy : ℤ)
    (s : Frames)
    → decor_of d.view s.decors ≡ some d
    → same_part part part_bar ≡ false
    → let u = (decor_press sc c focused (some (d.view, part)) t cx cy s).0 in
      Asked sc c d part u.requests (decor_release sc c (some (d.view, part)) u).0.requests
press-release-Asked sc c focused d part t cx cy s e nb =
    let p = pressed_state sc c focused d part t cx cy s e nb in
    release_same sc c d part (decor_press sc c focused (some (d.view, part)) t cx cy s).0
      (ap (λ fs. decor_of d.view fs) p.1 ∙ e) p.0 (same_part_refl part)
