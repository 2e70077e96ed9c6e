-- ===== src/Decor/Mouse/Live.antt =====
-- The frames that decor.c's press points at.
pub mod Gone
pub mod Pressed
pub mod Events
use sg_compositor.Prelude.{
  ℕ, ◌+◌, ◌-◌, ◌%◌, ◌^◌, ltb, ◌≡◌, refl, sym, ap, ◌∙◌, Bool, true, false, not, ◌&&◌, ◌⊎◌, inl, inr,
  List, [], ◌∷◌, map, Option, none, some, arith, ◌==◌, ==_iff, if_cases, if◌then◌else◌, is_some,
  find, find_passes, any, keep, ℤ, Option-cases, Bool-cases,
}
use sg_compositor.World.{same_id}
use sg_compositor.Decor.Conf.{Conf}
use sg_compositor.Decor.Frames.{
  Box, Part, part_none, part_bar, part_min, part_max, part_close, same_part, Frame, Press, no_press,
  focus, Frames, Scene, decor_of, on_frame, request, decor_at, moved, toggled, move_view,
  toggle_maximize, toggled_box, set_toggled,
}
use sg_compositor.Decor.Mouse.{
  Candidate, gets_frame, decor_create, decor_destroy, decor_set_active, decor_set_fullscreen,
  double_click_ms, handle_commit, forget_press, take_focus, press_frame, click_part, click_frame,
  click_hit, drag_frame, drag_box, restored_box, unmaximize, hover_frames, drag_or_hover,
  decor_release, press_bar, decor_press, decor_button, decor_drag, hover_at, decor_motion,
}

abbrev names : List Frame → List ℕ
names fs = map (λ d. d.view) fs

abbrev has : ℕ → List ℕ → Bool
has v vs = any (λ u. u == v) vs

abbrev NoTwo : List ℕ → Type 0
NoTwo [] = Unit {0}
NoTwo (v ∷ vs) = (has v vs ≡ false) × NoTwo vs

-- A pointer to a frame that is there, or none.
abbrev Held : Option ℕ → List ℕ → Type 0
Held none vs = Unit {0}
Held (some v) vs = has v vs ≡ true

abbrev Live : List ℕ → Press → Type 0
Live vs p = Held p.decor vs × Held p.last_bar_view vs × NoTwo vs

-- No view has two frames, and what press points at is there.
abbrev pub IsLive : Frames → Type 0
IsLive s = Live (names s.decors) s.press

is_some-decor_of : (v : ℕ) (fs : List Frame) → is_some (decor_of v fs) ≡ has v (names fs)
is_some-decor_of v [] = refl
is_some-decor_of v (d ∷ fs) = ground (arith, is_some-decor_of v fs)

names-map :
    (f : Frame → Frame) (fs : List Frame)
    → ((d : Frame) → (f d).view ≡ d.view)
    → names (map f fs) ≡ names fs
names-map f [] h = refl
names-map f (d ∷ fs) h = cc (h d, names-map f fs h)

names-on_frame :
    (v : ℕ) (f : Frame → Frame) (fs : List Frame)
    → ((d : Frame) → (f d).view ≡ d.view)
    → names (on_frame v f fs) ≡ names fs
names-on_frame v f fs h =
    names-map (λ d. if d.view == v then f d else d) fs
      (λ d. if_cases (λ (e : Frame). e.view ≡ d.view) (d.view == v) (λ _. h d) (λ _. refl))

-- The frames' own changes leave press alive.
on_frame-IsLive :
    (v : ℕ) (f : Frame → Frame) (fs : List Frame) (p : Press)
    → ((d : Frame) → (f d).view ≡ d.view)
    → Live (names fs) p
    → Live (names (on_frame v f fs)) p
on_frame-IsLive v f fs p h l = rw (names-on_frame v f fs h) l

move_view-IsLive :
    (sc : Scene) (v : ℕ) (b : Box) (s : Frames) → IsLive s → IsLive (move_view sc v b s)
unfolding move_view
move_view-IsLive sc v b s l =
    on_frame-IsLive v (moved (sc.layout_box v) b) s.decors s.press (λ d. refl) l

toggled_view : (d : Frame) → (toggled d).view ≡ d.view
toggled_view d = ground arith

toggle_maximize-IsLive :
    (sc : Scene) (c : Conf) (d : Frame) (s : Frames) → IsLive s → IsLive (toggle_maximize sc c d s)
unfolding toggle_maximize
toggle_maximize-IsLive sc c d s l =
    move_view-IsLive sc d.view (toggled_box sc c d) (set_toggled d s)
      (on_frame-IsLive d.view toggled s.decors s.press toggled_view l)

click_part-IsLive :
    (sc : Scene) (c : Conf) (d : Frame) (part : Part) (s : Frames)
    → IsLive s
    → IsLive (click_part sc c d part s)
unfolding click_part
click_part-IsLive sc c d part_close s l = l
click_part-IsLive sc c d part_max s l = toggle_maximize-IsLive sc c d s l
click_part-IsLive sc c d part_min s l = l
click_part-IsLive sc c d part_none s l = l
click_part-IsLive sc c d part_bar s l = l
