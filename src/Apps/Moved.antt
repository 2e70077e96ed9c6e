-- ===== src/Apps/Moved.antt =====
-- wayland_app.c: where the user may move a window, and the size that is asked for.
use sg_compositor.Prelude.{
  ◌≡◌, refl, inl, inr, Bool-cases, Bool, true, false, not, ◌&&◌, ◌||◌, ◌∷◌, arith, ◌==◌, if_cases,
  if◌then◌else◌, ℤ, pos, ◌+ℤ◌, ◌-ℤ◌, ◌≤ℤ◌, ltb_ℤ, +ℤ_parts, -ℤ_parts, int_laws,
}
use sg_compositor.Decor.Frames.{Box}
use sg_compositor.Apps.{min_w, min_h, size, Edges, App, Desk, work_area, place, update_clip}
use sg_compositor.Apps.Handlers.{
  at_least, held_motion, wayland_app_grab_motion, moved_y, resized_width, resized_height, to_pixels,
}

work_area_height : (k : Desk) → min_h ≤ℤ (work_area k).height
unfolding work_area
work_area_height k = ground arith

-- From the work area's top to 32 pixels above its end.
abbrev pub InReach : Box → ℤ → Type 0
InReach w y = (w.y ≤ℤ y) × (y +ℤ pos 32 ≤ℤ w.y +ℤ w.height)

clamped :
    (y top h : ℤ)
    → pos 32 ≤ℤ h
    → let z = if ltb_ℤ y top then top else y in
      let low = top +ℤ h -ℤ pos 32 in
      let r = if ltb_ℤ low z then low else z in (top ≤ℤ r) × (r +ℤ pos 32 ≤ℤ top +ℤ h)
clamped y top h p =
    let e = top +ℤ h in
    let low = e -ℤ pos 32 in
    ground (
      arith,
      +ℤ_parts top h,
      -ℤ_parts e (pos 32),
      +ℤ_parts low (pos 32),
      +ℤ_parts y (pos 32),
      +ℤ_parts top (pos 32),
    )

moved_y-InReach : (k : Desk) (dy : ℤ) (b : Box) → InReach (work_area k) (moved_y k dy b)
unfolding moved_y
moved_y-InReach k dy b =
    let w = work_area k in clamped (b.y +ℤ dy) w.y w.height (omega (arith, work_area_height k))

resized_lem :
    (e : Edges) (dx dy : ℤ) (b : Box)
    → (min_w ≤ℤ resized_width e dx b) × (min_h ≤ℤ resized_height e dy b)
unfolding resized_width resized_height
resized_lem e dx dy b = (
  more (pos 120) (if e.left then b.width -ℤ dx else if e.right then b.width +ℤ dx else b.width),
  more (pos 60) (if e.top then b.height -ℤ dy else if e.bottom then b.height +ℤ dy else b.height),
)
  where
    more : (m n : ℤ) → m ≤ℤ at_least m n
    more m n = ground arith

-- What a motion of the pointer does with the window that the user holds.
abbrev pub Held : Desk → App → App → Type 0
Held k a b =
    if a.grab.resize
    then ((w : ℤ) × (h : ℤ) × (b.asked ≡ size w h ∷ a.asked)
        × (min_w ≤ℤ w)
        × (min_h ≤ℤ h)
        × (b.lx ≡ a.lx)
        × (b.ly ≡ a.ly))
    else (b.asked ≡ a.asked) × InReach (work_area k) (b.ly +ℤ b.geometry.y)

put_back : (x g : ℤ) → x -ℤ g +ℤ g ≡ x
put_back x g = omega int_laws

held_motion-Held : (k : Desk) (lx ly : ℤ) (a : App) → Held k a (held_motion k lx ly a)
unfolding held_motion place update_clip
held_motion-Held k lx ly a =
    let g = a.grab in
    let dx = to_pixels (lx -ℤ g.cx) in
    let dy = to_pixels (ly -ℤ g.cy) in
    let r = moved_y-InReach k dy g.box in
    elim (Bool-cases g.resize) [
      | inl e ↦ rw e (
        resized_width g.edges dx g.box,
        resized_height g.edges dy g.box,
        refl,
        (resized_lem g.edges dx dy g.box).0,
        (resized_lem g.edges dx dy g.box).1,
        refl,
        refl,
      )
      | inr e ↦ rw (e, put_back (moved_y k dy g.box) a.geometry.y) (refl, r)
    ]

-- A motion of the pointer, with a button held, over a mapped window that the user moves puts the
-- window's visible top between the work area's top and 32 pixels above its end, and asks for
-- nothing; of a window that the user sizes it asks for at least 120 by 60 pixels, and does not
-- move it.
pub wayland_app_grab_motion-Held :
    (k : Desk) (lx ly : ℤ) (a : App)
    → a.grab.here ≡ true
    → a.managed ≡ true
    → a.mapped ≡ true
    → (k.button_count == 0) ≡ false
    → let r = wayland_app_grab_motion k lx ly a in
      (r.1 ≡ true) × (r.0.user_placed ≡ true) × Held k a r.0
unfolding wayland_app_grab_motion
wayland_app_grab_motion-Held k lx ly a h m p n =
    if_cases Moving (not (a.grab.here && a.managed)) (λ e. absurd (ground (arith, e, h, m)))
      (λ _.
        if_cases Moving (k.button_count == 0 || not a.mapped)
          (λ e. absurd (ground (arith, e, p, n))) (λ _. (refl, refl, held_motion-Held k lx ly a)))
  where
    Moving : App × Bool → Type 0
    Moving r = (r.1 ≡ true) × (r.0.user_placed ≡ true) × Held k a r.0
