-- ===== src/Apps/Resized.antt =====
-- wayland_app.c: the edges of a window that the user sizes.
use sg_compositor.Prelude.{
  ◌≡◌, Bool, true, false, not, ◌&&◌, ◌||◌, arith, if_cases, if◌then◌else◌, ℤ, ◌+ℤ◌, ◌-ℤ◌, int_laws,
}
use sg_compositor.Decor.Frames.{Box}
use sg_compositor.Apps.{App, Desk, place, update_clip, visible_box}
use sg_compositor.Apps.Handlers.{kept_x, kept_y, place_again, wayland_app_commit, same_ℤ}

-- The edge that is not dragged is where it was when the user began.
abbrev pub Anchored : (dragged : Bool) → (start len now_start now_len : ℤ) → Type 0
Anchored dragged start len now_start now_len =
    if dragged then now_start +ℤ now_len ≡ start +ℤ len else now_start ≡ start

kept-Anchored :
    (d : Bool) (x w g off : ℤ) → Anchored d x w ((if d then x +ℤ w -ℤ g else x) -ℤ off +ℤ off) g
kept-Anchored true x w g off = omega int_laws
kept-Anchored false x w g off = omega int_laws

-- A mapped window that the user sizes commits a geometry of another size: where the left edge is
-- dragged the right edge is where it was at the start, otherwise the left edge is; and so for the
-- top and the bottom.
pub wayland_app_commit-Anchored :
    (k : Desk) (geometry : Box) (a : App)
    → a.mapped ≡ true
    → a.has_tree ≡ true
    → (same_ℤ geometry.width a.last_w && same_ℤ geometry.height a.last_h) ≡ false
    → a.grab.here ≡ true
    → a.grab.resize ≡ true
    → let b = wayland_app_commit k geometry a in
      let start = a.grab.box in
      let now = visible_box b in
      Anchored a.grab.edges.left start.x start.width now.x now.width
      × Anchored a.grab.edges.top start.y start.height now.y now.height
unfolding wayland_app_commit place_again place update_clip kept_x kept_y
wayland_app_commit-Anchored k geometry a m t n h r =
    if_cases Still (not a.mapped || not a.has_tree) (λ e. absurd (ground (arith, e, m, t)))
      (λ _.
        if_cases Still (same_ℤ geometry.width a.last_w && same_ℤ geometry.height a.last_h)
          (λ e. absurd (ground (arith, e, n)))
          (λ _.
            if_cases Still (a.grab.here && a.grab.resize)
              (λ _. (
                kept-Anchored a.grab.edges.left a.grab.box.x a.grab.box.width geometry.width
                    geometry.x,
                kept-Anchored a.grab.edges.top a.grab.box.y a.grab.box.height geometry.height
                    geometry.y,
              ))
              (λ e. absurd (ground (arith, e, h, r)))))
  where
    Still : App → Type 0
    Still b =
        Anchored a.grab.edges.left a.grab.box.x a.grab.box.width (visible_box b).x
          (visible_box b).width
        × Anchored a.grab.edges.top a.grab.box.y a.grab.box.height (visible_box b).y
            (visible_box b).height
