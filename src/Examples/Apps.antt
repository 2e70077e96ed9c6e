-- ===== src/Examples/Apps.antt =====
-- The theorems on wayland_app.c's windows, on concrete values.
use sg_compositor.Prelude.{
  ◌≡◌, refl, true, false, [], ◌∷◌, List, Option, none, some, if◌then◌else◌, pos,
}
use sg_compositor.Decor.Frames.{Box}
use sg_compositor.Apps.{Edges, Grab, App, Desk, clip_box, visible_box, set_fullscreen}
use sg_compositor.Apps.Handlers.{wayland_app_grab_motion, wayland_app_commit}
use sg_compositor.Apps.Moved.{Held, wayland_app_grab_motion-Held}
use sg_compositor.Apps.Resized.{Anchored, wayland_app_commit-Anchored}
use sg_compositor.Apps.Clipped.{EndsAbove}
use sg_compositor.Apps.Events.{
  Event, Mouse, asks_move, asks_fullscreen, pointer_moves, commits, app_run, app_run-EndsAbove,
}
use sg_compositor.Apps.Restored.{FullAndBack, set_fullscreen-FullAndBack}

abbrev desk : Desk
desk = record {
  layout = record { x = pos 0; y = pos 0; width = pos 1920; height = pos 1080 };
  taskbar = 40;
  cursor_x = pos 25600;
  cursor_y = pos 25600;
  button_count = 1;
}

-- The program draws a shadow of 10 pixels round its window.
abbrev drawn : Box
drawn = record { x = pos 10; y = pos 10; width = pos 800; height = pos 600 }

abbrev no_box : Box
no_box = record { x = pos 0; y = pos 0; width = pos 0; height = pos 0 }

abbrev left_edge : Edges
left_edge = record { left = true; right = false; top = false; bottom = false }

abbrev sizing : Grab
sizing = record {
  here = true;
  resize = true;
  edges = left_edge;
  cx = pos 25600;
  cy = pos 25600;
  box = record { x = pos 100; y = pos 100; width = pos 800; height = pos 600 };
}

abbrev viewer_at : Option Box → App
viewer_at clip = record {
  managed = true;
  mapped = true;
  has_tree = true;
  initialized = true;
  geometry = drawn;
  lx = pos 90;
  ly = pos 90;
  gx = pos 10;
  gy = pos 10;
  maximized = false;
  fullscreen = false;
  user_placed = false;
  want_maximized = false;
  want_fullscreen = false;
  restore = no_box;
  windowed = no_box;
  last_w = pos 800;
  last_h = pos 600;
  clip = clip;
  grab = sizing;
  asked = [];
}

abbrev viewer : App
viewer = viewer_at (some (clip_box desk (viewer_at none)))

-- The left edge is dragged by 300 pixels; the program takes the size.
wayland_app_grab_motion-Held_example :
    let r = wayland_app_grab_motion desk (pos 102400) (pos 25600) viewer in
    (r.1 ≡ true) × (r.0.user_placed ≡ true) × Held desk viewer r.0
wayland_app_grab_motion-Held_example =
    wayland_app_grab_motion-Held desk (pos 102400) (pos 25600) viewer refl refl refl refl

abbrev narrower : Box
narrower = record drawn { width = pos 500 }

wayland_app_commit-Anchored_example :
    let b = wayland_app_commit desk narrower viewer in
    Anchored true (pos 100) (pos 800) (visible_box b).x (visible_box b).width
    × Anchored false (pos 100) (pos 600) (visible_box b).y (visible_box b).height
wayland_app_commit-Anchored_example =
    wayland_app_commit-Anchored desk narrower viewer refl refl refl refl refl

abbrev busy : List (Mouse × Event)
busy =
    (at_100, asks_move (pos 0))
    ∷ (at_100, pointer_moves (pos 30000) (pos 400000))
    ∷ (at_100, commits narrower)
    ∷ (at_100, asks_fullscreen true)
    ∷ []
  where
    at_100 : Mouse
    at_100 = record { x = pos 25600; y = pos 25600; buttons = 1 }

app_run-EndsAbove_example :
    let b = app_run desk busy viewer in
    if b.fullscreen then b.clip ≡ none else ((c : Box) × (b.clip ≡ some c) × EndsAbove desk b c)
unfolding clip_box
app_run-EndsAbove_example = app_run-EndsAbove desk busy viewer (refl, refl)

set_fullscreen-FullAndBack_example :
    FullAndBack desk narrower viewer (set_fullscreen desk true viewer)
set_fullscreen-FullAndBack_example = set_fullscreen-FullAndBack desk narrower viewer refl refl
