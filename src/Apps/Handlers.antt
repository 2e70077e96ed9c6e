-- ===== src/Apps/Handlers.antt =====
-- wayland_app.c: the program's requests and commits, the pointer's motion while the user moves or
-- sizes the window, and the window's first place.
use sg_compositor.Prelude.{
  Bool, true, false, not, ◌&&◌, ◌||◌, ◌==◌, if◌then◌else◌, ℤ, pos, ◌+ℤ◌, ◌-ℤ◌, div_ℤ, leb_ℤ, ltb_ℤ,
}
use sg_compositor.Decor.Frames.{Box}
use sg_compositor.Apps.{
  min_w, min_h, size, maximize, fullscreen, resizing, bounds, capabilities, configure, Edges, App,
  Desk, ask, work_area, update_clip, place, centre, is_empty_box, visible_box, middle_box,
  set_maximized, maximize_on, maximize_off, set_fullscreen,
}

abbrev pub no_edges : Edges
no_edges = record { left = false; right = false; top = false; bottom = false }

-- (int) of a place in 1/256 pixels
unfoldable pub to_pixels : ℤ → ℤ
to_pixels n = div_ℤ n 256

abbrev pub start_grab : Desk → Bool → Edges → Box → App → App
start_grab k resize edges box a = record a {
  grab = record {
    here = true;
    resize = resize;
    edges = edges;
    cx = k.cursor_x;
    cy = k.cursor_y;
    box = box;
  };
}

-- A maximized window under the pointer; its left end there is computed in floating point.
unfoldable pub pull_off : Desk → (left : ℤ) → App → App
unfolding maximize_off place
pull_off k left a = place k left (to_pixels k.cursor_y -ℤ pos 10) (maximize_off k a)

-- handle_request_move
unfoldable pub handle_request_move : Desk → (left : ℤ) → App → App
unfolding pull_off
handle_request_move k left a =
    if not a.mapped || a.fullscreen || k.button_count == 0
    then a
    else let b = if a.maximized then pull_off k left a else a in
      let v = visible_box b in
      start_grab k false no_edges
        (record v {
          width = if a.maximized then b.restore.width else a.geometry.width;
          height = if a.maximized then b.restore.height else a.geometry.height;
        })
        b

-- handle_request_resize
unfoldable pub handle_request_resize : Desk → Edges → App → App
handle_request_resize k edges a =
    if not a.mapped || a.fullscreen || a.maximized || k.button_count == 0
    then a
    else ask (resizing true) (start_grab k true edges (visible_box a) a)

-- handle_request_maximize
unfoldable pub handle_request_maximize : Desk → (requested : Bool) → App → App
unfolding set_maximized
handle_request_maximize k requested a =
    if not a.initialized
    then a
    else if not a.mapped
    then ask configure (record a { want_maximized = requested })
    else ask configure (set_maximized k requested a)

-- wayland_app_request_fullscreen
unfoldable pub wayland_app_request_fullscreen : Desk → (requested : Bool) → App → App
unfolding set_fullscreen
wayland_app_request_fullscreen k requested a =
    if not a.initialized
    then a
    else if not a.mapped
    then ask configure (record a { want_fullscreen = requested })
    else set_fullscreen k requested a

-- wayland_app_grab_end
unfoldable pub wayland_app_grab_end : App → App
wayland_app_grab_end a =
    let b = if a.grab.resize then ask (resizing false) a else a in
    if a.grab.here && a.managed then record b { grab = record a.grab { here = false } } else a

-- A move: the window's top stays on the screen, above the taskbar.
unfoldable pub moved_y : Desk → (dy : ℤ) → Box → ℤ
moved_y k dy b =
    let w = work_area k in
    let y = b.y +ℤ dy in
    let z = if ltb_ℤ y w.y then w.y else y in
    let low = w.y +ℤ w.height -ℤ pos 32 in if ltb_ℤ low z then low else z

abbrev pub at_least : ℤ → ℤ → ℤ
at_least m n = if ltb_ℤ n m then m else n

-- The size that a resize asks for.
unfoldable pub resized_width : Edges → (dx : ℤ) → Box → ℤ
resized_width e dx b =
    at_least min_w (if e.left then b.width -ℤ dx else if e.right then b.width +ℤ dx else b.width)

unfoldable pub resized_height : Edges → (dy : ℤ) → Box → ℤ
resized_height e dy b =
    at_least min_h (if e.top then b.height -ℤ dy else if e.bottom then b.height +ℤ dy else b.height)

unfoldable pub held_motion : Desk → (lx ly : ℤ) → App → App
unfolding moved_y resized_width resized_height
held_motion k lx ly a =
    let g = a.grab in
    let dx = to_pixels (lx -ℤ g.cx) in
    let dy = to_pixels (ly -ℤ g.cy) in
    if g.resize
    then ask (size (resized_width g.edges dx g.box) (resized_height g.edges dy g.box)) a
    else place k (g.box.x +ℤ dx) (moved_y k dy g.box) a

-- wayland_app_grab_motion, with the pointer's place
unfoldable pub wayland_app_grab_motion : Desk → (lx ly : ℤ) → App → App × Bool
unfolding wayland_app_grab_end held_motion
wayland_app_grab_motion k lx ly a =
    if not (a.grab.here && a.managed)
    then (a, false)
    else if k.button_count == 0 || not a.mapped
    then (wayland_app_grab_end a, false)
    else (record (held_motion k lx ly a) { user_placed = true }, true)

-- What the version of the program's xdg_wm_base knows of.
unfoldable pub announce : Desk → (knows_capabilities knows_bounds : Bool) → App → App
announce k kc kb a =
    let w = work_area k in
    let b = if kc then ask capabilities a else a in
    if kb then ask (bounds w.width w.height) b else b

-- The size of the first configure.
unfoldable pub first_size : Desk → (requested_fullscreen requested_maximized : Bool) → App → App
first_size k rf rm a =
    let w = work_area k in
    if rf || a.want_fullscreen
    then ask (fullscreen true)
        (ask (size k.layout.width k.layout.height) (record a { want_fullscreen = true }))
    else if rm || a.want_maximized
    then ask (maximize true) (ask (size w.width w.height) (record a { want_maximized = true }))
    else ask (size (pos 0) (pos 0)) a

-- wayland_app_initial_configure
unfoldable pub wayland_app_initial_configure :
    Desk
    → (knows_capabilities knows_bounds requested_fullscreen requested_maximized : Bool) → App
    → App
unfolding announce first_size
wayland_app_initial_configure k kc kb rf rm a = first_size k rf rm (announce k kc kb a)

-- wayland_app_place: a window that is, or wants to be, or has to be maximized.
abbrev pub is_too_large : Box → Box → Bool
is_too_large w g = ltb_ℤ w.width g.width || ltb_ℤ w.height g.height

unfoldable pub place_maximized : Desk → App → App
unfolding maximize_on
place_maximized k a =
    let w = work_area k in
    let b = maximize_on k (record a { want_maximized = false; maximized = false }) in
    let r = if is_empty_box a.restore then b.restore else a.restore in
    record b {
      restore =
          if is_empty_box r || leb_ℤ w.width r.width || leb_ℤ w.height r.height
          then middle_box w
          else r;
    }

unfoldable pub place_windowed : Desk → App → App
unfolding place_maximized centre update_clip
place_windowed k a =
    if a.want_maximized
      || a.maximized
      || (not a.user_placed && is_too_large (work_area k) a.geometry)
    then place_maximized k a
    else if not a.user_placed
    then centre k a
    else update_clip k a

unfoldable pub place_now : Desk → App → App
unfolding place_windowed place
place_now k b =
    if b.fullscreen
    then place k k.layout.x k.layout.y (ask (size k.layout.width k.layout.height) b)
    else place_windowed k b

-- wayland_app_place: the window is mapped, or the screen has changed.
unfoldable pub wayland_app_place : Desk → App → App
unfolding place_now
wayland_app_place k a =
    place_now k
      (if a.want_fullscreen then record a { want_fullscreen = false; fullscreen = true } else a)

-- wayland_app_commit: the edge opposite to a dragged one is kept.
unfoldable pub kept_x : Edges → Box → Box → ℤ
kept_x e b g = if e.left then b.x +ℤ b.width -ℤ g.width else b.x

unfoldable pub kept_y : Edges → Box → Box → ℤ
kept_y e b g = if e.top then b.y +ℤ b.height -ℤ g.height else b.y

-- A new size of the visible window.
unfoldable pub place_again : Desk → App → App
unfolding kept_x kept_y place centre
place_again k a =
    let g = a.grab in
    if g.here && g.resize
    then place k (kept_x g.edges g.box a.geometry) (kept_y g.edges g.box a.geometry) a
    else if not a.maximized && not a.fullscreen && not a.user_placed
    then centre k a
    else place k (a.lx +ℤ a.gx) (a.ly +ℤ a.gy) a

abbrev pub same_ℤ : ℤ → ℤ → Bool
same_ℤ m n = leb_ℤ m n && leb_ℤ n m

-- wayland_app_commit, with the geometry that the program has committed.
unfoldable pub wayland_app_commit : Desk → (geometry : Box) → App → App
unfolding place_again
wayland_app_commit k geometry a =
    let b = record a { geometry = geometry } in
    if not a.mapped || not a.has_tree
    then b
    else if same_ℤ geometry.width a.last_w && same_ℤ geometry.height a.last_h
    then b
    else place_again k (record b { last_w = geometry.width; last_h = geometry.height })
