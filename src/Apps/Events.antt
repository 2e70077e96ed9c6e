-- ===== src/Apps/Events.antt =====
-- Everything that happens to a window of wayland_app.c, one event at a time.
use sg_compositor.Prelude.{
  ℕ, ◌≡◌, Bool, true, false, not, ◌&&◌, ◌||◌, List, [], ◌∷◌, none, some, ◌==◌, if_cases,
  if◌then◌else◌, ℤ, pos, ◌-ℤ◌, ◌+ℤ◌,
}
use sg_compositor.Decor.Frames.{Box}
use sg_compositor.Apps.{Edges, App, Desk, clip_box, work_area, maximize_off}
use sg_compositor.Apps.Handlers.{
  to_pixels, pull_off, handle_request_move, handle_request_resize, handle_request_maximize,
  wayland_app_request_fullscreen, wayland_app_grab_end, held_motion, moved_y,
  wayland_app_grab_motion, announce, first_size, wayland_app_initial_configure, wayland_app_place,
  wayland_app_commit,
}
use sg_compositor.Apps.Clipped.{
  IsClipped, EndsAbove, clip_box-EndsAbove, place-IsClipped, maximize_off-IsClipped,
  set_maximized-IsClipped, set_fullscreen-IsClipped, wayland_app_place-IsClipped,
  wayland_app_commit-IsClipped,
}

-- The pointer and the buttons when it happens.
pub record Mouse : Type 0 where
  pub x : ℤ
  pub y : ℤ
  pub buttons : ℕ

pub data Event : Type 0 where
  asks_move : (left : ℤ) → Event
  asks_resize : Edges → Event
  asks_maximize : Bool → Event
  asks_fullscreen : Bool → Event
  pointer_moves : (lx ly : ℤ) → Event
  grab_ends : Event
  configures : (knows_capabilities knows_bounds fullscreen maximized : Bool) → Event
  placed : Event
  commits : (geometry : Box) → Event

abbrev pub with_mouse : Desk → Mouse → Desk
with_mouse k m = record k { cursor_x = m.x; cursor_y = m.y; button_count = m.buttons }

pub app_step : Desk → Event → App → App
app_step k (asks_move left) a = handle_request_move k left a
app_step k (asks_resize e) a = handle_request_resize k e a
app_step k (asks_maximize b) a = handle_request_maximize k b a
app_step k (asks_fullscreen b) a = wayland_app_request_fullscreen k b a
app_step k (pointer_moves lx ly) a = (wayland_app_grab_motion k lx ly a).0
app_step k grab_ends a = wayland_app_grab_end a
app_step k (configures kc kb rf rm) a = wayland_app_initial_configure k kc kb rf rm a
app_step k placed a = wayland_app_place k a
app_step k (commits g) a = wayland_app_commit k g a

handle_request_move-IsClipped :
    (k : Desk) (left : ℤ) (a : App) → IsClipped k a → IsClipped k (handle_request_move k left a)
unfolding handle_request_move pull_off clip_box
handle_request_move-IsClipped k left a c =
    if_cases (IsClipped k) (not a.mapped || a.fullscreen || k.button_count == 0) (λ _. c)
      (λ _.
        if_cases (IsClipped k) a.maximized
          (λ _.
            place-IsClipped k left (to_pixels k.cursor_y -ℤ pos 10) (maximize_off k a)
              (maximize_off-IsClipped k a c).0)
          (λ _. c))

handle_request_resize-IsClipped :
    (k : Desk) (e : Edges) (a : App) → IsClipped k a → IsClipped k (handle_request_resize k e a)
unfolding handle_request_resize clip_box
handle_request_resize-IsClipped k e a c =
    if_cases (IsClipped k) (not a.mapped || a.fullscreen || a.maximized || k.button_count == 0)
      (λ _. c) (λ _. c)

handle_request_maximize-IsClipped :
    (k : Desk) (b : Bool) (a : App) → IsClipped k a → IsClipped k (handle_request_maximize k b a)
unfolding handle_request_maximize clip_box
handle_request_maximize-IsClipped k b a c =
    if_cases (IsClipped k) (not a.initialized) (λ _. c)
      (λ _. if_cases (IsClipped k) (not a.mapped) (λ _. c) (λ _. set_maximized-IsClipped k a c b))

request_fullscreen-IsClipped :
    (k : Desk) (b : Bool) (a : App)
    → IsClipped k a
    → IsClipped k (wayland_app_request_fullscreen k b a)
unfolding wayland_app_request_fullscreen clip_box
request_fullscreen-IsClipped k b a c =
    if_cases (IsClipped k) (not a.initialized) (λ _. c)
      (λ _. if_cases (IsClipped k) (not a.mapped) (λ _. c) (λ _. set_fullscreen-IsClipped k a c b))

grab_end-IsClipped : (k : Desk) (a : App) → IsClipped k a → IsClipped k (wayland_app_grab_end a)
unfolding wayland_app_grab_end clip_box
grab_end-IsClipped k a c =
    if_cases (IsClipped k) (a.grab.here && a.managed)
      (λ _. if_cases (IsClipped k) a.grab.resize (λ _. c) (λ _. c)) (λ _. c)

grab_motion-IsClipped :
    (k : Desk) (lx ly : ℤ) (a : App)
    → IsClipped k a
    → IsClipped k (wayland_app_grab_motion k lx ly a).0
unfolding wayland_app_grab_motion held_motion clip_box
grab_motion-IsClipped k lx ly a c =
    if_cases (λ (r : App × Bool). IsClipped k r.0) (not (a.grab.here && a.managed)) (λ _. c)
      (λ _.
        if_cases (λ (r : App × Bool). IsClipped k r.0) (k.button_count == 0 || not a.mapped)
          (λ _. grab_end-IsClipped k a c)
          (λ _.
            if_cases (IsClipped k) a.grab.resize (λ _. c)
              (λ _.
                place-IsClipped k (a.grab.box.x +ℤ to_pixels (lx -ℤ a.grab.cx))
                  (moved_y k (to_pixels (ly -ℤ a.grab.cy)) a.grab.box) a c.0)))

announce-IsClipped :
    (k : Desk) (kc kb : Bool) (a : App) → IsClipped k a → IsClipped k (announce k kc kb a)
unfolding announce clip_box
announce-IsClipped k kc kb a c =
    if_cases (IsClipped k) kb (λ _. if_cases (IsClipped k) kc (λ _. c) (λ _. c))
      (λ _. if_cases (IsClipped k) kc (λ _. c) (λ _. c))

first_size-IsClipped :
    (k : Desk) (rf rm : Bool) (a : App) → IsClipped k a → IsClipped k (first_size k rf rm a)
unfolding first_size clip_box
first_size-IsClipped k rf rm a c =
    if_cases (IsClipped k) (rf || a.want_fullscreen) (λ _. c)
      (λ _. if_cases (IsClipped k) (rm || a.want_maximized) (λ _. c) (λ _. c))

initial_configure-IsClipped :
    (k : Desk) (kc kb rf rm : Bool) (a : App)
    → IsClipped k a
    → IsClipped k (wayland_app_initial_configure k kc kb rf rm a)
unfolding wayland_app_initial_configure
initial_configure-IsClipped k kc kb rf rm a c =
    first_size-IsClipped k rf rm (announce k kc kb a) (announce-IsClipped k kc kb a c)

app_step-IsClipped : (k : Desk) (e : Event) (a : App) → IsClipped k a → IsClipped k (app_step k e a)
unfolding app_step
app_step-IsClipped k (asks_move left) a c = handle_request_move-IsClipped k left a c
app_step-IsClipped k (asks_resize e) a c = handle_request_resize-IsClipped k e a c
app_step-IsClipped k (asks_maximize b) a c = handle_request_maximize-IsClipped k b a c
app_step-IsClipped k (asks_fullscreen b) a c = request_fullscreen-IsClipped k b a c
app_step-IsClipped k (pointer_moves lx ly) a c = grab_motion-IsClipped k lx ly a c
app_step-IsClipped k grab_ends a c = grab_end-IsClipped k a c
app_step-IsClipped k (configures kc kb rf rm) a c = initial_configure-IsClipped k kc kb rf rm a c
app_step-IsClipped k placed a c = wayland_app_place-IsClipped k a c
app_step-IsClipped k (commits g) a c = wayland_app_commit-IsClipped k g a c

pub app_run : Desk → List (Mouse × Event) → App → App
unfolding app_step
app_run k [] a = a
app_run k ((m, e) ∷ es) a = app_run k es (app_step (with_mouse k m) e a)

app_run-IsClipped :
    (k : Desk) (es : List (Mouse × Event)) (a : App) → IsClipped k a → IsClipped k (app_run k es a)
unfolding app_run clip_box work_area
app_run-IsClipped k [] a c = c
app_run-IsClipped k ((m, e) ∷ es) a c =
    app_run-IsClipped k es (app_step (with_mouse k m) e a)
      (app_step-IsClipped (with_mouse k m) e a c)

ends_above :
    (k : Desk) (b : App) (full : Bool)
    → b.clip ≡ (if full then none else some (clip_box k b))
    → if full then b.clip ≡ none else ((c : Box) × (b.clip ≡ some c) × EndsAbove k b c)
ends_above k b true e = e
ends_above k b false e = (clip_box k b, e, clip_box-EndsAbove k b)

-- After any requests, motions, commits and placings of a window with a scene tree whose clip fits
-- its place, while the screen and the taskbar stay: a full screen has no clip, and any other
-- window's clip ends exactly where the work area does, or is one row high.
pub app_run-EndsAbove :
    (k : Desk) (es : List (Mouse × Event)) (a : App)
    → IsClipped k a
    → let b = app_run k es a in
      if b.fullscreen then b.clip ≡ none else ((c : Box) × (b.clip ≡ some c) × EndsAbove k b c)
app_run-EndsAbove k es a c =
    let b = app_run k es a in ends_above k b b.fullscreen (app_run-IsClipped k es a c).1
