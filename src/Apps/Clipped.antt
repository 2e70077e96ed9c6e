-- ===== src/Apps/Clipped.antt =====
-- wayland_app.c: what is drawn of a window, and the taskbar.
use sg_compositor.Prelude.{
  ◌≡◌, refl, ◌∙◌, Bool, true, false, not, ◌&&◌, ◌||◌, arith, ◌⊎◌, inl, inr, none, some, if_cases,
  if◌then◌else◌, ℤ, pos, negsuc, ◌+ℤ◌, ◌-ℤ◌, div_ℤ, ltb_ℤ, int_laws,
}
use sg_compositor.Decor.Frames.{Box}
use sg_compositor.Apps.{
  maximize, fullscreen, size, App, Desk, ask, work_area, clip_box, new_clip, update_clip, place,
  centre, is_empty_box, visible_box, has_size, middle_box, maximize_on, maximize_off, set_maximized,
  fullscreen_on, fullscreen_off, set_fullscreen,
}
use sg_compositor.Apps.Handlers.{
  is_too_large, place_maximized, place_windowed, wayland_app_place, place_now, place_again, kept_x,
  kept_y, wayland_app_commit, same_ℤ,
}

-- The window's clip is the one for its place, and a full screen has none.
abbrev pub IsClipped : Desk → App → Type 0
IsClipped k a =
    (a.has_tree ≡ true) × (a.clip ≡ (if a.fullscreen then none else some (clip_box k a)))

-- A clip ends where the taskbar begins, or is one row high.
abbrev pub EndsAbove : Desk → App → Box → Type 0
EndsAbove k a c =
    (c.height ≡ pos 1) ⊎ (a.ly +ℤ c.y +ℤ c.height ≡ (work_area k).y +ℤ (work_area k).height)

pub clip_box-EndsAbove : (k : Desk) (a : App) → EndsAbove k a (clip_box k a)
unfolding clip_box
clip_box-EndsAbove k a =
    let w = work_area k in
    let h = w.y +ℤ w.height -ℤ a.ly +ℤ pos 100000 in
    if_cases (λ (n : ℤ). (n ≡ pos 1) ⊎ (a.ly +ℤ negsuc 99999 +ℤ n ≡ w.y +ℤ w.height))
      (ltb_ℤ h (pos 1)) (λ _. inl refl) (λ _. inr (whole w.y w.height a.ly))
  where
    whole : (y h l : ℤ) → l +ℤ negsuc 99999 +ℤ (y +ℤ h -ℤ l +ℤ pos 100000) ≡ y +ℤ h
    whole y h l = omega int_laws

update_clip-IsClipped : (k : Desk) (a : App) → a.has_tree ≡ true → IsClipped k (update_clip k a)
unfolding update_clip new_clip clip_box
update_clip-IsClipped k a t = (t, ground (arith, t))

pub place-IsClipped :
    (k : Desk) (x y : ℤ) (a : App) → a.has_tree ≡ true → IsClipped k (place k x y a)
unfolding place
place-IsClipped k x y a t =
    update_clip-IsClipped k
      (record a {
        lx = x -ℤ a.geometry.x;
        ly = y -ℤ a.geometry.y;
        gx = a.geometry.x;
        gy = a.geometry.y;
      })
      t

place_tree : (k : Desk) (x y : ℤ) (a : App) → (place k x y a).has_tree ≡ a.has_tree
unfolding place update_clip
place_tree k x y a = refl

centre-IsClipped : (k : Desk) (a : App) → a.has_tree ≡ true → IsClipped k (centre k a)
unfolding centre
centre-IsClipped k a t =
    let w = work_area k in
    let x = w.x +ℤ div_ℤ (w.width -ℤ a.geometry.width) 2 in
    let y = w.y +ℤ div_ℤ (w.height -ℤ a.geometry.height) 2 in
    let b = place k x y a in
    if_cases (IsClipped k) (ltb_ℤ (b.ly +ℤ a.geometry.y) w.y)
      (λ _. place-IsClipped k (b.lx +ℤ a.geometry.x) w.y b (place_tree k x y a ∙ t))
      (λ _. place-IsClipped k x y a t)

module _ (k : Desk) (a : App) (t : a.has_tree ≡ true) where
  maximize_on-IsClipped : IsClipped k (maximize_on k a)
  unfolding maximize_on
  maximize_on-IsClipped =
      let w = work_area k in
      place-IsClipped k w.x w.y
        (ask (maximize true) (
          ask (size w.width w.height) (record a {
            restore = if not a.maximized && has_size a then visible_box a else a.restore;
            maximized = true;
          })))
        t

  fullscreen_on-IsClipped : IsClipped k (fullscreen_on k a)
  unfolding fullscreen_on
  fullscreen_on-IsClipped =
      place-IsClipped k k.layout.x k.layout.y
        (ask (fullscreen true) (
          ask (size k.layout.width k.layout.height) (record a {
            windowed = if has_size a then visible_box a else a.windowed;
            fullscreen = true;
          })))
        t

module _ (k : Desk) (a : App) (t : a.has_tree ≡ true) where
  place_maximized-IsClipped : IsClipped k (place_maximized k a)
  unfolding place_maximized clip_box
  place_maximized-IsClipped =
      maximize_on-IsClipped k (record a { want_maximized = false; maximized = false }) t

  place_windowed-IsClipped : IsClipped k a → IsClipped k (place_windowed k a)
  unfolding place_windowed
  place_windowed-IsClipped c =
      if_cases (IsClipped k)
        (a.want_maximized
          || a.maximized
          || (not a.user_placed && is_too_large (work_area k) a.geometry))
        (λ _. place_maximized-IsClipped)
        (λ _.
          if_cases (IsClipped k) (not a.user_placed) (λ _. centre-IsClipped k a t)
            (λ _. update_clip-IsClipped k a t))

module _ (k : Desk) (a : App) (c : IsClipped k a) where
  pub maximize_off-IsClipped : IsClipped k (maximize_off k a)
  unfolding maximize_off clip_box
  maximize_off-IsClipped =
      let r = if is_empty_box a.restore then middle_box (work_area k) else a.restore in
      if_cases (IsClipped k) (not a.maximized) (λ _. c)
        (λ _.
          place-IsClipped k r.x r.y
            (ask (maximize false)
              (ask (size r.width r.height) (record a { restore = r; maximized = false })))
            c.0)

  pub set_maximized-IsClipped : (on : Bool) → IsClipped k (set_maximized k on a)
  unfolding set_maximized
  set_maximized-IsClipped on =
      if_cases (IsClipped k) on (λ _. maximize_on-IsClipped k a c.0) (λ _. maximize_off-IsClipped)

  fullscreen_off-IsClipped : IsClipped k (fullscreen_off k a)
  unfolding fullscreen_off clip_box
  fullscreen_off-IsClipped =
      let b = ask (fullscreen false) (record a { fullscreen = false }) in
      if_cases (IsClipped k) a.maximized
        (λ _. maximize_on-IsClipped k (record b { maximized = false }) c.0)
        (λ _.
          if_cases (IsClipped k) (not (is_empty_box a.windowed))
            (λ _.
              place-IsClipped k a.windowed.x a.windowed.y
                (ask (size a.windowed.width a.windowed.height) b) c.0)
            (λ _. centre-IsClipped k (ask (size (pos 0) (pos 0)) b) c.0))

  pub set_fullscreen-IsClipped : (on : Bool) → IsClipped k (set_fullscreen k on a)
  unfolding set_fullscreen clip_box
  set_fullscreen-IsClipped true =
      if_cases (IsClipped k) a.fullscreen (λ _. c) (λ _. fullscreen_on-IsClipped k a c.0)
  set_fullscreen-IsClipped false =
      if_cases (IsClipped k) a.fullscreen (λ _. fullscreen_off-IsClipped) (λ _. c)

place_now-IsClipped :
    (k : Desk) (b : App)
    → b.has_tree ≡ true
    → ((b.fullscreen ≡ true) ⊎ IsClipped k b)
    → IsClipped k (place_now k b)
unfolding place_now
place_now-IsClipped k b t h =
    if_cases (IsClipped k) b.fullscreen
      (λ _. place-IsClipped k k.layout.x k.layout.y (ask (size k.layout.width k.layout.height) b) t)
      (λ e. windowed h e)
  where
    windowed :
        ((b.fullscreen ≡ true) ⊎ IsClipped k b)
        → b.fullscreen ≡ false
        → IsClipped k (place_windowed k b)
    windowed (inl f) e = absurd (cc (f, e))
    windowed (inr c) e = place_windowed-IsClipped k b t c

pub wayland_app_place-IsClipped :
    (k : Desk) (a : App) → IsClipped k a → IsClipped k (wayland_app_place k a)
unfolding wayland_app_place
wayland_app_place-IsClipped k a c =
    if_cases (λ (b : App). IsClipped k (place_now k b)) a.want_fullscreen
      (λ _.
        place_now-IsClipped k (record a { want_fullscreen = false; fullscreen = true }) c.0
          (inl refl))
      (λ _. place_now-IsClipped k a c.0 (inr c))

place_again-IsClipped : (k : Desk) (a : App) → a.has_tree ≡ true → IsClipped k (place_again k a)
unfolding place_again
place_again-IsClipped k a t =
    if_cases (IsClipped k) (a.grab.here && a.grab.resize)
      (λ _.
        place-IsClipped k (kept_x a.grab.edges a.grab.box a.geometry)
          (kept_y a.grab.edges a.grab.box a.geometry) a t)
      (λ _.
        if_cases (IsClipped k) (not a.maximized && not a.fullscreen && not a.user_placed)
          (λ _. centre-IsClipped k a t) (λ _. place-IsClipped k (a.lx +ℤ a.gx) (a.ly +ℤ a.gy) a t))

pub wayland_app_commit-IsClipped :
    (k : Desk) (g : Box) (a : App) → IsClipped k a → IsClipped k (wayland_app_commit k g a)
unfolding wayland_app_commit clip_box
wayland_app_commit-IsClipped k g a c =
    if_cases (IsClipped k) (not a.mapped || not a.has_tree) (λ _. c)
      (λ _.
        if_cases (IsClipped k) (same_ℤ g.width a.last_w && same_ℤ g.height a.last_h) (λ _. c)
          (λ _.
            place_again-IsClipped k (record a { geometry = g; last_w = g.width; last_h = g.height })
              c.0))
