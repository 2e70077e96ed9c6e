-- ===== src/Examples/Mouse.antt =====
-- The theorems on the mouse in decor.c's frames, on concrete values.
use sg_compositor.Prelude.{◌≡◌, refl, ◌↔◌, true, false, [], ◌∷◌, List, none, some, pos, ◌-ℤ◌}
use sg_compositor.World.{View, xwayland_view, normal_layer}
use sg_compositor.Decor.Conf.{Conf, default_conf, button_w}
use sg_compositor.Decor.Frames.{
  Box, part_none, part_min, part_max, part_close, Frame, no_press, Frames, configure,
  mark_maximized, Scene, decor_of, right_end, part_at, maximized_box, toggle_maximize,
}
use sg_compositor.Decor.Frames.Hits.{InColumn, part_at_iff}
use sg_compositor.Decor.Frames.Maximized.{IsFull, maximize_restore, toggle_maximize_twice}
use sg_compositor.Decor.Mouse.{Candidate, decor_press, decor_release}
use sg_compositor.Decor.Mouse.Clicks.{Asked, Clicked, decor_release-Clicked, press-release-Asked}
use sg_compositor.Decor.Mouse.Live.{IsLive}
use sg_compositor.Decor.Mouse.Live.Events.{
  Event, created, destroyed, button, motion, frames_run, no_frames, frames_run-IsLive,
}

abbrev wine_bar : Conf
wine_bar = record default_conf { caption = 30; border = 4; taskbar = 48 }

abbrev screen : Box
screen = record { x = pos 0; y = pos 0; width = pos 1280; height = pos 800 }

abbrev editor : Frame
editor = record {
  view = 5;
  tree_enabled = true;
  width = 600;
  height = 400;
  active = true;
  hover = part_none;
  lx = pos 100;
  ly = pos 80;
  rx = pos 100;
  ry = pos 80;
  user_placed = false;
  maximized = false;
  restore = screen;
  xs_width = pos 600;
  xs_height = pos 400;
}

abbrev editing : Frames
editing = record { decors = editor ∷ []; press = no_press; requests = [] }

-- The pointer is always 20 pixels right of the bar's left end.
abbrev left_of_bar : Scene
left_of_bar = record { bar_at = λ fs x y. some (5, pos 20); layout_box = λ v. screen }

part_at_iff_example :
    ((part_at wine_bar 600 (pos 590) ≡ part_close) ↔ InColumn wine_bar 600 0 (pos 590))
    × ((part_at wine_bar 600 (pos 590) ≡ part_max) ↔ InColumn wine_bar 600 1 (pos 590))
    × ((part_at wine_bar 600 (pos 590) ≡ part_min) ↔ InColumn wine_bar 600 2 (pos 590))
part_at_iff_example = part_at_iff wine_bar 600 (pos 590)

close_hit : part_at wine_bar 600 (pos 590) ≡ part_close
unfolding part_at right_end ◌-ℤ◌ button_w
close_hit = refl

toggle_maximize_twice_example :
    ((toggle_maximize left_of_bar wine_bar editor editing).requests
      ≡ configure 5 (maximized_box wine_bar screen) ∷ mark_maximized 5 true ∷ [])
    × IsFull wine_bar screen (maximized_box wine_bar screen)
    × ((maximize_restore left_of_bar wine_bar editor (pos 1274) (pos 716) editing).requests
        ≡ configure 5 (record { x = pos 100; y = pos 80; width = pos 600; height = pos 400 })
          ∷ mark_maximized 5 false
          ∷ (toggle_maximize left_of_bar wine_bar editor editing).requests)
    × (r : Frame) × (decor_of 5
          (maximize_restore left_of_bar wine_bar editor (pos 1274) (pos 716) editing).decors
        ≡ some r)
    × (r.maximized ≡ false)
    × (r.lx ≡ pos 100)
    × (r.ly ≡ pos 80)
toggle_maximize_twice_example =
    toggle_maximize_twice left_of_bar wine_bar editor (pos 1274) (pos 716) editing refl refl

decor_release-Clicked_example :
    let s : Frames = record editing {
      press = record no_press { decor = some 5; part = part_close };
    } in
    Clicked left_of_bar wine_bar
      (some (5, part_close))
      s
      (decor_release left_of_bar wine_bar (some (5, part_close)) s).0.requests
decor_release-Clicked_example =
    decor_release-Clicked left_of_bar wine_bar (some (5, part_close))
      (record editing { press = record no_press { decor = some 5; part = part_close } })

press-release-Asked_example :
    let u =
      (decor_press left_of_bar wine_bar none (some (5, part_close)) 70 (pos 9) (pos 9) editing).0 in
    Asked left_of_bar wine_bar editor part_close u.requests
      (decor_release left_of_bar wine_bar (some (5, part_close)) u).0.requests
press-release-Asked_example =
    press-release-Asked left_of_bar wine_bar none editor part_close 70 (pos 9) (pos 9) editing refl
      refl

abbrev editor_view : View
editor_view = record {
  id = 5;
  surface = none;
  has_tree = true;
  enabled = true;
  layer = normal_layer;
  type = xwayland_view;
  elevated = none;
  minimized = false;
  managed = false;
  has_parent = false;
  override_redirect = false;
  wants_focus = true;
  shell_desktop = false;
  class_exe = false;
  window_id = 9;
}

abbrev arrival : Candidate
arrival = record {
  view = editor_view;
  fullscreen = false;
  decorations_all = true;
  width = 600;
  height = 400;
  new_frame = editor;
}

-- The window comes, its bar is pressed and dragged, and the window goes while it is.
abbrev dragging : List Event
dragging =
    created true (some 5) arrival
    ∷ button left_of_bar wine_bar (some 5) true 1000 (pos 5000) (pos 5000)
    ∷ motion left_of_bar wine_bar (pos 9000) (pos 100)
    ∷ destroyed 5
    ∷ motion left_of_bar wine_bar (pos 9000) (pos 100)
    ∷ []

frames_run-IsLive_example : IsLive (frames_run dragging no_frames)
frames_run-IsLive_example = frames_run-IsLive dragging
