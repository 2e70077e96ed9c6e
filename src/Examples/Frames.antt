-- ===== src/Examples/Frames.antt =====
-- The theorems on decor.c's frames, on concrete values.
use sg_compositor.Prelude.{
  ℕ, zero, suc, ◌≤◌, ◌<◌, ◌≡◌, refl, ◌↔◌, arith, true, false, [], ◌∷◌, List, some, ◌⊎◌, is_some,
  pos, negsuc, codes,
}
use sg_compositor.Decor.Conf.{
  Conf, look_horizon, default_conf, ConfFile, absent, present, read_confs, start_conf,
  decor_title_h, decor_taskbar_h, decor_cursor_size, button_w, body_w, px8,
}
use sg_compositor.Decor.Conf.Bounds.{Within, sizes_bounded}
use sg_compositor.Decor.Text.{Font, draw_title, text_width, utf8_next}
use sg_compositor.Decor.Text.Utf8.{utf8_next-encode}
use sg_compositor.Decor.Text.Cut.{IsBoundary, IsLongest, draw_title_lem}
use sg_compositor.Decor.Pixels.Bounds.{Sized, Draw, fills, puts, blends, draws, draws-Sized}
use sg_compositor.Decor.Icon.{Icon, render_icon, icon_x}
use sg_compositor.Decor.Icon.Placed.{render_icon_iff}

-- Horizon at 150 %, with one number that is out of its range and one line that has no value.
abbrev settings : ConfFile
settings =
    present (record { sec = 7; nsec = 0 })
      (some (codes "frame=horizon\ncaption=38\nborder=900\nnotes\nscale8=12\ntaskbar=60\n"))

settings_read :
    (read_confs (settings ∷ []) start_conf).conf
    ≡ record default_conf { look = look_horizon; caption = 38; scale8 = 12; taskbar = 60 }
unfolding read_confs
settings_read = refl

sizes_bounded_example :
    let c = (read_confs (settings ∷ absent ∷ settings ∷ []) start_conf).conf in
    Within 12 149 (decor_title_h c)
    × Within 20 400 (decor_taskbar_h c)
    × (decor_cursor_size c ≤ 256)
    × Within 12 160 (button_w c)
    × (body_w c ≤ 29)
    × (body_w c < decor_title_h c)
    × Within 10 30 (px8 c 10)
sizes_bounded_example = sizes_bounded (settings ∷ absent ∷ settings ∷ []) 10

-- Every glyph is 8 pixels wide.
abbrev even_font : Font
even_font = record { load_char = λ c. some 512; bold = false }

utf8_next-encode_example : utf8_next 0xe2 (0x82 ∷ 0xac ∷ 65 ∷ []) ≡ (0x20ac, 65 ∷ [])
utf8_next-encode_example = utf8_next-encode 0x20ac (65 ∷ []) (omega arith)

-- "5 EUR fee" with the sign of the euro, in room for six glyphs: the cut is before a space.
abbrev title : List ℕ
title = 53 ∷ 0xe2 ∷ 0x82 ∷ 0xac ∷ 32 ∷ 102 ∷ 101 ∷ 101 ∷ []

title_cut : draw_title (some even_font) title (pos 40) ≡ some (record { bytes = 4; dotted = true })
unfolding draw_title
title_cut = refl

draw_title_lem_example :
    ((text_width even_font title 8 ≤ 40)
      × (draw_title (some even_font) title (pos 40) ≡ some (record { bytes = 8; dotted = false })))
    ⊎ ((r : ℕ) × (draw_title (some even_font) title (pos 40)
          ≡ some (record { bytes = r; dotted = true }))
        × (40 < text_width even_font title 8)
        × IsBoundary title r
        × IsLongest even_font title (text_width even_font (codes "...") 3) 40 8 r)
draw_title_lem_example = draw_title_lem even_font title 40 refl (omega arith)

abbrev blank : List ℕ
blank = 1 ∷ 2 ∷ 3 ∷ 4 ∷ 5 ∷ 6 ∷ []

abbrev drawing : List Draw
drawing =
    fills (negsuc 4) (pos 1) (pos 9) (pos 9) 0xff00ff
    ∷ puts (pos 3) (pos 0) 9
    ∷ blends (pos 0) (negsuc 0) 7 255
    ∷ blends (pos 2) (pos 1) 0xffffff 128
    ∷ []

draws-Sized_example : Sized 6 (draws 3 2 drawing blank)
draws-Sized_example = draws-Sized 3 2 drawing blank refl

-- One entry of 2 x 1 pixels, and one that claims more pixels than there are.
abbrev values : List ℕ
values = 2 ∷ 1 ∷ 0xffff0000 ∷ 0x800000ff ∷ 900 ∷ 900 ∷ 0 ∷ []

abbrev no_icon : Icon
no_icon = record { pixels = []; has_icon = false; icon_tries = 0 }

-- The smallest caption that effects.conf may set.
abbrev flat_bar : Conf
flat_bar = record default_conf { caption = 12 }

abbrev flat_pixels : List ℕ
flat_pixels = zeros 108
  where
    zeros : ℕ → List ℕ
    zeros zero = []
    zeros (suc n) = 0 ∷ zeros n

render_icon_iff_example :
    (is_some (render_icon flat_bar 9 [] flat_pixels) ≡ true)
    ↔ ((flat_bar.caption ≡ 0) ⊎ (16 ≤ flat_bar.caption))
unfolding decor_title_h icon_x
render_icon_iff_example =
    render_icon_iff flat_bar 9 [] flat_pixels (ground arith) refl (omega arith)
