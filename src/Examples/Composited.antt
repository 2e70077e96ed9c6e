-- ===== src/Examples/Composited.antt =====
-- The theorems on sg-deskcomp.c, on concrete values.
use sg_compositor.Prelude.{
  ◌≡◌, ◌↔◌, ◌+ℤ◌, refl, ◌⊎◌, Bool, inl, true, false, [], ◌∷◌, List, none, some, pos, codes, arith,
}
use sg_compositor.Effects.{
  kind_framed, anim_none, anim_close, Win, Settings, Desktop, Rect, own_sides, damage_win,
  is_framed,
}
use sg_compositor.Effects.Entries.{count}
use sg_compositor.Effects.Stacking.{restack}
use sg_compositor.Effects.Stacking.Order.{Rising, restack-Rising}
use sg_compositor.Effects.Reach.{OnDesktop, InRect, Paints, damage_win-Covers}
use sg_compositor.Effects.Handlers.{Attributes, XServer, Effects}
use sg_compositor.Effects.Direct.{fills_desktop, check_direct}
use sg_compositor.Effects.Direct.Top.{Opaque, Covering, check_direct-direct}
use sg_compositor.Effects.Direct.Again.{Redrawn, check_direct-Redrawn}
use sg_compositor.Effects.Painting.{Painted, stays, gets_drawn, paint_windows, paint_windows-Whole}
use sg_compositor.Effects.Tidy.Kept.{IsTidy}
use sg_compositor.Effects.Events.{
  Event, creates, maps, unmaps, checks, paints, only_canvas, effects_run, effects_run-IsTidy,
}

abbrev modern : Settings
modern = record {
  opt_shadows = true;
  opt_anim = true;
  opt_wobbly = true;
  opt_glass = pos 0;
  opt_shadow = codes "modern";
  opt_open = codes "fade";
  opt_minimize = codes "taskbar";
}

abbrev desktop : Desktop
desktop = record { dw = 1280; dh = 800; options = modern }

abbrev notepad : Win
notepad = record {
  id = 3;
  x = pos 100;
  y = pos 80;
  w = 600;
  h = 400;
  bw = 0;
  mapped = true;
  win_argb = false;
  managed = true;
  kind = kind_framed;
  opacity = 4294967295;
  damaging = true;
  pict = true;
  anim = anim_none;
  ghost = false;
  wobbling = false;
  reach = 0;
  acrylic = 0;
  minrect = none;
  frame = none;
}

abbrev game : Win
game = record notepad { id = 4; x = pos 0; y = pos 0; w = 1280; h = 800; pict = false }

-- The picture of a window that was closed.
abbrev faded : Win
faded = record notepad { id = 2; mapped = false; ghost = true; damaging = false; anim = anim_close }

abbrev here : Attributes
here = record {
  input_only = false;
  x = pos 100;
  y = pos 80;
  width = 600;
  height = 400;
  border_width = 0;
  viewable = true;
  alpha = false;
}

abbrev server : XServer
server = record {
  attributes = λ i. some here;
  redirects = λ i. true;
  names = λ i. true;
  tree = some (4 ∷ 3 ∷ []);
  shadow = λ i. some 1;
  opacity = λ i. none;
  acrylic = λ i. none;
  minrect = λ i. none;
  frame = λ i. none;
  reach = λ i. 5;
}

restack-Rising_example :
    Rising (4 ∷ 3 ∷ []) (restack (some (4 ∷ 3 ∷ [])) (faded ∷ notepad ∷ game ∷ []))
    × (count (λ e. is_framed e.kind) (restack (some (4 ∷ 3 ∷ [])) (faded ∷ notepad ∷ game ∷ []))
        ≡ count (λ e. is_framed e.kind) (faded ∷ notepad ∷ game ∷ []))
restack-Rising_example =
    restack-Rising (4 ∷ 3 ∷ []) (faded ∷ notepad ∷ game ∷ []) (λ e. is_framed e.kind)

restacked_order :
    restack (some (4 ∷ 3 ∷ [])) (faded ∷ notepad ∷ game ∷ []) ≡ game ∷ notepad ∷ faded ∷ []
unfolding restack
restacked_order = refl

painted_place : Paints desktop notepad 120 90
unfolding own_sides ◌+ℤ◌
painted_place = inl (omega arith, (omega arith, (omega arith, omega arith)))

damage_win-Covers_example :
    (r : Rect) × ((damage_win desktop notepad ≡ some r) × (OnDesktop desktop r × InRect 120 90 r))
damage_win-Covers_example =
    damage_win-Covers desktop notepad 120 90 (omega arith) (omega arith) (omega arith) (omega arith)
      painted_place

abbrev playing : Effects
playing = record { wins = notepad ∷ game ∷ faded ∷ []; canvas = 9; direct = 0; damage = [] }

check_direct-direct_example :
    (((check_direct desktop server playing).direct ≡ 4) ↔ (Opaque game × Covering desktop game))
    × (((check_direct desktop server playing).direct ≡ 4)
        ⊎ ((check_direct desktop server playing).direct ≡ 0))
check_direct-direct_example =
    check_direct-direct desktop server playing (notepad ∷ []) (faded ∷ []) game (omega arith)
      (omega arith) (omega arith) refl refl (refl, tt)

game_fills : fills_desktop desktop game ≡ true
unfolding fills_desktop ◌+ℤ◌
game_fills = refl

-- The game leaves the full screen.
abbrev left : Effects
left = record { wins = record game { w = 640 } ∷ notepad ∷ []; canvas = 9; direct = 4; damage = [] }

check_direct-Redrawn_example :
    ((check_direct desktop server left).direct ≡ 4) ⊎ Redrawn 4 (check_direct desktop server left)
check_direct-Redrawn_example =
    check_direct-Redrawn desktop server left (record game { w = 640 }) here refl refl refl refl refl
      refl

abbrev all_over : Win → Bool
all_over e = true

paint_windows-Whole_example :
    (p : Painted) × ((paint_windows 3 all_over (notepad ∷ faded ∷ game ∷ []) ≡ some p)
      × ((count (λ e. e.pict) p.wins
            ≡ count (stays all_over (λ e. e.pict)) (notepad ∷ faded ∷ game ∷ []))
          × (count (λ e. e.pict) p.drawn
              ≡ count (gets_drawn all_over (λ e. e.pict)) (notepad ∷ faded ∷ game ∷ []))))
paint_windows-Whole_example =
    paint_windows-Whole all_over (λ e. e.pict) 3 (notepad ∷ faded ∷ game ∷ []) (omega arith)

abbrev editor : Win
editor = record notepad { id = 5 }

-- When a ghost's animation ends, the highest window is drawn below another.
drawn_order :
    paint_windows 4 all_over (notepad ∷ faded ∷ editor ∷ record notepad { id = 6 } ∷ [])
    ≡ some (record {
      wins = notepad ∷ record notepad { id = 6 } ∷ editor ∷ [];
      drawn = notepad ∷ record notepad { id = 6 } ∷ editor ∷ [];
    })
unfolding paint_windows
drawn_order = refl

abbrev at_once : Event → Desktop × XServer × Event
at_once e = (desktop, server, e)

abbrev day : List (Desktop × XServer × Event)
day =
    at_once (creates 3)
    ∷ at_once (maps 3)
    ∷ at_once (creates 4)
    ∷ at_once checks
    ∷ at_once (unmaps 3)
    ∷ at_once (paints all_over)
    ∷ []

effects_run-IsTidy_example : IsTidy (effects_run day (only_canvas 9))
effects_run-IsTidy_example = effects_run-IsTidy 9 day
