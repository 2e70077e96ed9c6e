-- ===== src/Effects/Events.antt =====
-- Everything that happens to the windows of sg-deskcomp.c, one event at a time.
use sg_compositor.Prelude.{ℕ, refl, Bool, List, [], ◌∷◌, arith}
use sg_compositor.Effects.{Win, Desktop}
use sg_compositor.Effects.Handlers.{
  XServer, Effects, handle_create, handle_destroy, handle_map, handle_unmap, Property,
  handle_property,
}
use sg_compositor.Effects.Configure.{Configure, on_configure}
use sg_compositor.Effects.Direct.{check_direct}
use sg_compositor.Effects.Tidy.Kept.{
  IsTidy, handle_create-IsTidy, handle_destroy-IsTidy, handle_map-IsTidy, handle_property-IsTidy,
}
use sg_compositor.Effects.Tidy.Leaving.{handle_unmap-IsTidy, on_configure-IsTidy}
use sg_compositor.Effects.Tidy.Drawn.{check_direct-IsTidy, painted, painted-IsTidy}

-- The X server's events about windows, and what the main loop does after them.
pub data Event : Type 0 where
  creates : (window : ℕ) → Event
  destroys : (window : ℕ) → Event
  maps : (window : ℕ) → Event
  unmaps : (window : ℕ) → Event
  configures : Configure → Event
  changes : (window : ℕ) → Property → Event
  checks : Event
  paints : (over : Win → Bool) → Event

pub effects_step : Desktop → XServer → Event → Effects → Effects
effects_step k x (creates i) s = handle_create k x i s
effects_step k x (destroys i) s = handle_destroy k i s
effects_step k x (maps i) s = handle_map k x i s
effects_step k x (unmaps i) s = handle_unmap k x i s
effects_step k x (configures c) s = on_configure k x c s
effects_step k x (changes i p) s = handle_property k x i p s
effects_step k x checks s = check_direct k x s
effects_step k x (paints over) s = painted over s

effects_step-IsTidy :
    (k : Desktop) (x : XServer) (e : Event) (s : Effects) → IsTidy s → IsTidy (effects_step k x e s)
unfolding effects_step
effects_step-IsTidy k x (creates i) s t = handle_create-IsTidy k x i s t
effects_step-IsTidy k x (destroys i) s t = handle_destroy-IsTidy k i s t
effects_step-IsTidy k x (maps i) s t = handle_map-IsTidy k x i s t
effects_step-IsTidy k x (unmaps i) s t = handle_unmap-IsTidy k x i s t
effects_step-IsTidy k x (configures c) s t = on_configure-IsTidy k x c s t
effects_step-IsTidy k x (changes i p) s t = handle_property-IsTidy k x i p s t
effects_step-IsTidy k x checks s t = check_direct-IsTidy k x s t
effects_step-IsTidy k x (paints over) s t = painted-IsTidy over s t

-- No window is known yet.
abbrev pub only_canvas : ℕ → Effects
only_canvas c = record { wins = []; canvas = c; direct = 0; damage = [] }

-- Each event with the desktop's size, the settings and the X server's answers at the time.
pub effects_run : List (Desktop × XServer × Event) → Effects → Effects
unfolding effects_step
effects_run [] s = s
effects_run (e ∷ es) s = effects_run es (effects_step e.0 e.1 e.2 s)

effects_run_keeps :
    (es : List (Desktop × XServer × Event)) (s : Effects) → IsTidy s → IsTidy (effects_run es s)
unfolding effects_run
effects_run_keeps [] s t = t
effects_run_keeps (e ∷ es) s t =
    effects_run_keeps es (effects_step e.0 e.1 e.2 s) (effects_step-IsTidy e.0 e.1 e.2 s t)

-- Whatever events come from a start without windows, with any answers of the X server, any
-- settings and any ends of animations: no window has two entries of its own, the canvas has none,
-- an entry of a window that another client redirects has no picture, and a ghost has a picture
-- and an animation that ends, and no damage and no wobble.
pub effects_run-IsTidy :
    (canvas : ℕ) (es : List (Desktop × XServer × Event))
    → IsTidy (effects_run es (only_canvas canvas))
effects_run-IsTidy canvas es =
    effects_run_keeps es (only_canvas canvas) (λ i. omega arith, (refl, refl))
