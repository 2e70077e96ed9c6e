-- ===== src/Decor/Mouse/Live/Events.antt =====
-- Everything that happens to decor.c's frames, one event at a time.
use sg_compositor.Prelude.{ℕ, refl, Bool, not, List, [], ◌∷◌, Option, if_cases, ℤ}
use sg_compositor.Decor.Conf.{Conf}
use sg_compositor.Decor.Frames.{no_press, Frames, Scene, decor_at}
use sg_compositor.Decor.Mouse.{
  Candidate, decor_create, decor_destroy, decor_set_active, decor_set_fullscreen, handle_commit,
  decor_button, decor_motion,
}
use sg_compositor.Decor.Mouse.Live.{IsLive, on_frame-IsLive}
use sg_compositor.Decor.Mouse.Live.Gone.{decor_create-IsLive, decor_destroy-IsLive}
use sg_compositor.Decor.Mouse.Live.Pressed.{
  decor_press-IsLive, decor_release-IsLive, drag_or_hover-IsLive,
}

-- What happens to the frames. The conf, the focus and the scene are as they are at the time.
pub data Event : Type 0 where
  created : (made : Bool) (focused : Option ℕ) (k : Candidate) → Event
  destroyed : (view : ℕ) → Event
  activated : (view : ℕ) (active : Bool) → Event
  fullscreened : (view : ℕ) (fullscreen : Bool) → Event
  committed : (view width height : ℕ) → Event
  button :
      (sc : Scene) (c : Conf) (focused : Option ℕ) (pressed : Bool) (time_msec : ℕ) (lx ly : ℤ)
      → Event
  motion : (sc : Scene) (c : Conf) (lx ly : ℤ) → Event

pub frames_step : Event → Frames → Frames
frames_step (created made focused k) s = decor_create made focused k s
frames_step (destroyed v) s = decor_destroy v s
frames_step (activated v a) s = decor_set_active v a s
frames_step (fullscreened v f) s = decor_set_fullscreen v f s
frames_step (committed v w h) s = handle_commit v w h s
frames_step (button sc c focused pressed t lx ly) s =
    (decor_button sc c focused pressed t lx ly s).0
frames_step (motion sc c lx ly) s = (decor_motion sc c lx ly s).0

frames_step-IsLive : (e : Event) (s : Frames) → IsLive s → IsLive (frames_step e s)
unfolding frames_step decor_set_active decor_set_fullscreen handle_commit decor_button decor_motion
frames_step-IsLive (created made focused k) s l = decor_create-IsLive made focused k s l
frames_step-IsLive (destroyed v) s l = decor_destroy-IsLive v s l
frames_step-IsLive (activated v a) s l =
    on_frame-IsLive v (λ d. record d { active = a }) s.decors s.press (λ d. refl) l
frames_step-IsLive (fullscreened v f) s l =
    on_frame-IsLive v (λ d. record d { tree_enabled = not f }) s.decors s.press (λ d. refl) l
frames_step-IsLive (committed v w h) s l =
    on_frame-IsLive v (λ d. record d { width = w; height = h }) s.decors s.press (λ d. refl) l
frames_step-IsLive (button sc c focused pressed t lx ly) s l =
    if_cases (λ (r : Frames × Bool). IsLive r.0) pressed
      (λ _. decor_press-IsLive sc c focused (decor_at sc c s.decors lx ly) t lx ly s l)
      (λ _. decor_release-IsLive sc c (decor_at sc c s.decors lx ly) s l)
frames_step-IsLive (motion sc c lx ly) s l =
    drag_or_hover-IsLive sc c lx ly s.press.decor (decor_at sc c s.decors lx ly) s l

abbrev pub no_frames : Frames
no_frames = record { decors = []; press = no_press; requests = [] }

pub frames_run : List Event → Frames → Frames
unfolding frames_step
frames_run [] s = s
frames_run (e ∷ es) s = frames_run es (frames_step e s)

frames_run_keeps : (es : List Event) (s : Frames) → IsLive s → IsLive (frames_run es s)
unfolding frames_run
frames_run_keeps [] s l = l
frames_run_keeps (e ∷ es) s l = frames_run_keeps es (frames_step e s) (frames_step-IsLive e s l)

-- After any events from a start without frames (windows that get and lose frames, presses,
-- releases, motions, with any answers of the scene), the frame that press holds and the window of
-- its last press on a bar have frames, and no window has two.
pub frames_run-IsLive : (es : List Event) → IsLive (frames_run es no_frames)
frames_run-IsLive es = frames_run_keeps es no_frames (tt, tt, tt)
