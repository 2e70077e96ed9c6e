-- ===== src/Capture/Frames.antt =====
-- public_capture.c: one frame of a capture, from its creation to its end. The box is what `capture`
-- computed, not empty; the times in the ready event are not in the model.
use sg_compositor.Prelude.{
  ℕ, Bool, true, false, not, ◌&&◌, ◌||◌, ◌+◌, ◌-◌, List, [], ◌∷◌, Option, none, some, ◌==◌,
  if◌then◌else◌, is_some,
}
use sg_compositor.World.{Lock}
use sg_compositor.Capture.{Filled, failed, pixels, fill}

-- A shared-memory buffer of the client: its size, whether it can be written, and whether its format
-- and stride will do.
pub record Buffer : Type 0 where
  pub width : ℕ
  pub height : ℕ
  pub writable : Bool
  pub format_ok : Bool
  pub stride_ok : Bool

pub data FrameEvent : Type 0 where
  failed_event flags_event damage_event ready_event : FrameEvent
  already_used_error invalid_buffer_error : FrameEvent

-- struct frame, with the locks that it holds on its buffer and on the output's rendering, the events
-- sent, newest first, and what was written to its buffers.
pub record Capture : Type 0 where
  pub output : Bool  -- not NULL
  pub width : ℕ
  pub height : ℕ
  pub buffer : Option Buffer
  pub with_damage : Bool
  pub commit_linked : Bool
  pub render_locked : Bool
  pub output_linked : Bool
  pub buffer_locks : ℕ
  pub render_locks : ℕ
  pub events : List FrameEvent
  pub written : List Filled

abbrev pub say : FrameEvent → Capture → Capture
say e f = record f { events = e ∷ f.events }

-- wlr_output_lock_attach_render(f->output, false), if it was locked and the output is there
abbrev pub unlock_render : Capture → ℕ
unlock_render f = if f.render_locked && f.output then f.render_locks - 1 else f.render_locks

unfoldable pub frame_stop : Capture → Capture
frame_stop f = record f {
  buffer = none;
  buffer_locks = if is_some f.buffer then f.buffer_locks - 1 else f.buffer_locks;
  commit_linked = false;
  render_locks = unlock_render f;
  render_locked = false;
}

unfoldable pub frame_failed : Capture → Capture
unfolding frame_stop
frame_failed f = say failed_event (frame_stop f)

unfoldable pub frame_unbind_output : Capture → Capture
frame_unbind_output f = record f {
  render_locks = unlock_render f;
  render_locked = f.render_locked && not f.output;
  output_linked = false;
  output = false;
}

-- `fill` of the frame's buffer; `access` says whether the buffer can be written now.
unfoldable pub fill_buffer : Lock → Bool → Buffer → Option (List (List ℕ)) → Capture → Filled
fill_buffer l access b source f =
    fill l
      (record { writable = access; format_ok = b.format_ok; width = f.width; height = f.height })
      (some source)

abbrev pub send_damage : Capture → Capture
send_damage f = if f.with_damage then say damage_event f else f

-- The client is told what became of the copy.
unfoldable pub filled : Filled → Capture → Capture
unfolding frame_failed frame_stop
filled failed f = frame_failed f
filled (pixels rows) f =
    say ready_event
      (send_damage (say flags_event (record (frame_stop f) { written = pixels rows ∷ f.written })))

abbrev pub fill_waiting : Lock → Bool → Option (List (List ℕ)) → Option Buffer → Capture → Capture
fill_waiting l access source none f = f
fill_waiting l access source (some b) f = filled (fill_buffer l access b source f) f

-- frame_handle_commit; the listener is there only while a copy waits. No picture: wait for one.
unfoldable pub frame_handle_commit : Lock → Bool → Bool → Option (List (List ℕ)) → Capture → Capture
unfolding filled fill_buffer
frame_handle_commit l picture access source f =
    if not f.commit_linked || not picture then f else fill_waiting l access source f.buffer f

unfoldable pub frame_handle_output_destroy : Capture → Capture
unfolding frame_unbind_output frame_failed
frame_handle_output_destroy f =
    if not f.output_linked
    then f
    else let t = frame_unbind_output f in if is_some t.buffer then frame_failed t else t

abbrev pub accept : Bool → Buffer → Capture → Capture
accept damage b f = record f {
  buffer = some b;
  buffer_locks = f.buffer_locks + 1;
  with_damage = damage;
  commit_linked = true;
  render_locks = f.render_locks + 1;
  render_locked = true;
}

-- A buffer that will not do is unlocked again.
abbrev pub fits : Buffer → Capture → Bool
fits b f =
    (b.width == f.width) && (b.height == f.height) && b.writable && b.format_ok && b.stride_ok

-- frame_copy; none for a resource that is no shared-memory buffer.
unfoldable pub frame_copy : Bool → Option Buffer → Capture → Capture
frame_copy damage none f = if is_some f.buffer then say already_used_error f else say failed_event f
frame_copy damage (some b) f =
    if is_some f.buffer
    then say already_used_error f
    else if not f.output
    then say failed_event f
    else if not (fits b f)
    then say invalid_buffer_error f
    else accept damage b f

unfoldable pub frame_resource_destroy : Capture → Capture
unfolding frame_stop frame_unbind_output
frame_resource_destroy f = frame_unbind_output (frame_stop f)

-- capture, for an enabled output and a box that is not empty
unfoldable pub capture : ℕ → ℕ → Capture
capture w h = record {
  output = true;
  width = w;
  height = h;
  buffer = none;
  with_damage = false;
  commit_linked = false;
  render_locked = false;
  output_linked = true;
  buffer_locks = 0;
  render_locks = 0;
  events = [];
  written = [];
}

-- What happens to a frame until its end.
pub data Happens : Type 0 where
  copied : (damage : Bool) → Option Buffer → Happens
  committed : Lock → (picture access : Bool) → Option (List (List ℕ)) → Happens
  output_destroyed : Happens

unfoldable pub frame_step : Happens → Capture → Capture
frame_step (copied damage b) f = frame_copy damage b f
frame_step (committed l picture access source) f = frame_handle_commit l picture access source f
frame_step output_destroyed f = frame_handle_output_destroy f

unfoldable pub frame_run : List Happens → Capture → Capture
unfolding frame_step
frame_run [] f = f
frame_run (e ∷ es) f = frame_run es (frame_step e f)
