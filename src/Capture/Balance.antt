-- ===== src/Capture/Balance.antt =====
-- public_capture.c: the locks of a frame along its life.
use sg_compositor.Prelude.{ℕ, Bool, false, not, ◌&&◌, arith, ◌≡◌, is_some, if◌then◌else◌}
use sg_compositor.Capture.Frames.{Capture, frame_stop}

abbrev pub one_if : Bool → ℕ
one_if b = if b then 1 else 0

-- A frame holds a lock on a buffer, and one on the output's rendering, exactly while a copy waits, and
-- then the output is there.
pub record IsBalanced (f : Capture) : Type 0 where
  pub buffers : f.buffer_locks ≡ one_if (is_some f.buffer)
  pub renders : f.render_locks ≡ one_if (is_some f.buffer)
  pub locked : f.render_locked ≡ is_some f.buffer
  pub linked : f.commit_linked ≡ is_some f.buffer
  pub there : (is_some f.buffer && not f.output) ≡ false

frame_stop-IsBalanced : (f : Capture) → IsBalanced f → IsBalanced (frame_stop f)
unfolding frame_stop
frame_stop-IsBalanced f b = ground (arith, b)
