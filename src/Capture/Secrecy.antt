-- ===== src/Capture/Secrecy.antt =====
-- public_capture.c: fill while the screen is secured.
use mathlib.Core.Path.{subst}
use sg_compositor.Prelude.{
  is_some, Bool, some, ◌∷◌, true, [], none, ℕ, not, if◌then◌else◌, zero, suc, ◌||◌, List, Option,
  arith, ◌≡◌, refl, All, if_cases, ◌⊎◌, ◌∙◌, sym,
}
use sg_compositor.World.{Lock}
use sg_compositor.Capture.Frames.{
  Buffer, Capture, fits, filled, frame_stop, frame_failed, frame_unbind_output, fill_buffer,
  fill_waiting, frame_copy, frame_handle_commit, frame_handle_output_destroy, Happens, copied,
  committed, output_destroyed, frame_step, frame_run, capture,
}
use sg_compositor.Capture.{
  secure_now, Frame, Filled, failed, pixels, black, black_row, black_rows, fill,
}

-- Each pixel is black.
abbrev pub AllBlack : List (List ℕ) → Type 0
AllBlack rows = All (λ row. All (λ p. p ≡ black) row) rows

black_row-black : (w : ℕ) → All (λ p. p ≡ black) (black_row w)
unfolding black_row
black_row-black zero = tt
black_row-black (suc w) = (refl, black_row-black w)

black_rows-AllBlack : (w h : ℕ) → AllBlack (black_rows w h)
unfolding black_rows
black_rows-AllBlack w zero = tt
black_rows-AllBlack w (suc h) = (black_row-black w, black_rows-AllBlack w h)

-- Nothing but black is written.
abbrev pub OnlyBlack : Filled → Type 0
OnlyBlack failed = Unit {0}
OnlyBlack (pixels rows) = AllBlack rows

-- What is written while the screen is secured, without the source.
abbrev blackened : Frame → Filled
blackened f =
    if not f.writable || not f.format_ok then failed else pixels (black_rows f.width f.height)

fill-blackened :
    (l : Lock) (f : Frame) (src : Option (Option (List (List ℕ))))
    → secure_now l ≡ true
    → fill l f src ≡ blackened f
unfolding fill
fill-blackened l f src secured = ground arith

blackened-OnlyBlack : (f : Frame) → OnlyBlack (blackened f)
blackened-OnlyBlack f =
    if_cases OnlyBlack (not f.writable || not f.format_ok) (λ _. tt)
      (λ _. black_rows-AllBlack f.width f.height)

secured :
    (l : Lock) → (l.locked ≡ true) ⊎ ((l.secure ≡ true) ⊎ (l.sas ≡ true)) → secure_now l ≡ true
unfolding secure_now
secured l why = ground arith

-- While the screen is locked, under a prompt or on the security screen, a capture writes nothing
-- but black, and the same whatever the source is.
pub fill-secret :
    (l : Lock) (f : Frame) (a b : Option (Option (List (List ℕ))))
    → (l.locked ≡ true) ⊎ ((l.secure ≡ true) ⊎ (l.sas ≡ true))
    → OnlyBlack (fill l f a) × (fill l f a ≡ fill l f b)
fill-secret l f a b why = (
  subst OnlyBlack (sym (fill-blackened l f a (secured l why))) (blackened-OnlyBlack f),
  fill-blackened l f a (secured l why) ∙ sym (fill-blackened l f b (secured l why)),
)

-- A commit that finds the screen secured, or anything that is no commit.
abbrev pub is_secret : Happens → Bool
is_secret (committed l picture access source) = secure_now l
is_secret e = true

abbrev Secret : Capture → Type 0
Secret f = All OnlyBlack f.written

filled-Secret : (r : Filled) (f : Capture) → OnlyBlack r → Secret f → Secret (filled r f)
unfolding filled frame_failed frame_stop
filled-Secret failed f o k = k
filled-Secret (pixels rows) f o k = if_cases Secret f.with_damage (λ _. (o, k)) (λ _. (o, k))

fill_waiting-Secret :
    (l : Lock) (access : Bool) (source : Option (List (List ℕ))) (b : Option Buffer) (f : Capture)
    → secure_now l ≡ true
    → Secret f
    → Secret (fill_waiting l access source b f)
unfolding fill_buffer
fill_waiting-Secret l access source none f e k = k
fill_waiting-Secret l access source (some b) f e k =
    filled-Secret (fill_buffer l access b source f) f
      (subst OnlyBlack (sym (fill-blackened l _ (some source) e)) (blackened-OnlyBlack _)) k

frame_step-Secret :
    (e : Happens) (f : Capture) → is_secret e ≡ true → Secret f → Secret (frame_step e f)
unfolding frame_step frame_copy frame_handle_commit frame_handle_output_destroy frame_unbind_output
    frame_failed frame_stop
frame_step-Secret (copied damage none) f e k = if_cases Secret (is_some f.buffer) (λ _. k) (λ _. k)
frame_step-Secret (copied damage (some b)) f e k =
    if_cases Secret (is_some f.buffer) (λ _. k)
      λ _.
        if_cases Secret (not f.output) (λ _. k)
          λ _. if_cases Secret (not (fits b f)) (λ _. k) (λ _. k)
frame_step-Secret (committed l picture access source) f e k =
    if_cases Secret (not f.commit_linked || not picture) (λ _. k)
      (λ _. fill_waiting-Secret l access source f.buffer f e k)
frame_step-Secret output_destroyed f e k =
    if_cases Secret (not f.output_linked) (λ _. k)
      λ _. if_cases Secret (is_some f.buffer) (λ _. k) (λ _. k)

frame_run-Secret :
    (es : List Happens) (f : Capture)
    → All (λ e. is_secret e ≡ true) es
    → Secret f
    → Secret (frame_run es f)
unfolding frame_run
frame_run-Secret [] f secret k = k
frame_run-Secret (e ∷ es) f (s, ss) k =
    frame_run-Secret es (frame_step e f) ss (frame_step-Secret e f s k)

-- Whatever happens to a frame from its creation, copies, commits and the output's end in any
-- order, if each commit finds the screen locked, under a prompt or on the security screen,
-- nothing but black is written to the client's buffers.
pub frame_run-OnlyBlack :
    (w h : ℕ) (es : List Happens)
    → All (λ e. is_secret e ≡ true) es
    → All OnlyBlack (frame_run es (capture w h)).written
unfolding capture
frame_run-OnlyBlack w h es secret = frame_run-Secret es (capture w h) secret tt
