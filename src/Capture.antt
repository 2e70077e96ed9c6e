-- ===== src/Capture.antt =====
-- public_capture.c: what a program that captures the screen is given. A row's pixels are numbers;
-- the buffer's stride and its access through a pointer are not in the model.
pub mod Secrecy
pub mod Frames
pub mod Balance
use sg_compositor.Prelude.{
  ℕ, zero, suc, Bool, true, false, not, ◌||◌, List, [], ◌∷◌, Option, none, some, if◌then◌else◌,
}
use sg_compositor.World.{Lock}

-- secure_now
unfoldable pub secure_now : Lock → Bool
secure_now l = l.locked || l.secure || l.sas

-- The client's buffer: can it be written, is its format one of the two, and its size.
pub record Frame : Type 0 where
  pub writable : Bool
  pub format_ok : Bool
  pub width : ℕ
  pub height : ℕ

-- What was written to the buffer.
pub data Filled : Type 0 where
  failed : Filled
  pixels : List (List ℕ) → Filled

-- 0xff000000
abbrev pub black : ℕ
black = 4278190080

unfoldable pub black_row : ℕ → List ℕ
black_row zero = []
black_row (suc w) = black ∷ black_row w

unfoldable pub black_rows : ℕ → ℕ → List (List ℕ)
unfolding black_row
black_rows w zero = []
black_rows w (suc h) = black_row w ∷ black_rows w h

-- The pixels that wlr_texture_read_pixels reads from the output's buffer; none if it cannot.
abbrev pub read_pixels : Option (List (List ℕ)) → Filled
read_pixels none = failed
read_pixels (some rows) = pixels rows

-- fill: from no source or while the session is secured, black.
unfoldable pub fill : Lock → Frame → Option (Option (List (List ℕ))) → Filled
unfolding black_rows
fill l f src =
    if not f.writable
    then failed
    else if not f.format_ok
    then failed
    else if secure_now l
    then pixels (black_rows f.width f.height)
    else elim src [ none ↦ pixels (black_rows f.width f.height) | some rows ↦ read_pixels rows ]
