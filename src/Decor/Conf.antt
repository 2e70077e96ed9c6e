-- ===== src/Decor/Conf.antt =====
-- decor.c: the look, which Settings writes into effects.conf, and the sizes that follow from it.
pub mod Lines
pub mod Bounds
use sg_compositor.Prelude.{
  ℕ, ◌+◌, ◌-◌, ◌*◌, ◌/◌, Bool, true, false, ◌&&◌, List, [], ◌∷◌, Option, none, some, ◌==◌,
  if◌then◌else◌, ℤ, pos, pos_part, leb_ℤ, Bytes, codes, c_string, same_bytes, starts_with, split_at,
  atoi,
}
use sg_compositor.Decor.Conf.Lines.{read_lines}

-- enum look
pub data Look : Type 0 where
  look_classic look_rounded look_horizon look_glass : Look

-- The static conf.
pub record Conf : Type 0 where
  pub look : Look
  pub caption : ℕ
  pub button : ℕ
  pub buttonh : ℕ
  pub border : ℕ
  pub scale8 : ℕ
  pub glass : ℕ
  pub taskbar : ℕ
  pub cursor : ℕ

abbrev pub default_conf : Conf
default_conf = record {
  look = look_classic;
  caption = 0;
  button = 30;
  buttonh = 0;
  border = 1;
  scale8 = 8;
  glass = 0;
  taskbar = 0;
  cursor = 0;
}

unfoldable pub within : ℕ → ℕ → ℤ → Bool
within lo hi n = leb_ℤ (pos lo) n && leb_ℤ n (pos hi)

unfoldable pub look_of : Bytes → Look
look_of v =
    if starts_with v (codes "rounded")
    then look_rounded
    else if starts_with v (codes "horizon")
    then look_horizon
    else if starts_with v (codes "glass")
    then look_glass
    else look_classic

-- The keys that the comparisons know; no two are the same text, so a number that is out of its
-- key's range reaches no other key.
pub data Key : Type 0 where
  frame_key caption_key button_key buttonh_key border_key scale8_key glass_key taskbar_key
        cursor_key :
      Key
  other_key : Key

unfoldable pub key_of : Bytes → Key
key_of k =
    if same_bytes k (codes "frame")
    then frame_key
    else if same_bytes k (codes "caption")
    then caption_key
    else if same_bytes k (codes "button")
    then button_key
    else if same_bytes k (codes "buttonh")
    then buttonh_key
    else if same_bytes k (codes "border")
    then border_key
    else if same_bytes k (codes "scale8")
    then scale8_key
    else if same_bytes k (codes "glass")
    then glass_key
    else if same_bytes k (codes "taskbar")
    then taskbar_key
    else if same_bytes k (codes "cursor")
    then cursor_key
    else other_key

set_number : ℕ → ℕ → (ℕ → Conf) → ℤ → Conf → Conf
unfolding within
set_number lo hi set n c = if within lo hi n then set (pos_part n) else c

-- What one line does: its key and its value.
unfoldable pub set_key : Key → Bytes → Conf → Conf
unfolding set_number look_of
set_key frame_key v c = record c { look = look_of v }
set_key caption_key v c = set_number 12 120 (λ n. record c { caption = n }) (atoi v) c
set_key button_key v c = set_number 12 160 (λ n. record c { button = n }) (atoi v) c
set_key buttonh_key v c = set_number 10 120 (λ n. record c { buttonh = n }) (atoi v) c
set_key border_key v c = set_number 1 30 (λ n. record c { border = n }) (atoi v) c
set_key scale8_key v c = set_number 8 24 (λ n. record c { scale8 = n }) (atoi v) c
set_key glass_key v c = set_number 0 99 (λ n. record c { glass = n }) (atoi v) c
set_key taskbar_key v c = set_number 20 400 (λ n. record c { taskbar = n }) (atoi v) c
set_key cursor_key v c = set_number 16 256 (λ n. record c { cursor = n }) (atoi v) c
set_key other_key v c = c

-- A line of the file; one with no `=` is passed over.
unfoldable pub read_line : Bytes → Conf → Conf
unfolding set_key key_of
read_line line c = parts (split_at b'=' (c_string line))
  where
    parts : Option (Bytes × Bytes) → Conf
    parts none = c
    parts (some (key, v)) = set_key (key_of key) v c

unfoldable pub read_all : List Bytes → Conf → Conf
unfolding read_line
read_all [] c = c
read_all (l ∷ ls) c = read_all ls (read_line l c)

-- st_mtim
pub record Time : Type 0 where
  pub sec : ℕ
  pub nsec : ℕ

-- What getenv, stat and fopen find of effects.conf.
pub data ConfFile : Type 0 where
  no_path : ConfFile  -- neither XDG_CONFIG_HOME nor HOME
  absent : ConfFile
  present : (mtime : Time) (text : Option Bytes) → ConfFile  -- no text: fopen fails

-- conf, with read_conf's static seen and had
pub record ConfState : Type 0 where
  pub conf : Conf
  pub seen : Time
  pub had : Bool

unfoldable pub read_conf : ConfFile → ConfState → ConfState
unfolding read_lines read_all
read_conf no_path s = s
read_conf absent s =
    if s.had then record s { conf = default_conf; had = false } else record s { had = false }
read_conf (present mtime text) s =
    if s.had && mtime.sec == s.seen.sec && mtime.nsec == s.seen.nsec
    then s
    else record { conf = fresh text; seen = mtime; had = true }
  where
    fresh : Option Bytes → Conf
    fresh none = default_conf
    fresh (some t) = read_all (read_lines t) default_conf

-- The sizes, from the conf that has just been read.
unfoldable pub decor_title_h : Conf → ℕ
decor_title_h c = if c.caption == 0 then 32 else c.border - 1 + c.caption

unfoldable pub decor_taskbar_h : Conf → ℕ
decor_taskbar_h c = if c.taskbar == 0 then 40 else c.taskbar

unfoldable pub decor_cursor_size : Conf → ℕ
decor_cursor_size c = c.cursor

unfoldable pub button_w : Conf → ℕ
button_w c = c.button

unfoldable pub body_w : Conf → ℕ
body_w c = if c.caption == 0 then 0 else c.border - 1

-- Of a size that is not negative: the sources ask for no other.
unfoldable pub px8 : Conf → ℕ → ℕ
px8 c px = (px * c.scale8 + 4) / 8

abbrev pub start_conf : ConfState
start_conf = record { conf = default_conf; seen = record { sec = 0; nsec = 0 }; had = false }

-- The file as each call finds it, one call after the other.
unfoldable pub read_confs : List ConfFile → ConfState → ConfState
unfolding read_conf
read_confs [] s = s
read_confs (f ∷ fs) s = read_confs fs (read_conf f s)
