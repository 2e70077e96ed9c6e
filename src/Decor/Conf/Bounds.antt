-- ===== src/Decor/Conf/Bounds.antt =====
-- The ranges of the numbers in decor.c's conf, and of the sizes that follow from them.
use sg_compositor.Prelude.{
  ℕ, ◌+◌, ◌*◌, ◌/◌, ◌≤◌, ◌<◌, ◌≡◌, refl, true, ◌&&◌, none, some, Option-cases, List, [], ◌∷◌, ◌⊎◌,
  inl, inr, arith, if_cases, ◌==◌, ℤ, pos_part, Bytes, c_string, split_at, atoi,
}
use sg_compositor.Decor.Conf.{
  Conf, ConfFile, no_path, absent, present, ConfState, default_conf, start_conf, within, set_key,
  set_number, key_of, Key, frame_key, caption_key, button_key, buttonh_key, border_key, scale8_key,
  glass_key, taskbar_key, cursor_key, other_key, read_line, read_all, read_conf, read_confs,
  decor_title_h, decor_taskbar_h, decor_cursor_size, button_w, body_w, px8,
}
use sg_compositor.Decor.Conf.Lines.{read_lines}

abbrev pub Within : ℕ → ℕ → ℕ → Type 0
Within lo hi n = (lo ≤ n) × (n ≤ hi)

abbrev pub Optional : ℕ → ℕ → ℕ → Type 0
Optional lo hi n = (n ≡ 0) ⊎ Within lo hi n

-- Every number of the conf is in its range, or 0 where that means that it is not set.
abbrev pub IsBounded : Conf → Type 0
IsBounded c =
    Optional 12 120 c.caption
    × Within 12 160 c.button
    × Optional 10 120 c.buttonh
    × Within 1 30 c.border
    × Within 8 24 c.scale8
    × (c.glass ≤ 99)
    × Optional 20 400 c.taskbar
    × Optional 16 256 c.cursor

default_conf-IsBounded : IsBounded default_conf
default_conf-IsBounded = ground arith

accepted : (lo hi : ℕ) (n : ℤ) → within lo hi n ≡ true → Within lo hi (pos_part n)
unfolding within
accepted lo hi n e = ground arith

set_number-IsBounded :
    (lo hi : ℕ) (set : ℕ → Conf) (n : ℤ) (c : Conf)
    → ((k : ℕ) → Within lo hi k → IsBounded (set k))
    → IsBounded c
    → IsBounded (set_number lo hi set n c)
unfolding set_number
set_number-IsBounded lo hi set n c f h =
    if_cases IsBounded (within lo hi n) (λ e. f (pos_part n) (accepted lo hi n e)) (λ _. h)

set_key-IsBounded : (key : Key) (v : Bytes) (c : Conf) → IsBounded c → IsBounded (set_key key v c)
unfolding set_key
set_key-IsBounded frame_key v c h = h
set_key-IsBounded caption_key v c h =
    set_number-IsBounded 12 120 (λ n. record c { caption = n }) (atoi v) c
      (λ k w. ground (arith, w, h)) h
set_key-IsBounded button_key v c h =
    set_number-IsBounded 12 160 (λ n. record c { button = n }) (atoi v) c
      (λ k w. ground (arith, w, h)) h
set_key-IsBounded buttonh_key v c h =
    set_number-IsBounded 10 120 (λ n. record c { buttonh = n }) (atoi v) c
      (λ k w. ground (arith, w, h)) h
set_key-IsBounded border_key v c h =
    set_number-IsBounded 1 30 (λ n. record c { border = n }) (atoi v) c
      (λ k w. ground (arith, w, h)) h
set_key-IsBounded scale8_key v c h =
    set_number-IsBounded 8 24 (λ n. record c { scale8 = n }) (atoi v) c
      (λ k w. ground (arith, w, h)) h
set_key-IsBounded glass_key v c h =
    set_number-IsBounded 0 99 (λ n. record c { glass = n }) (atoi v) c (λ k w. ground (arith, w, h))
      h
set_key-IsBounded taskbar_key v c h =
    set_number-IsBounded 20 400 (λ n. record c { taskbar = n }) (atoi v) c
      (λ k w. ground (arith, w, h)) h
set_key-IsBounded cursor_key v c h =
    set_number-IsBounded 16 256 (λ n. record c { cursor = n }) (atoi v) c
      (λ k w. ground (arith, w, h)) h
set_key-IsBounded other_key v c h = h

read_line-IsBounded : (l : Bytes) (c : Conf) → IsBounded c → IsBounded (read_line l c)
unfolding read_line
read_line-IsBounded l c h = elim (Option-cases (split_at b'=' (c_string l))) [
  | inl e ↦ rw e h
  | inr (r, e) ↦ rw e (set_key-IsBounded (key_of r.0) r.1 c h)
]

read_all-IsBounded : (ls : List Bytes) (c : Conf) → IsBounded c → IsBounded (read_all ls c)
unfolding read_all
read_all-IsBounded [] c h = h
read_all-IsBounded (l ∷ ls) c h = read_all-IsBounded ls (read_line l c) (read_line-IsBounded l c h)

read_conf-IsBounded :
    (f : ConfFile) (s : ConfState) → IsBounded s.conf → IsBounded (read_conf f s).conf
unfolding read_conf
read_conf-IsBounded no_path s h = h
read_conf-IsBounded absent s h =
    if_cases (λ (t : ConfState). IsBounded t.conf) s.had (λ _. default_conf-IsBounded) (λ _. h)
read_conf-IsBounded (present mtime none) s h =
    if_cases (λ (t : ConfState). IsBounded t.conf)
      (s.had && mtime.sec == s.seen.sec && mtime.nsec == s.seen.nsec) (λ _. h)
      (λ _. default_conf-IsBounded)
read_conf-IsBounded (present mtime (some t)) s h =
    if_cases (λ (t : ConfState). IsBounded t.conf)
      (s.had && mtime.sec == s.seen.sec && mtime.nsec == s.seen.nsec) (λ _. h)
      (λ _. read_all-IsBounded (read_lines t) default_conf default_conf-IsBounded)

pub read_confs-IsBounded :
    (fs : List ConfFile) (s : ConfState) → IsBounded s.conf → IsBounded (read_confs fs s).conf
unfolding read_confs
read_confs-IsBounded [] s h = h
read_confs-IsBounded (f ∷ fs) s h =
    read_confs-IsBounded fs (read_conf f s) (read_conf-IsBounded f s h)

scaled : (px k : ℕ) → Within 8 24 k → Within px (3 * px) ((px * k + 4) / 8)
scaled px k w =
    let low : px * 8 ≤ px * k = grind arith in
    let high : px * k ≤ px * 24 = grind arith in omega arith

-- Whatever effects.conf holds each time it is read, the bar is 12 to 149 pixels high, the taskbar
-- 20 to 400, the pointer at most 256, a button 12 to 160 wide, the frame's body at most 29 and
-- less than the bar, and px8 scales by one to three.
pub sizes_bounded :
    (fs : List ConfFile) (px : ℕ)
    → let c = (read_confs fs start_conf).conf in
      Within 12 149 (decor_title_h c)
      × Within 20 400 (decor_taskbar_h c)
      × (decor_cursor_size c ≤ 256)
      × Within 12 160 (button_w c)
      × (body_w c ≤ 29)
      × (body_w c < decor_title_h c)
      × Within px (3 * px) (px8 c px)
unfolding decor_title_h decor_taskbar_h decor_cursor_size button_w body_w px8
sizes_bounded fs px =
    let h = read_confs-IsBounded fs start_conf default_conf-IsBounded in
    ground (arith, h, scaled px _ h.4)

-- A second read of the same file changes nothing.
read_conf_idem : (f : ConfFile) (s : ConfState) → read_conf f (read_conf f s) ≡ read_conf f s
unfolding read_conf
read_conf_idem no_path s = refl
read_conf_idem absent s = ground arith
read_conf_idem (present mtime text) s = ground arith
