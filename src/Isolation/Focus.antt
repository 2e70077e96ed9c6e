-- ===== src/Isolation/Focus.antt =====
-- The pointer's motion and seat_set_focus: what they leave alone, and whom they let in.
use sg_compositor.Prelude.{
  ℕ, Bool, true, false, [], none, some, arith, ◌≡◌, ◌⊎◌, inl, inr, ap, ◌∙◌, Option-cases,
  Bool-cases, All,
}
use sg_compositor.World.{View, Lock, Server, Host, find_view}
use sg_compositor.Lock.Access.{lock_view_allowed}
use sg_compositor.Seat.Activity.{seat_notify_activity}
use sg_compositor.Seat.Pointer.{
  desktop_view_at, pointer_to_cursor, process_cursor_motion, wayland_app_grab_motion,
  elevated_grab_motion,
}
use sg_compositor.Seat.Focus.{seat_set_focus, focus_refused, focus_view, focus_enter}
use sg_compositor.Isolation.Views.{
  focus_in, find_view_id, find_view_self, focus_in-move_to_front, focus_in_mono, All-move_to_front,
}

-- The state less the focus, the views, the grab, the outputs and the log.
abbrev pub beside_focus : Server → Server
beside_focus s = record s {
  views = [];
  keyboard_focus = none;
  pointer_focus = none;
  grab_view = none;
  outputs = [];
  log = [];
}

-- What the pointer's motion does to the rest, and where the pointer can be after it.
pub record Moves (s t : Server) : Type 0 where
  pub beside : beside_focus t ≡ beside_focus s
  pub views : t.views ≡ s.views
  pub keyboard : t.keyboard_focus ≡ s.keyboard_focus
  pub pointer :
      (t.pointer_focus ≡ s.pointer_focus)
      ⊎ (focus_in (lock_view_allowed s.lock) s.views t.pointer_focus ≡ true)

-- A window that desktop_view_at finds under the cursor is a window of the list, and one that may
-- be seen now.
pub desktop_view_at_found :
    (h : Host) (s : Server) (v : View)
    → desktop_view_at h s ≡ some v
    → (find_view v.id s.views ≡ some v) × (lock_view_allowed s.lock v ≡ true)
unfolding desktop_view_at
desktop_view_at_found h s v e = elim (Option-cases (h.node_at s.views)) [
  | inl out ↦ ground (arith, out)
  | inr (i, under) ↦ ground (arith, under, find_view_id i s.views v)
]

-- With no grab in the way the pointer goes to a view that may be seen, or to nothing.
pointer_to_cursor-Moves : (h : Host) (s : Server) → Moves s (pointer_to_cursor h s)
unfolding pointer_to_cursor seat_notify_activity
pointer_to_cursor-Moves h s = elim (Option-cases (desktop_view_at h s)) [
  | inl out ↦ ground (arith, out)
  | inr (v, under) ↦ ground (arith, under, desktop_view_at_found h s v under)
]

pub process_cursor_motion-Moves : (h : Host) (s : Server) → Moves s (process_cursor_motion h s)
unfolding process_cursor_motion seat_notify_activity wayland_app_grab_motion elevated_grab_motion
process_cursor_motion-Moves h s =
    ground (
      arith,
      pointer_to_cursor-Moves h s,
      pointer_to_cursor-Moves h (record s { grab_view = none }),
    )

-- Nothing has the pointer but views that pass the test, and nothing the keyboard, unless a grab kept
-- it when it was last to be cleared.
pub record Confined (ok : View → Bool) (s : Server) : Type 0 where
  pub keyboard : s.keyboard_kept ≡ false → focus_in ok s.views s.keyboard_focus ≡ true
  pub pointer : focus_in ok s.views s.pointer_focus ≡ true

-- The test admits whoever may have the focus.
abbrev pub Admits : (View → Bool) → Lock → Type 0
Admits ok l = (v : View) → lock_view_allowed l v ≡ true → ok v ≡ true

Moves-Confined :
    (ok : View → Bool) (s t : Server) → Admits ok s.lock → Confined ok s → Moves s t → Confined ok t
Moves-Confined ok s t admits c m =
    ground (arith, focus_in_mono (lock_view_allowed s.lock) ok t.pointer_focus s.views admits)

pub process_cursor_motion-Confined :
    (ok : View → Bool) (h : Host) (s : Server)
    → Admits ok s.lock
    → Confined ok s
    → Confined ok (process_cursor_motion h s)
process_cursor_motion-Confined ok h s admits c =
    Moves-Confined ok s _ admits c (process_cursor_motion-Moves h s)

focus_enter-Confined :
    (ok : View → Bool) (h : Host) (v : View) (s : Server)
    → Confined ok s
    → find_view v.id s.views ≡ some v
    → ok v ≡ true
    → Confined ok (focus_enter h v s)
unfolding focus_enter
focus_enter-Confined ok h v s c e good = record {
  keyboard = λ n. ground (
    arith,
    n,
    c.keyboard,
    focus_in-move_to_front ok v (some v.id) s.views e,
    focus_in-move_to_front ok v s.keyboard_focus s.views e,
  );
  pointer = ground (arith, focus_in-move_to_front ok v s.pointer_focus s.views e);
}

focus_refused-allowed :
    (s : Server) (v : View) → focus_refused s v ≡ false → lock_view_allowed s.lock v ≡ true
unfolding focus_refused
focus_refused-allowed s v e = ground arith

focus_enter-beside :
    (h : Host) (v : View) (s : Server) → beside_focus (focus_enter h v s) ≡ beside_focus s
unfolding focus_enter
focus_enter-beside h v s = ground arith

focus_enter-lock : (h : Host) (v : View) (s : Server) → (focus_enter h v s).lock ≡ s.lock
focus_enter-lock h v s = ap (λ r. r.lock) (focus_enter-beside h v s)

focus_view-Confined :
    (ok : View → Bool) (h : Host) (v : View) (s : Server)
    → Admits ok s.lock
    → Confined ok s
    → find_view v.id s.views ≡ some v
    → Confined ok (focus_view h v s)
unfolding focus_view
focus_view-Confined ok h v s admits c e = elim (Bool-cases (focus_refused s v)) [
  | inl stays ↦ rw stays c
  | inr goes ↦ rw goes (
      process_cursor_motion-Confined ok h (focus_enter h v s)
        (λ w a. admits w (rw (focus_enter-lock h v s) at a))
        (focus_enter-Confined ok h v s c e (admits v (focus_refused-allowed s v goes))))
]

-- seat_set_focus keeps the keyboard and the pointer to the views that the test admits.
pub seat_set_focus-Confined :
    (ok : View → Bool) (h : Host) (i : ℕ) (s : Server)
    → Admits ok s.lock
    → Confined ok s
    → Confined ok (seat_set_focus h i s)
unfolding seat_set_focus
seat_set_focus-Confined ok h i s admits c = elim (Option-cases (find_view i s.views)) [
  | inl out ↦ rw (out, seat_set_focus) c
  | inr (v, found) ↦
      rw (found, seat_set_focus)
        (focus_view-Confined ok h v s admits c (find_view_self i s.views v found))
]

focus_view-beside :
    (h : Host) (v : View) (s : Server) → beside_focus (focus_view h v s) ≡ beside_focus s
unfolding focus_view
focus_view-beside h v s = elim (Bool-cases (focus_refused s v)) [
  | inl stays ↦ rw stays
  | inr goes ↦
      rw goes
        ((process_cursor_motion-Moves h (focus_enter h v s)).beside ∙ focus_enter-beside h v s)
]

-- Setting the focus changes nothing of the lock, nor of Remote Desktop's state.
pub seat_set_focus-beside :
    (h : Host) (i : ℕ) (s : Server) → beside_focus (seat_set_focus h i s) ≡ beside_focus s
unfolding seat_set_focus
seat_set_focus-beside h i s = elim (Option-cases (find_view i s.views)) [
  | inl out ↦ rw (out, seat_set_focus)
  | inr (v, found) ↦ rw (found, seat_set_focus) (focus_view-beside h v s)
]

module _ (P : View → Type 0) where
  focus_enter-All :
      (h : Host) (v : View) (s : Server)
      → find_view v.id s.views ≡ some v
      → All P s.views
      → All P (focus_enter h v s).views
  unfolding focus_enter
  focus_enter-All h v s e c = ground (arith, All-move_to_front P v s.views e c)

  focus_view-All :
      (h : Host) (v : View) (s : Server)
      → find_view v.id s.views ≡ some v
      → All P s.views
      → All P (focus_view h v s).views
  unfolding focus_view
  focus_view-All h v s e c = elim (Bool-cases (focus_refused s v)) [
    | inl stays ↦ rw stays c
    | inr goes ↦
        rw goes (
          rw ((process_cursor_motion-Moves h (focus_enter h v s)).views)
            (focus_enter-All h v s e c))
  ]

  -- Setting the focus shows, hides and changes no view.
  pub seat_set_focus-All :
      (h : Host) (i : ℕ) (s : Server) → All P s.views → All P (seat_set_focus h i s).views
  unfolding seat_set_focus
  seat_set_focus-All h i s c = elim (Option-cases (find_view i s.views)) [
    | inl out ↦ rw (out, seat_set_focus) c
    | inr (v, found) ↦
        rw (found, seat_set_focus) (focus_view-All h v s (find_view_self i s.views v found) c)
  ]
