-- ===== src/Authority/Requests.antt =====
-- A locked screen and the requests of the control socket (lock.c), one by one.
use sg_compositor.Prelude.{
  ℕ, Bool, true, false, not, ◌||◌, Option, none, some, arith, ◌≡◌, refl, is_some, if_cases,
  if◌then◌else◌,
}
use sg_compositor.World.{View, Server, Host, Reply, reply, ok, ok_inhibited, err_no_such_window}
use sg_compositor.Lock.Access.{uid_may_unlock, uid_may_lock}
use sg_compositor.Seat.Pointer.{wayland_app_is}
use sg_compositor.Windows.Taskbar.{
  activate_found, minimize_found, close_found, focus_found, minimize_elevated,
  session_x11_desktop_front, session_x11_super, is_desktop,
}
use sg_compositor.Lock.Access.{lock_view_is_privileged}
use sg_compositor.Idle.{idle_inhibit_v1_check_active, handle_inhibit_event}
use sg_compositor.Control.Requests.{
  for_the_machine, for_the_session, done_or, control_window, control_elevated_window,
}
use sg_compositor.Control.Connections.{
  Outcome, answered, kept, watcher_free, greet, greet_inhibitor, control_session, control_inhibit,
}
use sg_compositor.Control.Socket.{answer}
use sg_compositor.Authority.Barred.{
  Bar, IsBarred, IsBarred-same, IsBarred-lock, seat_set_focus-IsBarred, activate_view-IsBarred,
  x11_minimize-IsBarred, wayland_app_minimize-IsBarred, view_minimize-IsBarred,
}
use sg_compositor.Authority.Lock.{BarredResult}

module _ (r : Bar) where
  abbrev pub BarredReply : Server × Reply → Type 0
  BarredReply p = IsBarred r (p.0)

  abbrev pub BarredOutcome : Outcome → Type 0
  BarredOutcome (answered s passed a) = IsBarred r s
  BarredOutcome (kept s) = IsBarred r s

  pub for_the_machine-refused :
      (u : ℕ) (s : Server) (p : Server × Reply)
      → uid_may_unlock s.lock u ≡ false
      → IsBarred r s
      → BarredReply (for_the_machine u s p)
  unfolding for_the_machine
  for_the_machine-refused u s p stranger b =
      if_cases BarredReply (uid_may_unlock s.lock u) (λ allowed. absurd (ground (arith, stranger)))
        (λ _. b)

  pub for_the_session-IsBarred :
      (h : Host) (u : ℕ) (s : Server) (p : Server × Reply)
      → BarredReply p
      → IsBarred r s
      → BarredReply (for_the_session h u s p)
  unfolding for_the_session
  for_the_session-IsBarred h u s p done b =
      if_cases BarredReply (uid_may_lock h s.lock u) (λ _. done) (λ _. b)

  pub done_or-IsBarred :
      (x y : Reply) (p : Server × Bool) → BarredResult r p → BarredReply (done_or x y p)
  done_or-IsBarred x y (s, done) b = b

  pub answer-IsBarred :
      (passed : Option ℕ) (p : Server × Reply) → BarredReply p → BarredOutcome (answer passed p)
  answer-IsBarred passed (s, a) b = b

  pub greet-IsBarred :
      (h : Host) (fd : ℕ) (a : Reply) (s : Server) → IsBarred r s → IsBarred r (greet h fd a s)
  unfolding greet watcher_free
  greet-IsBarred h fd a s b =
      if_cases (IsBarred r) (h.send_ok fd (reply a)) (λ _. IsBarred-lock s _ refl b)
        (λ _. IsBarred-same s _ refl refl refl refl b)

  pub control_session-IsBarred :
      (h : Host) (u fd : ℕ) (passed : Option ℕ) (s : Server)
      → IsBarred r s
      → BarredOutcome (control_session h u fd passed s)
  unfolding control_session
  control_session-IsBarred h u fd passed s b =
      if_cases BarredOutcome (not (uid_may_lock h s.lock u) || not h.calloc_ok) (λ _. b)
        (λ _. greet-IsBarred h fd _ _ (IsBarred-same s _ refl refl refl refl b))

  pub control_inhibit-IsBarred :
      (h : Host) (u fd : ℕ) (passed : Option ℕ) (s : Server)
      → IsBarred r s
      → BarredOutcome (control_inhibit h u fd passed s)
  unfolding control_inhibit greet_inhibitor idle_inhibit_v1_check_active handle_inhibit_event
  control_inhibit-IsBarred h u fd passed s b =
      if_cases BarredOutcome (not (uid_may_lock h s.lock u) || not h.calloc_ok) (λ _. b)
        (λ _.
          if_cases (IsBarred r) (h.send_ok fd (reply ok_inhibited)) (λ _. IsBarred-lock s _ refl b)
            (λ _. IsBarred-lock s _ refl b))

  pub refused_outcome :
      (refuse : Bool) (x y : Outcome)
      → refuse ≡ true
      → BarredOutcome x
      → BarredOutcome (if refuse then x else y)
  refused_outcome refuse x y stranger b =
      if_cases BarredOutcome refuse (λ _. b) (λ ne. absurd (ground (arith, stranger)))

  module _ (h : Host) where
    pub activate_found-IsBarred :
        (o : Option View) (s : Server) → IsBarred r s → BarredResult r (activate_found h o s)
    activate_found-IsBarred none s b = b
    activate_found-IsBarred (some v) s b = activate_view-IsBarred h v s b

    pub minimize_found-IsBarred :
        (o : Option View) (s : Server) → IsBarred r s → BarredResult r (minimize_found h o s)
    minimize_found-IsBarred none s b = b
    minimize_found-IsBarred (some v) s b =
        if_cases (IsBarred r) (wayland_app_is v) (λ _. wayland_app_minimize-IsBarred h v s b)
          (λ _. x11_minimize-IsBarred h v s b)

    pub close_found-IsBarred :
        (o : Option View) (s : Server) → IsBarred r s → BarredResult r (close_found o s)
    close_found-IsBarred none s b = b
    close_found-IsBarred (some v) s b = IsBarred-lock s _ refl b

    pub focus_found-IsBarred :
        (o : Option View) (s : Server) → IsBarred r s → BarredResult r (focus_found h o s)
    focus_found-IsBarred none s b = b
    focus_found-IsBarred (some v) s b = seat_set_focus-IsBarred h v.id s b

    pub minimize_elevated-IsBarred :
        (o : Option View) (s : Server) → IsBarred r s → BarredResult r (minimize_elevated h o s)
    minimize_elevated-IsBarred none s b = b
    minimize_elevated-IsBarred (some v) s b = view_minimize-IsBarred h v s b

    pub session_x11_super-IsBarred :
        (o : Option View) (s : Server) → IsBarred r s → BarredResult r (session_x11_super h o s)
    unfolding session_x11_super session_x11_desktop_front
    session_x11_super-IsBarred none s b = b
    session_x11_super-IsBarred (some v) s b =
        if_cases (BarredResult r)
          (is_some v.elevated || lock_view_is_privileged s.lock v || is_desktop v) (λ _. b)
          (λ _. focus_found-IsBarred _ s b)

  pub control_window-IsBarred :
      (h : Host) (u : ℕ) (w : Option ℕ) (act : ℕ → Server → Server × Bool) (s : Server)
      → ((w : ℕ) → BarredResult r (act w s))
      → IsBarred r s
      → BarredReply (control_window h u w act s)
  unfolding control_window
  control_window-IsBarred h u none act s keeps b = for_the_session-IsBarred h u s _ b b
  control_window-IsBarred h u (some w) act s keeps b =
      for_the_session-IsBarred h u s _ (done_or-IsBarred ok err_no_such_window (act w s) (keeps w))
        b

  pub control_elevated_window-IsBarred :
      (h : Host) (u : ℕ) (w : Option (ℕ × ℕ)) (act : ℕ → ℕ → Server → Server × Bool) (s : Server)
      → ((i w : ℕ) → BarredResult r (act i w s))
      → IsBarred r s
      → BarredReply (control_elevated_window h u w act s)
  unfolding control_elevated_window
  control_elevated_window-IsBarred h u none act s keeps b = for_the_session-IsBarred h u s _ b b
  control_elevated_window-IsBarred h u (some (i, w)) act s keeps b =
      for_the_session-IsBarred h u s _
        (done_or-IsBarred ok err_no_such_window (act i w s) (keeps i w)) b
