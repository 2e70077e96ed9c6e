-- ===== src/Isolation/Taskbar.antt =====
-- The isolation and what the taskbar asks for (session_x11.c, elevated.c).
use sg_compositor.Prelude.{ℕ, ◌||◌, Option, none, some, is_some, if_cases}
use sg_compositor.World.{View, Server, Host}
use sg_compositor.Lock.Access.{lock_view_is_privileged}
use sg_compositor.Seat.Pointer.{wayland_app_is}
use sg_compositor.Windows.Taskbar.{
  activate_found, minimize_found, close_found, focus_found, minimize_elevated, session_x11_activate,
  session_x11_minimize, session_x11_close, is_desktop, session_x11_desktop_front, session_x11_super,
  elevated_activate, elevated_minimize,
}
use sg_compositor.Isolation.Invariant.{IsSound, seat_set_focus-IsSound, log_effect-IsSound}
use sg_compositor.Isolation.Engage.{SoundResult}
use sg_compositor.Isolation.Minimize.{
  view_minimize-IsSound, x11_minimize-IsSound, wayland_app_minimize-IsSound, activate_view-IsSound,
}

module _ {g : Option ℕ} where
  activate_found-IsSound :
      (h : Host) (o : Option View) (s : Server) → IsSound g s → SoundResult g (activate_found h o s)
  activate_found-IsSound h none s k = k
  activate_found-IsSound h (some v) s k = activate_view-IsSound h v s k

  minimize_found-IsSound :
      (h : Host) (o : Option View) (s : Server) → IsSound g s → SoundResult g (minimize_found h o s)
  minimize_found-IsSound h none s k = k
  minimize_found-IsSound h (some v) s k =
      if_cases (IsSound g) (wayland_app_is v) (λ _. wayland_app_minimize-IsSound h v s k)
        (λ _. x11_minimize-IsSound h v s k)

  close_found-IsSound :
      (o : Option View) (s : Server) → IsSound g s → SoundResult g (close_found o s)
  close_found-IsSound none s k = k
  close_found-IsSound (some v) s k = log_effect-IsSound _ s k

  focus_found-IsSound :
      (h : Host) (o : Option View) (s : Server) → IsSound g s → SoundResult g (focus_found h o s)
  focus_found-IsSound h none s k = k
  focus_found-IsSound h (some v) s k = seat_set_focus-IsSound h v.id s k

  minimize_elevated-IsSound :
      (h : Host) (o : Option View) (s : Server)
      → IsSound g s
      → SoundResult g (minimize_elevated h o s)
  minimize_elevated-IsSound h none s k = k
  minimize_elevated-IsSound h (some v) s k = view_minimize-IsSound h v s k

  pub session_x11_activate-IsSound :
      (h : Host) (w : ℕ) (s : Server) → IsSound g s → SoundResult g (session_x11_activate h w s)
  unfolding session_x11_activate
  session_x11_activate-IsSound h w s k = activate_found-IsSound h _ s k

  pub session_x11_minimize-IsSound :
      (h : Host) (w : ℕ) (s : Server) → IsSound g s → SoundResult g (session_x11_minimize h w s)
  unfolding session_x11_minimize
  session_x11_minimize-IsSound h w s k = minimize_found-IsSound h _ s k

  pub session_x11_close-IsSound :
      (w : ℕ) (s : Server) → IsSound g s → SoundResult g (session_x11_close w s)
  unfolding session_x11_close
  session_x11_close-IsSound w s k = close_found-IsSound _ s k

  pub session_x11_desktop_front-IsSound :
      (h : Host) (s : Server) → IsSound g s → SoundResult g (session_x11_desktop_front h s)
  unfolding session_x11_desktop_front
  session_x11_desktop_front-IsSound h s k = focus_found-IsSound h _ s k

  pub session_x11_super-IsSound :
      (h : Host) (o : Option View) (s : Server)
      → IsSound g s
      → SoundResult g (session_x11_super h o s)
  unfolding session_x11_super
  session_x11_super-IsSound h none s k = k
  session_x11_super-IsSound h (some v) s k =
      if_cases (SoundResult g)
        (is_some v.elevated || lock_view_is_privileged s.lock v || is_desktop v) (λ _. k)
        (λ _. session_x11_desktop_front-IsSound h s k)

  pub elevated_activate-IsSound :
      (h : Host) (i w : ℕ) (s : Server) → IsSound g s → SoundResult g (elevated_activate h i w s)
  unfolding elevated_activate
  elevated_activate-IsSound h i w s k = activate_found-IsSound h _ s k

  pub elevated_minimize-IsSound :
      (h : Host) (i w : ℕ) (s : Server) → IsSound g s → SoundResult g (elevated_minimize h i w s)
  unfolding elevated_minimize
  elevated_minimize-IsSound h i w s k = minimize_elevated-IsSound h _ s k
