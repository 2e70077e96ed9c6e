-- ===== src/Authority/Keys.antt =====
-- A locked screen and handle_key_event (seat.c).
use sg_compositor.Prelude.{
  ℕ, Bool, true, false, not, ◌&&◌, ◌+◌, List, [], ◌∷◌, ◌==◌, refl, is_some, any, if_cases,
}
use sg_compositor.World.{Server, Host, same_id}
use sg_compositor.Seat.Activity.{seat_notify_activity}
use sg_compositor.Outputs.{output_power_wake}
use sg_compositor.Windows.Taskbar.{session_x11_super}
use sg_compositor.Remote.Session.{remote_detach}
use sg_compositor.Keys.Reserved.{
  Keysym, raise_volume, lower_volume, mute_volume, switch_vt, Modifiers, win_l, is_sas, is_reload,
  reserved_lock_key, reserved_key, handle_reserved_key, take_consumed_release,
}
use sg_compositor.Keys.Events.{
  KeyEvent, seat_get_focus, console_sas, end_viewing, take_back, send_held, handle_keybinding,
  keybindings, elevated_focus, is_tab, consumed_release, plain_press, reserved_press, take_key,
  hold_press, shell_key, is_shell_key, pass_key, handle_key_event,
}
use sg_compositor.Authority.Barred.{Bar, IsBarred, IsBarred-lock, elevated_focus_session-IsBarred}
use sg_compositor.Authority.Lock.{BarredResult, lock_engage-IsBarred, lock_sas_engage-IsBarred}
use sg_compositor.Authority.Clients.{remote_detach-IsBarred, shadow_end-IsBarred}
use sg_compositor.Authority.Requests.{session_x11_super-IsBarred}

module _ {r : Bar} (h : Host) where
  pub seat_notify_activity-IsBarred :
      (s : Server) → IsBarred r s → IsBarred r (seat_notify_activity h s)
  unfolding seat_notify_activity output_power_wake
  seat_notify_activity-IsBarred s b = IsBarred-lock s _ refl b

  reserved_lock_key-IsBarred :
      (m : Modifiers) (k : Keysym) (s : Server) (rest : Server × Bool)
      → IsBarred r s
      → BarredResult r rest
      → BarredResult r (reserved_lock_key h m k s rest)
  unfolding reserved_lock_key
  reserved_lock_key-IsBarred m k s rest i c =
      if_cases (BarredResult r) (win_l m k) (λ _. lock_engage-IsBarred h s i)
        λ _.
          if_cases (BarredResult r)
            (is_reload m k && not s.lock.locked && not s.lock.secure && not s.lock.sas)
            (λ _. if_cases (IsBarred r) h.reload_command (λ _. IsBarred-lock s _ refl i) (λ _. i))
            λ _.
              if_cases (BarredResult r) (is_sas m k) (λ _. lock_sas_engage-IsBarred h s i) (λ _. c)

  reserved_key-IsBarred :
      (m : Modifiers) (k : Keysym) (s : Server) (rest : Server × Bool)
      → IsBarred r s
      → BarredResult r rest
      → BarredResult r (reserved_key h m k s rest)
  unfolding reserved_key
  reserved_key-IsBarred m raise_volume s rest i c = IsBarred-lock s _ refl i
  reserved_key-IsBarred m lower_volume s rest i c = IsBarred-lock s _ refl i
  reserved_key-IsBarred m mute_volume s rest i c = IsBarred-lock s _ refl i
  reserved_key-IsBarred m k s rest i c = reserved_lock_key-IsBarred m k s rest i c

  handle_reserved_key-IsBarred :
      (m : Modifiers) (ks : List Keysym) (s : Server)
      → IsBarred r s
      → BarredResult r (handle_reserved_key h m ks s)
  unfolding handle_reserved_key
  handle_reserved_key-IsBarred m [] s i = i
  handle_reserved_key-IsBarred m (k ∷ ks) s i =
      reserved_key-IsBarred m k s (handle_reserved_key h m ks s) i
        (handle_reserved_key-IsBarred m ks s i)

  handle_keybinding-IsBarred :
      (k : Keysym) (s : Server) → IsBarred r s → BarredResult r (handle_keybinding h k s)
  unfolding handle_keybinding
  handle_keybinding-IsBarred (switch_vt n) s i =
      if_cases (BarredResult r) s.allow_vt_switch
        (λ _. seat_notify_activity-IsBarred _ (
          if_cases (IsBarred r) (h.backend_is_multi && s.has_session)
            (λ _. IsBarred-lock s _ refl i) (λ _. i)))
        (λ _. i)
  handle_keybinding-IsBarred _ s i = i

  keybindings-IsBarred :
      (ks : List Keysym) (p : Server × Bool)
      → BarredResult r p
      → BarredResult r (keybindings h ks p)
  unfolding keybindings
  keybindings-IsBarred [] p i = i
  keybindings-IsBarred (k ∷ ks) (s, b) i =
      keybindings-IsBarred ks (handle_keybinding h k s) (handle_keybinding-IsBarred k s i)

  consumed_release-IsBarred :
      (code : ℕ) (ks : List ℕ) (s : Server)
      → IsBarred r s
      → BarredResult r (consumed_release h code ks s)
  unfolding consumed_release
  consumed_release-IsBarred code ks s i =
      if_cases (BarredResult r) (s.switch_keycode == code)
        (λ _. elevated_focus_session-IsBarred h _ (IsBarred-lock s _ refl i))
        (λ _. IsBarred-lock s _ refl i)

  plain_press-IsBarred :
      (e : KeyEvent) (code : ℕ) (s : Server)
      → IsBarred r s
      → BarredResult r (plain_press h e code s)
  unfolding plain_press
  plain_press-IsBarred e code s i =
      if_cases (BarredResult r) (e.modifiers.alt && elevated_focus s && any is_tab e.syms)
        (λ _. IsBarred-lock s _ refl i)
        λ _.
          if_cases (BarredResult r) e.modifiers.alt (λ _. keybindings-IsBarred e.syms (s, false) i)
            (λ _. i)

  reserved_press-IsBarred :
      (e : KeyEvent) (code : ℕ) (p : Server × Bool) (s : Server)
      → BarredResult r p
      → BarredResult r (reserved_press h e code p s)
  unfolding reserved_press
  reserved_press-IsBarred e code (t, true) s i = IsBarred-lock t _ refl i
  reserved_press-IsBarred e code (t, false) s i = plain_press-IsBarred e code t i

  take_key-IsBarred : (e : KeyEvent) (s : Server) → IsBarred r s → BarredResult r (take_key h e s)
  unfolding take_key
  take_key-IsBarred e s i =
      if_cases (BarredResult r) (not e.pressed)
        (λ _.
          if_cases (BarredResult r) (take_consumed_release (e.keycode + 8) s.consumed_keys).1
            (λ _. consumed_release-IsBarred _ _ s i) (λ _. i))
        (λ _.
          reserved_press-IsBarred e _ (handle_reserved_key h e.modifiers e.syms s) s
            (handle_reserved_key-IsBarred e.modifiers e.syms s i))

  hold_press-IsBarred :
      (code : ℕ) (p : Server × Bool) → BarredResult r p → BarredResult r (hold_press code p)
  unfolding hold_press
  hold_press-IsBarred code (t, true) j = IsBarred-lock t _ refl j
  hold_press-IsBarred code (t, false) j = j

  shell_key-IsBarred :
      (e : KeyEvent) (p : Server × Bool) → BarredResult r p → BarredResult r (shell_key h e p)
  unfolding shell_key
  shell_key-IsBarred e (s, true) i = i
  shell_key-IsBarred e (s, false) i =
      if_cases (BarredResult r) (e.pressed && is_shell_key e)
        (λ _.
          hold_press-IsBarred e.keycode (session_x11_super h (seat_get_focus s) s)
            (session_x11_super-IsBarred r h _ s i))
        (λ _. i)

  pass_key-IsBarred :
      (e : KeyEvent) (p : Server × Bool) → BarredResult r p → IsBarred r (pass_key e p)
  unfolding pass_key
  pass_key-IsBarred e (s, true) i = i
  pass_key-IsBarred e (s, false) i = IsBarred-lock s _ refl i

  end_viewing-IsBarred : (e : KeyEvent) (s : Server) → IsBarred r s → IsBarred r (end_viewing h e s)
  unfolding end_viewing
  end_viewing-IsBarred e s i =
      if_cases (IsBarred r)
        (is_some s.shadow_client && not (same_id e.owner s.shadow_client) && console_sas e)
        (λ _. shadow_end-IsBarred h s i) (λ _. i)

  take_back-IsBarred : (e : KeyEvent) (s : Server) → IsBarred r s → IsBarred r (take_back h e s)
  unfolding take_back
  take_back-IsBarred e s i =
      if_cases (IsBarred r) (console_sas e)
        (λ _. IsBarred-lock (remote_detach h s) _ refl (remote_detach-IsBarred h s i)) (λ _. i)

  send_held-IsBarred : (s : Server) → IsBarred r s → IsBarred r (send_held s)
  unfolding send_held
  send_held-IsBarred s i =
      if_cases (IsBarred r) (s.held_press_keycode == 0) (λ _. i) (λ _. IsBarred-lock s _ refl i)

  -- A key event, whichever its symbols, modifiers and keyboard, leaves a locked screen locked
  -- and, where asked of, a locked session locked and the privileged clients some of the given
  -- ones.
  pub handle_key_event-IsBarred :
      (e : KeyEvent) (s : Server) → IsBarred r s → IsBarred r (handle_key_event h e s)
  unfolding handle_key_event
  handle_key_event-IsBarred e s i =
      let t = end_viewing-IsBarred e s i in
      if_cases (IsBarred r) ((end_viewing h e s).remote && not e.is_virtual)
        (λ _. take_back-IsBarred e _ t)
        (λ _. seat_notify_activity-IsBarred _ (
          pass_key-IsBarred e (shell_key h e (take_key h e (send_held (end_viewing h e s)))) (
            shell_key-IsBarred e (take_key h e (send_held (end_viewing h e s)))
              (take_key-IsBarred e _ (send_held-IsBarred _ t)))))
