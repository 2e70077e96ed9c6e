-- ===== src/Isolation/Keys.antt =====
-- The isolation and handle_key_event (seat.c).
use sg_compositor.Prelude.{
  ℕ, Bool, true, false, not, ◌&&◌, List, [], ◌∷◌, Option, none, ◌==◌, ◌+◌, refl, is_some, any,
  if_cases,
}
use sg_compositor.World.{Server, Host, same_id}
use sg_compositor.Seat.Activity.{seat_notify_activity}
use sg_compositor.Outputs.{output_power_wake}
use sg_compositor.Windows.Taskbar.{session_x11_super}
use sg_compositor.Keys.Reserved.{
  Keysym, raise_volume, lower_volume, mute_volume, switch_vt, Modifiers, win_l, is_sas, is_reload,
  reserved_lock_key, reserved_key, handle_reserved_key, take_consumed_release,
}
use sg_compositor.Keys.Events.{
  KeyEvent, seat_get_focus, console_sas, end_viewing, take_back, send_held, handle_keybinding,
  keybindings, elevated_focus, is_tab, consumed_release, plain_press, reserved_press, take_key,
  hold_press, shell_key, is_shell_key, pass_key, handle_key_event,
}
use sg_compositor.Isolation.Invariant.{IsSound, IsIsolated-screen, log_effect-IsSound}
use sg_compositor.Isolation.Engage.{lock_engage-IsSound, lock_sas_engage-IsSound, SoundResult}
use sg_compositor.Isolation.Minimize.{elevated_focus_session-IsSound}
use sg_compositor.Isolation.Remote.{remote_detach-IsSound, shadow_end-IsSound}
use sg_compositor.Isolation.Taskbar.{session_x11_super-IsSound}

put_keys-IsSound :
    (ks : List ℕ) (held switch : ℕ) (s : Server)
    → IsSound none s
    → IsSound none
        (record s { consumed_keys = ks; held_press_keycode = held; switch_keycode = switch })
put_keys-IsSound ks held switch s k = record {
  isolated = IsIsolated-screen s _ refl k.isolated;
  told = record { locked = k.told.locked; remote = k.told.remote; shadow = k.told.shadow };
}

pub seat_notify_activity-IsSound :
    {g : Option ℕ} (h : Host) (s : Server) → IsSound g s → IsSound g (seat_notify_activity h s)
unfolding seat_notify_activity output_power_wake
seat_notify_activity-IsSound {g} h s k = record {
  isolated = IsIsolated-screen s _ refl k.isolated;
  told = record { locked = k.told.locked; remote = k.told.remote; shadow = k.told.shadow };
}

reserved_lock_key-IsSound :
    (h : Host) (m : Modifiers) (k : Keysym) (s : Server) (rest : Server × Bool)
    → IsSound none s
    → SoundResult none rest
    → SoundResult none (reserved_lock_key h m k s rest)
unfolding reserved_lock_key
reserved_lock_key-IsSound h m k s rest i r =
    if_cases (SoundResult none) (win_l m k) (λ _. lock_engage-IsSound h s i)
      λ _.
        if_cases (SoundResult none)
          (is_reload m k && not s.lock.locked && not s.lock.secure && not s.lock.sas)
          (λ _. if_cases (IsSound none) h.reload_command (λ _. log_effect-IsSound _ s i) (λ _. i))
          λ _.
            if_cases (SoundResult none) (is_sas m k) (λ _. lock_sas_engage-IsSound h s i) (λ _. r)

reserved_key-IsSound :
    (h : Host) (m : Modifiers) (k : Keysym) (s : Server) (rest : Server × Bool)
    → IsSound none s
    → SoundResult none rest
    → SoundResult none (reserved_key h m k s rest)
unfolding reserved_key
reserved_key-IsSound h m raise_volume s rest i r = log_effect-IsSound _ s i
reserved_key-IsSound h m lower_volume s rest i r = log_effect-IsSound _ s i
reserved_key-IsSound h m mute_volume s rest i r = log_effect-IsSound _ s i
reserved_key-IsSound h m k s rest i r = reserved_lock_key-IsSound h m k s rest i r

handle_reserved_key-IsSound :
    (h : Host) (m : Modifiers) (ks : List Keysym) (s : Server)
    → IsSound none s
    → SoundResult none (handle_reserved_key h m ks s)
unfolding handle_reserved_key
handle_reserved_key-IsSound h m [] s i = i
handle_reserved_key-IsSound h m (k ∷ ks) s i =
    reserved_key-IsSound h m k s _ i (handle_reserved_key-IsSound h m ks s i)

handle_keybinding-IsSound :
    (h : Host) (k : Keysym) (s : Server)
    → IsSound none s
    → SoundResult none (handle_keybinding h k s)
unfolding handle_keybinding
handle_keybinding-IsSound h (switch_vt n) s i =
    if_cases (SoundResult none) s.allow_vt_switch
      (λ _. seat_notify_activity-IsSound h _ (
        if_cases (IsSound none) (h.backend_is_multi && s.has_session)
          (λ _. log_effect-IsSound _ s i) (λ _. i)))
      (λ _. i)
handle_keybinding-IsSound h _ s i = i

keybindings-IsSound :
    (h : Host) (ks : List Keysym) (r : Server × Bool)
    → SoundResult none r
    → SoundResult none (keybindings h ks r)
unfolding keybindings
keybindings-IsSound h [] r i = i
keybindings-IsSound h (k ∷ ks) (s, b) i =
    keybindings-IsSound h ks (handle_keybinding h k s) (handle_keybinding-IsSound h k s i)

consumed_release-IsSound :
    (h : Host) (code : ℕ) (ks : List ℕ) (s : Server)
    → IsSound none s
    → SoundResult none (consumed_release h code ks s)
unfolding consumed_release
consumed_release-IsSound h code ks s i =
    if_cases (SoundResult none) (s.switch_keycode == code)
      (λ _. elevated_focus_session-IsSound h _ (put_keys-IsSound ks _ 0 s i))
      (λ _. put_keys-IsSound ks _ _ s i)

plain_press-IsSound :
    (h : Host) (e : KeyEvent) (code : ℕ) (s : Server)
    → IsSound none s
    → SoundResult none (plain_press h e code s)
unfolding plain_press
plain_press-IsSound h e code s i =
    if_cases (SoundResult none) (e.modifiers.alt && elevated_focus s && any is_tab e.syms)
      (λ _. put_keys-IsSound _ _ code s i)
      λ _.
        if_cases (SoundResult none) e.modifiers.alt (λ _. keybindings-IsSound h e.syms (s, false) i)
          (λ _. i)

reserved_press-IsSound :
    (h : Host) (e : KeyEvent) (code : ℕ) (r : Server × Bool) (s : Server)
    → SoundResult none r
    → SoundResult none (reserved_press h e code r s)
unfolding reserved_press
reserved_press-IsSound h e code (t, true) s i = put_keys-IsSound _ _ _ t i
reserved_press-IsSound h e code (t, false) s i = plain_press-IsSound h e code t i

take_key-IsSound :
    (h : Host) (e : KeyEvent) (s : Server) → IsSound none s → SoundResult none (take_key h e s)
unfolding take_key
take_key-IsSound h e s i =
    if_cases (SoundResult none) (not e.pressed)
      (λ _.
        if_cases (SoundResult none) (take_consumed_release (e.keycode + 8) s.consumed_keys).1
          (λ _. consumed_release-IsSound h _ _ s i) (λ _. i))
      (λ _.
        reserved_press-IsSound h e _ (handle_reserved_key h e.modifiers e.syms s) s
          (handle_reserved_key-IsSound h e.modifiers e.syms s i))

hold_press-IsSound :
    (code : ℕ) (r : Server × Bool) → SoundResult none r → SoundResult none (hold_press code r)
unfolding hold_press
hold_press-IsSound code (s, true) i = put_keys-IsSound _ code _ s i
hold_press-IsSound code (s, false) i = i

shell_key-IsSound :
    (h : Host) (e : KeyEvent) (r : Server × Bool)
    → SoundResult none r
    → SoundResult none (shell_key h e r)
unfolding shell_key
shell_key-IsSound h e (s, true) i = i
shell_key-IsSound h e (s, false) i =
    if_cases (SoundResult none) (e.pressed && is_shell_key e)
      (λ _.
        hold_press-IsSound e.keycode (session_x11_super h (seat_get_focus s) s)
          (session_x11_super-IsSound h _ s i))
      (λ _. i)

pass_key-IsSound :
    (e : KeyEvent) (r : Server × Bool) → SoundResult none r → IsSound none (pass_key e r)
unfolding pass_key
pass_key-IsSound e (s, true) i = i
pass_key-IsSound e (s, false) i = log_effect-IsSound _ s i

end_viewing-IsSound :
    (h : Host) (e : KeyEvent) (s : Server) → IsSound none s → IsSound none (end_viewing h e s)
unfolding end_viewing
end_viewing-IsSound h e s i =
    if_cases (IsSound none)
      (is_some s.shadow_client && not (same_id e.owner s.shadow_client) && console_sas e)
      (λ _. shadow_end-IsSound h s i) (λ _. i)

take_back-IsSound :
    (h : Host) (e : KeyEvent) (s : Server) → IsSound none s → IsSound none (take_back h e s)
unfolding take_back
take_back-IsSound h e s i =
    if_cases (IsSound none) (console_sas e)
      (λ _. put_keys-IsSound _ _ _ _ (remote_detach-IsSound h s i)) (λ _. i)

send_held-IsSound : (s : Server) → IsSound none s → IsSound none (send_held s)
unfolding send_held
send_held-IsSound s i =
    if_cases (IsSound none) (s.held_press_keycode == 0) (λ _. i)
      (λ _. log_effect-IsSound _ _ (put_keys-IsSound _ 0 _ s i))

pub handle_key_event-IsSound :
    (h : Host) (e : KeyEvent) (s : Server) → IsSound none s → IsSound none (handle_key_event h e s)
unfolding handle_key_event
handle_key_event-IsSound h e s i =
    let t = end_viewing-IsSound h e s i in
    if_cases (IsSound none) ((end_viewing h e s).remote && not e.is_virtual)
      (λ _. take_back-IsSound h e _ t)
      (λ _. seat_notify_activity-IsSound h _ (
        pass_key-IsSound e (shell_key h e (take_key h e (send_held (end_viewing h e s)))) (
          shell_key-IsSound h e (take_key h e (send_held (end_viewing h e s)))
            (take_key-IsSound h e _ (send_held-IsSound _ t)))))
