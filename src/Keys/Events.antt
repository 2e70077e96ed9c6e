-- ===== src/Keys/Events.antt =====
-- seat.c: handle_key_event. Which keys are held when a window gets the focus, and the clipboard that
-- typing lets through, are not in the state.
use sg_compositor.Prelude.{
  ℕ, Bool, true, false, not, ◌&&◌, ◌||◌, ◌+◌, List, [], ◌∷◌, Option, none, some, ◌==◌,
  if◌then◌else◌, any, is_some,
}
use sg_compositor.World.{View, Server, Host, same_id, find_view, sent_key, changed_vt, log_effect}
use sg_compositor.Seat.Activity.{seat_notify_activity}
use sg_compositor.Windows.Minimize.{elevated_focus_session}
use sg_compositor.Windows.Taskbar.{session_x11_super}
use sg_compositor.Remote.Session.{remote_detach, shadow_end}
use sg_compositor.Keys.Reserved.{
  Keysym, switch_vt, tab, left_tab, escape, super_l, super_r, Modifiers, is_sas,
  take_consumed_release, mark_consumed, handle_reserved_key,
}

-- wlr_keyboard_key_event, and the keyboard that it comes from: is it virtual, and whose.
pub record KeyEvent : Type 0 where
  pub keycode : ℕ
  pub pressed : Bool
  pub syms : List Keysym
  pub modifiers : Modifiers
  pub is_virtual : Bool
  pub owner : Option ℕ

-- seat_get_focus
unfoldable pub seat_get_focus : Server → Option View
seat_get_focus s = elim (s.keyboard_focus) [ none ↦ none | some i ↦ find_view i s.views ]

abbrev pub console_sas : KeyEvent → Bool
console_sas e = e.pressed && any (is_sas e.modifiers) e.syms

abbrev pub mark : ℕ → Server → Server
mark code s = record s { consumed_keys = mark_consumed code s.consumed_keys }

-- Ctrl+Alt+Del at the console ends a viewing.
unfoldable pub end_viewing : Host → KeyEvent → Server → Server
end_viewing h e s =
    if is_some s.shadow_client && not (same_id e.owner s.shadow_client) && console_sas e
    then shadow_end h s
    else s

-- While Remote Desktop has the session: Ctrl+Alt+Del at the console takes it back.
unfoldable pub take_back : Host → KeyEvent → Server → Server
take_back h e s = if console_sas e then mark (e.keycode + 8) (remote_detach h s) else s

-- A shell key's press, held while the focus moved, goes before this event.
unfoldable pub send_held : Server → Server
send_held s =
    if s.held_press_keycode == 0
    then s
    else log_effect (sent_key s.held_press_keycode true s.keyboard_focus)
        (record s { held_press_keycode = 0 })

-- handle_keybinding: the virtual terminals.
unfoldable pub handle_keybinding : Host → Keysym → Server → Server × Bool
handle_keybinding h (switch_vt n) s =
    if s.allow_vt_switch
    then (
      seat_notify_activity h
          (if h.backend_is_multi && s.has_session then log_effect (changed_vt n) s else s),
      true,
    )
    else (s, false)
handle_keybinding h k s = (s, false)

-- Its loop: the last symbol says whether the key was handled.
unfoldable pub keybindings : Host → List Keysym → Server × Bool → Server × Bool
unfolding handle_keybinding
keybindings h [] r = r
keybindings h (k ∷ ks) (s, b) = keybindings h ks (handle_keybinding h k s)

abbrev pub is_tab : Keysym → Bool
is_tab tab = true
is_tab left_tab = true
is_tab k = false

abbrev pub is_super : Keysym → Bool
is_super super_l = true
is_super super_r = true
is_super k = false

abbrev pub is_escape : Keysym → Bool
is_escape escape = true
is_escape k = false

abbrev pub elevated_focus : Server → Bool
elevated_focus s = elim (seat_get_focus s) [ none ↦ false | some v ↦ is_some v.elevated ]

-- A consumed press's release; Alt+Tab's goes back to the session.
unfoldable pub consumed_release : Host → ℕ → List ℕ → Server → Server × Bool
consumed_release h code ks s =
    let t : Server = record s { consumed_keys = ks } in
    if s.switch_keycode == code
    then (elevated_focus_session h (record t { switch_keycode = 0 }), true)
    else (t, true)

-- A press that is not reserved.
unfoldable pub plain_press : Host → KeyEvent → ℕ → Server → Server × Bool
unfolding keybindings
plain_press h e code s =
    if e.modifiers.alt && elevated_focus s && any is_tab e.syms
    then (record (mark code s) { switch_keycode = code }, true)
    else if e.modifiers.alt
    then keybindings h e.syms (s, false)
    else (s, false)

unfoldable pub reserved_press : Host → KeyEvent → ℕ → Server × Bool → Server → Server × Bool
unfolding plain_press
reserved_press h e code (t, true) s = (mark code t, true)
reserved_press h e code (t, false) s = plain_press h e code t

-- What the compositor does with the key itself, and whether it was handled.
unfoldable pub take_key : Host → KeyEvent → Server → Server × Bool
unfolding consumed_release reserved_press
take_key h e s =
    let code = e.keycode + 8 in
    let taken = take_consumed_release code s.consumed_keys in
    if not e.pressed
    then if taken.1 then consumed_release h code taken.0 s else (s, false)
    else reserved_press h e code (handle_reserved_key h e.modifiers e.syms s) s

-- The Windows key and what goes with it, Alt+Tab and Ctrl+Shift+Esc are the shell's.
abbrev pub is_shell_key : KeyEvent → Bool
is_shell_key e =
    any is_super e.syms
    || e.modifiers.logo
    || (e.modifiers.alt && any is_tab e.syms)
    || (e.modifiers.ctrl && e.modifiers.shift && any is_escape e.syms)

unfoldable pub hold_press : ℕ → Server × Bool → Server × Bool
hold_press keycode (s, true) = (record s { held_press_keycode = keycode }, true)
hold_press keycode (s, false) = (s, false)

unfoldable pub shell_key : Host → KeyEvent → Server × Bool → Server × Bool
unfolding hold_press
shell_key h e (s, true) = (s, true)
shell_key h e (s, false) =
    if e.pressed && is_shell_key e
    then hold_press e.keycode (session_x11_super h (seat_get_focus s) s)
    else (s, false)

-- What is left goes to the program.
unfoldable pub pass_key : KeyEvent → Server × Bool → Server
pass_key e (s, true) = s
pass_key e (s, false) = log_effect (sent_key e.keycode e.pressed s.keyboard_focus) s

-- handle_key_event
unfoldable pub handle_key_event : Host → KeyEvent → Server → Server
unfolding end_viewing take_back send_held take_key shell_key pass_key
handle_key_event h e s =
    let t = end_viewing h e s in
    if t.remote && not e.is_virtual
    then take_back h e t
    else seat_notify_activity h (pass_key e (shell_key h e (take_key h e (send_held t))))
