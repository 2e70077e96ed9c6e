-- ===== src/Keys/Swallowed.antt =====
-- seat.c: what a program gets of a reserved key.
use sg_compositor.Prelude.{
  ℕ, Bool, true, false, not, ◌&&◌, ◌||◌, ◌+◌, List, [], ◌∷◌, arith, ◌≡◌, refl, any, if_cases,
}
use sg_compositor.World.{Server, Host}
use sg_compositor.Keys.Reserved.{
  Keysym, raise_volume, lower_volume, mute_volume, Modifiers, win_l, is_sas, is_reload,
  reserved_lock_key, reserved_key, handle_reserved_key,
}
use sg_compositor.Keys.Events.{KeyEvent, reserved_press, take_key, shell_key, pass_key}

-- Win+L and Ctrl+Alt+Del
abbrev pub is_secure_key : Modifiers → Keysym → Bool
is_secure_key m k = win_l m k || is_sas m k

abbrev Handled : Server × Bool → Type 0
Handled p = p.1 ≡ true

reserved_lock_key-Handled :
    (h : Host) (m : Modifiers) (k : Keysym) (s : Server) (rest : Server × Bool)
    → (is_secure_key m k ≡ false → Handled rest)
    → Handled (reserved_lock_key h m k s rest)
unfolding reserved_lock_key
reserved_lock_key-Handled h m k s rest later =
    if_cases Handled (win_l m k) (λ _. refl)
      λ a.
        if_cases Handled (is_reload m k && not s.lock.locked && not s.lock.secure && not s.lock.sas)
          (λ _. refl) λ _. if_cases Handled (is_sas m k) (λ _. refl) (λ b. later (ground arith))

reserved_key-Handled :
    (h : Host) (m : Modifiers) (k : Keysym) (s : Server) (rest : Server × Bool)
    → (is_secure_key m k ≡ false → Handled rest)
    → Handled (reserved_key h m k s rest)
unfolding reserved_key
reserved_key-Handled h m raise_volume s rest later = refl
reserved_key-Handled h m lower_volume s rest later = refl
reserved_key-Handled h m mute_volume s rest later = refl
reserved_key-Handled h m k s rest later = reserved_lock_key-Handled h m k s rest later

handle_reserved_key-Handled :
    (h : Host) (m : Modifiers) (ks : List Keysym) (s : Server)
    → any (is_secure_key m) ks ≡ true
    → Handled (handle_reserved_key h m ks s)
unfolding handle_reserved_key
handle_reserved_key-Handled h m [] s e = e
handle_reserved_key-Handled h m (k ∷ ks) s e =
    reserved_key-Handled h m k s _
      (λ other. handle_reserved_key-Handled h m ks s (ground (arith, other)))

reserved_press-Handled :
    (h : Host) (e : KeyEvent) (code : ℕ) (p : Server × Bool) (s : Server)
    → Handled p
    → Handled (reserved_press h e code p s)
unfolding reserved_press
reserved_press-Handled h e code (t, true) s k = refl
reserved_press-Handled h e code (t, false) s k = absurd (ground (arith, k))

Handled-silent :
    (h : Host) (e : KeyEvent) (p : Server × Bool) → Handled p → pass_key e (shell_key h e p) ≡ p.0
unfolding shell_key pass_key
Handled-silent h e (t, true) k = refl
Handled-silent h e (t, false) k = absurd (ground (arith, k))

-- A press with Win+L or Ctrl+Alt+Del among its symbols sends no key to a program: after take_key
-- neither shell_key nor pass_key changes the state.
pub pass_key-take_key :
    (h : Host) (e : KeyEvent) (s : Server)
    → e.pressed ≡ true
    → any (is_secure_key e.modifiers) e.syms ≡ true
    → pass_key e (shell_key h e (take_key h e s)) ≡ (take_key h e s).0
unfolding take_key
pass_key-take_key h e s down secure = Handled-silent h e (take_key h e s) (
    if_cases Handled (not e.pressed) (λ up. absurd (ground (arith, down)))
      (λ _.
        reserved_press-Handled h e (e.keycode + 8) (handle_reserved_key h e.modifiers e.syms s) s
          (handle_reserved_key-Handled h e.modifiers e.syms s secure)))
