-- ===== src/Keys/Reserved.antt =====
-- seat.c: the reserved keys, and the releases that go with their presses.
use sg_compositor.Prelude.{ℕ, Bool, true, false, not, ◌&&◌, List, [], ◌∷◌, ◌==◌, if◌then◌else◌}
use sg_compositor.World.{
  Server, Host, volume_up, volume_down, mute_toggle, stepped_volume, ran_reload, log_effect,
}
use sg_compositor.Lock.Engage.{lock_engage, lock_sas_engage}

-- The key symbols that the code names, and any other.
pub data Keysym : Type 0 where
  raise_volume lower_volume mute_volume lower_l upper_l delete kp_delete : Keysym
  terminate_server backspace tab left_tab escape super_l super_r : Keysym
  switch_vt : ℕ → Keysym
  other_keysym : ℕ → Keysym

pub record Modifiers : Type 0 where
  pub logo : Bool
  pub ctrl : Bool
  pub alt : Bool
  pub shift : Bool

-- take_consumed_release: the slot is free again, and there was one.
unfoldable pub take_consumed_release : ℕ → List ℕ → List ℕ × Bool
take_consumed_release code [] = ([], false)
take_consumed_release code (k ∷ ks) =
    let rest = take_consumed_release code ks in
    if k == code then (0 ∷ ks, true) else (k ∷ rest.0, rest.1)

-- mark_consumed: in the first free slot; with none free the key is not marked.
unfoldable pub mark_consumed : ℕ → List ℕ → List ℕ
mark_consumed code [] = []
mark_consumed code (k ∷ ks) =
    let rest = mark_consumed code ks in if k == 0 then code ∷ ks else k ∷ rest

abbrev pub is_l : Keysym → Bool
is_l lower_l = true
is_l upper_l = true
is_l k = false

abbrev pub is_delete : Keysym → Bool
is_delete delete = true
is_delete kp_delete = true
is_delete k = false

abbrev pub win_l : Modifiers → Keysym → Bool
win_l m k = m.logo && is_l k

abbrev pub is_sas : Modifiers → Keysym → Bool
is_sas m k = m.ctrl && m.alt && is_delete k

abbrev pub is_reload : Modifiers → Keysym → Bool
is_reload m terminate_server = true
is_reload m backspace = m.ctrl && m.alt
is_reload m k = false

-- reload_key: nothing without a command.
abbrev pub reload_key : Host → Server → Server
reload_key h s = if h.reload_command then log_effect ran_reload s else s

-- One round of handle_reserved_key after the volume keys, with what the rounds after it give.
unfoldable pub reserved_lock_key :
    Host → Modifiers → Keysym → Server → Server × Bool → Server × Bool
reserved_lock_key h m k s rest =
    if win_l m k
    then (lock_engage h s, true)
    else if is_reload m k && not s.lock.locked && not s.lock.secure && not s.lock.sas
    then (reload_key h s, true)
    else if is_sas m k
    then ((lock_sas_engage h s).0, true)
    else rest

-- One round.
unfoldable pub reserved_key : Host → Modifiers → Keysym → Server → Server × Bool → Server × Bool
reserved_key h m raise_volume s rest = (log_effect (stepped_volume volume_up) s, true)
reserved_key h m lower_volume s rest = (log_effect (stepped_volume volume_down) s, true)
reserved_key h m mute_volume s rest = (log_effect (stepped_volume mute_toggle) s, true)
reserved_key h m k s rest = reserved_lock_key h m k s rest

-- handle_reserved_key: the first symbol that is reserved.
unfoldable pub handle_reserved_key : Host → Modifiers → List Keysym → Server → Server × Bool
unfolding reserved_key
handle_reserved_key h m [] s = (s, false)
handle_reserved_key h m (k ∷ ks) s = reserved_key h m k s (handle_reserved_key h m ks s)
