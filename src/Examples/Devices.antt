-- ===== src/Examples/Devices.antt =====
-- The theorems on globals, captures, outputs, keys and idling, on concrete values.
use sg_compositor.Prelude.{arith, true, false, [], ◌∷◌, none, some, ◌≡◌, refl, ◌⊎◌, All, List}
use sg_compositor.World.{Output, Server}
use sg_compositor.Lock.Access.{lock_client_is_privileged}
use sg_compositor.Lock.Watchers.{lock_session_update}
use sg_compositor.Lock.Globals.{
  Global, other_interface, Displays, elevated_filter_global, lock_filter_global, global_filter,
  view_only_input, elevated_global, hidden_interface,
}
use sg_compositor.Capture.{Frame, secure_now}
use sg_compositor.Capture.Secrecy.{OnlyBlack, frame_run-OnlyBlack}
use sg_compositor.Capture.Frames.{
  Buffer, Happens, copied, committed, output_destroyed, frame_run, capture,
}
use sg_compositor.Lock.Heard.{heard, told, session_state, lock_session_update-heard}
use sg_compositor.Idle.{handle_inhibit_event}
use sg_compositor.Idle.Holds.{IsCurrent, outcome_state, control_inhibit-handle_inhibit_event}
use sg_compositor.Control.Connections.{control_inhibit}
use sg_compositor.Lock.Access.{uid_may_lock}
use sg_compositor.Keys.Events.{take_key, shell_key, pass_key}
use sg_compositor.Keys.Swallowed.{pass_key-take_key}
use sg_compositor.Lock.Visibility.{OwnShell, SessionShell, global_filter-restricted}
use sg_compositor.System.Events.{started}
use sg_compositor.Examples.Scene.{
  sas_key, host, startup, running, guarded, guarded_locked, guarded_privileged,
}

-- Screen capture is global 3, for privileged clients; the public one is global 4, input is global 5.
abbrev capturing : Server
capturing = record guarded {
  lock = record (guarded.lock) {
    restricted = 3 ∷ 5 ∷ [];
    public_capture = some 4;
    input_global_0 = some 5;
  };
  shadow_client = some 77;
}

abbrev displays : Displays
displays = record { elevated = []; xwayland_shell = none; xwayland_client = none; seat_global = 1 }

abbrev screencopy : Global
screencopy = record { id = 3; name = other_interface }

screencopy_seen : global_filter displays capturing 105 screencopy ≡ true
unfolding global_filter elevated_filter_global elevated_global hidden_interface lock_filter_global
    lock_client_is_privileged
screencopy_seen = ground (arith, guarded_privileged)

global_filter-restricted_example :
    (OwnShell [] 105 3 ⊎ SessionShell displays 105 3)
    ⊎ ((lock_client_is_privileged capturing.lock 105 ≡ true)
        × (view_only_input capturing 105 3 ≡ false))
global_filter-restricted_example =
    global_filter-restricted displays capturing 105 screencopy refl screencopy_seen

abbrev frame : Frame
frame = record { writable = true; format_ok = true; width = 2; height = 1 }

abbrev monitor : Output
monitor = record {
  id = 50;
  enabled = true;
  powered_off = false;
  width = 800;
  height = 600;
  nested = false;
}

abbrev dark : Server
dark = record guarded { outputs = record monitor { enabled = false; powered_off = true } ∷ [] }

-- The session as it starts, and an INHIBIT of its user.
abbrev fresh : Server
fresh = started startup

fresh-IsCurrent : IsCurrent fresh
unfolding started
fresh-IsCurrent = refl

user_may_lock : uid_may_lock host fresh.lock 1000 ≡ true
unfolding uid_may_lock
user_may_lock = refl

control_inhibit-handle_inhibit_event_example :
    ((outcome_state (control_inhibit host 1000 8 none fresh)).idle_inhibited ≡ true)
    × ((handle_inhibit_event 8
          (outcome_state (control_inhibit host 1000 8 none fresh))).control_inhibitors
        ≡ fresh.control_inhibitors)
    × ((handle_inhibit_event 8
          (outcome_state (control_inhibit host 1000 8 none fresh))).idle_inhibited
        ≡ fresh.idle_inhibited)
control_inhibit-handle_inhibit_event_example =
    control_inhibit-handle_inhibit_event host 1000 8 none fresh fresh-IsCurrent user_may_lock refl
      refl

pass_key-take_key_example :
    pass_key sas_key (shell_key host sas_key (take_key host sas_key running))
    ≡ (take_key host sas_key running).0
pass_key-take_key_example = pass_key-take_key host sas_key running refl refl

-- A program follows connection 8 as Remote Desktop takes the session.
abbrev followed : Server
followed = record fresh {
  lock = record (fresh.lock) { session_watchers = 8 ∷ [] };
  log = [];
  remote = true;
}

heard_nothing : heard 8 (told fresh.lock) followed.log ≡ told followed.lock
unfolding heard
heard_nothing = refl

lock_session_update-heard_example :
    heard 8 (told fresh.lock) (lock_session_update host followed).log ≡ session_state followed
lock_session_update-heard_example =
    lock_session_update-heard host 8 (told fresh.lock) followed (λ e. refl) refl heard_nothing

-- A program copies twice; the second time its output goes first. The screen is locked meanwhile.
abbrev shm : Buffer
shm = record { width = 2; height = 1; writable = true; format_ok = true; stride_ok = true }

abbrev life : List Happens
life =
    copied true (some shm)
    ∷ committed guarded.lock true true (some ((1 ∷ 2 ∷ []) ∷ []))
    ∷ copied false (some shm)
    ∷ output_destroyed
    ∷ []

guarded_secured : secure_now guarded.lock ≡ true
unfolding secure_now
guarded_secured = ground (arith, guarded_locked)

frame_run-OnlyBlack_example : All OnlyBlack (frame_run life (capture 2 1)).written
frame_run-OnlyBlack_example =
    frame_run-OnlyBlack 2 1 life (refl, (guarded_secured, (refl, (refl, tt))))
