-- ===== src/Examples/Parts.antt =====
-- The theorems on the lock, its watchers and its clients, on concrete values.
use sg_compositor.Prelude.{arith, ℕ, true, false, [], ◌∷◌, none, some, ◌≡◌, refl, ◌⊎◌}
use sg_compositor.World.{Server, cancel, log_effect, closed}
use sg_compositor.Lock.Watchers.{session_locked}
use sg_compositor.Lock.Engage.{lock_engage, lock_release, lock_secure_release, lock_sas_action}
use sg_compositor.Remote.Clients.{handle_lock_connection}
use sg_compositor.Remote.Session.{remote_detach, client_destroyed}
use sg_compositor.Control.Socket.{handle_control_connection, local_command}
use sg_compositor.Keys.Events.{handle_key_event}
use sg_compositor.Isolation.Invariant.{IsSound, IsIsolated}
use sg_compositor.Isolation.Upgrade.{
  Opened, lock_engage-session_locked, lock_engage-not_released, remote_detach-session_locked,
  lock_release-Opened,
}
use sg_compositor.Authority.Barred.{IsBarred}
use sg_compositor.Authority.Clients.{client_destroyed-IsBarred}
use sg_compositor.Authority.Socket.{handle_control_connection-refused}
use sg_compositor.Authority.Keys.{handle_key_event-IsBarred}
use sg_compositor.Remote.Admission.{has_authority, handle_lock_connection-privileged}
use sg_compositor.System.Events.{started, lock_init}
use sg_compositor.System.Soundness.{Reachable-IsSound}
use sg_compositor.Examples.Scene.{
  sas_key, host, startup, running, guarded, guarded-Reachable, running-Reachable, guarded_locked,
  guarded_stranger, bar, guarded-IsBarred,
}

guarded-IsSound : IsSound none guarded
guarded-IsSound = Reachable-IsSound guarded guarded-Reachable

running-IsSound : IsSound none running
running-IsSound = Reachable-IsSound running running-Reachable

lock_engage-session_locked_example : session_locked (lock_engage host running).lock ≡ true
lock_engage-session_locked_example =
    lock_engage-session_locked host running running-IsSound.isolated

lock_engage-not_released_example :
    (lock_secure_release host (lock_engage host running) ≡ lock_engage host running)
    × (lock_sas_action host cancel (lock_engage host running) ≡ (lock_engage host running, false))
lock_engage-not_released_example =
    lock_engage-not_released host host cancel running running-IsSound.isolated

-- The session as Remote Desktop has it.
abbrev taken : Server
taken = record (started startup) { remote = true; remote_output = some 50; remote_client = some 9 }

taken-IsIsolated : IsIsolated none taken
unfolding started lock_init
taken-IsIsolated = record {
  confined = λ l. absurd (ground (arith, l));
  hidden = λ l _. absurd (ground (arith, l));
  dimmed = λ _. refl;
  secure_locked = λ e. e;
  sas_locked = λ e. e;
  one_reason = λ _. refl;
}

remote_detach-session_locked_example : session_locked (remote_detach host taken).lock ≡ true
remote_detach-session_locked_example = remote_detach-session_locked host taken taken-IsIsolated refl

lock_release-Opened_example : Opened (lock_release host guarded)
lock_release-Opened_example = lock_release-Opened host guarded guarded_locked

handle_control_connection-refused_example :
    IsBarred bar (handle_control_connection host 8 (some 1000) (3 ∷ []) local_command guarded)
handle_control_connection-refused_example =
    handle_control_connection-refused bar host 8 1000 (3 ∷ []) local_command guarded
      guarded_stranger guarded-IsBarred

handle_key_event-IsBarred_example : IsBarred bar (handle_key_event host sas_key guarded)
handle_key_event-IsBarred_example = handle_key_event-IsBarred host sas_key guarded guarded-IsBarred

-- The lock service goes, and its screen with it.
client_destroyed-IsBarred_example : IsBarred bar (client_destroyed host 105 guarded)
client_destroyed-IsBarred_example = client_destroyed-IsBarred host 105 guarded guarded-IsBarred

handle_lock_connection-privileged_example :
    ((has_authority guarded.lock (some 990) ≡ false)
      × (handle_lock_connection host 6 (some 990) guarded ≡ log_effect (closed 6) guarded))
    ⊎ ((has_authority guarded.lock (some 990) ≡ true)
        × (((handle_lock_connection host 6 (some 990) guarded).lock ≡ guarded.lock)
            ⊎ ((c : ℕ) × (host.client_create 6 ≡ some c)
                × ((handle_lock_connection host 6 (some 990) guarded).lock.privileged
                    ≡ c ∷ guarded.lock.privileged))))
handle_lock_connection-privileged_example =
    handle_lock_connection-privileged host 6 (some 990) guarded
