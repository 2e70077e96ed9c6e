-- ===== src/Isolation/Remote.antt =====
-- The isolation and Remote Desktop and the end of a client (lock.c).
use sg_compositor.Prelude.{
  ℕ, not, ◌&&◌, ◌||◌, Option, none, some, ◌≡◌, refl, is_some, is_empty, List, keep, any, if_cases,
  Option-cases, inl, inr,
}
use sg_compositor.World.{Effect, Output, Server, Host, same_id, closed}
use sg_compositor.Lock.Watchers.{session_locked}
use sg_compositor.Outputs.{output_destroy, handle_new_output}
use sg_compositor.Remote.Session.{
  console_size, headless, take_session, remote_attach, shadow_gone, destroy_client, drop_output,
  drop_client, give_back, remote_detach, handle_remote_client_destroy, remote_gone,
  client_destroyed, adopt, adopt_remote_client, shadow_end, end_viewer,
}
use sg_compositor.Isolation.Invariant.{
  IsIsolated, IsSound, screen, IsIsolated-screen, lock_session_update-IsSound, log_effect-IsSound,
}
use sg_compositor.Isolation.Engage.{lock_engage-IsSound, SoundResult}
use sg_compositor.Isolation.Release.{lock_release-IsIsolated}
use sg_compositor.Isolation.Gone.{destroy_resources-IsSound}
use sg_compositor.Isolation.Clients.{
  privileged_destroy-IsSound, SoundClient, create_privileged-IsSound,
  handle_shadow_client_destroy-IsSound,
}

-- Outputs come and go beside what the isolation is about.
abbrev SameScreen : Server → Server → Type 0
SameScreen s t = screen t ≡ screen s

handle_new_output-screen :
    (h : Host) (o : Output) (s : Server) → SameScreen s (handle_new_output h o s)
unfolding handle_new_output
handle_new_output-screen h o s =
    if_cases (SameScreen s) (not (h.init_render_ok o.id) || not h.calloc_ok) (λ _. refl)
      (λ _. if_cases (SameScreen s) (not (h.scene_output_ok o.id)) (λ _. refl) (λ _. refl))

pub put_outputs-IsSound :
    {g : Option ℕ} (os : List Output) (log : List Effect) (s : Server)
    → IsSound g s
    → IsSound g (record s { outputs = os; log = log })
put_outputs-IsSound {g} os log s k = record {
  isolated = IsIsolated-screen s _ refl k.isolated;
  told = record { locked = k.told.locked; remote = k.told.remote; shadow = k.told.shadow };
}

no_pointer-IsSound :
    {g : Option ℕ} (s : Server) → IsSound g s → IsSound g (record s { pointer_focus = none })
no_pointer-IsSound {g} s k = record {
  isolated = record {
    confined = λ l. record { keyboard = (k.isolated.confined l).keyboard; pointer = refl };
    hidden = k.isolated.hidden;
    dimmed = k.isolated.dimmed;
    secure_locked = k.isolated.secure_locked;
    sas_locked = k.isolated.sas_locked;
    one_reason = k.isolated.one_reason;
  };
  told = record { locked = k.told.locked; remote = k.told.remote; shadow = k.told.shadow };
}

pub output_destroy-IsSound :
    {g : Option ℕ} (h : Host) (i : ℕ) (s : Server) → IsSound g s → IsSound g (output_destroy h i s)
unfolding output_destroy
output_destroy-IsSound {g} h i s k =
    if_cases (IsSound g) (is_empty (keep _ s.outputs) && any _ s.outputs)
      (λ _. put_outputs-IsSound _ _ s k)
      (λ _.
        if_cases (IsSound g) (s.output_mode_last && not (is_empty (keep _ s.outputs)))
          (λ _. put_outputs-IsSound _ _ s k) (λ _. put_outputs-IsSound _ _ s k))

take_session-IsSound :
    {g : Option ℕ} (h : Host) (o : ℕ) (s : Server) → IsIsolated g s → IsSound g (take_session h o s)
unfolding take_session
take_session-IsSound {g} h o s i = no_pointer-IsSound _ (
    lock_session_update-IsSound h _ (
      lock_release-IsIsolated h _
        (IsIsolated-screen s _ (handle_new_output-screen h (headless o) s) i)))

pub remote_attach-IsSound :
    {g : Option ℕ} (h : Host) (s : Server) → IsSound g s → SoundResult g (remote_attach h s)
unfolding remote_attach
remote_attach-IsSound {g} h s k =
    if_cases (SoundResult g) (not s.remote_backend || s.lock.secure) (λ _. k)
      λ _.
        if_cases (SoundResult g) s.remote (λ _. k)
          λ _. elim (Option-cases (h.add_output (console_size s).0 (console_size s).1)) [
            | inl failed ↦ rw failed k
            | inr (o, made) ↦ rw made (take_session-IsSound h o s k.isolated)
          ]

shadow_gone-IsSound :
    {g : Option ℕ} (h : Host) (c : ℕ) (s : Server) → IsSound g s → IsSound g (shadow_gone h c s)
unfolding shadow_gone
shadow_gone-IsSound {g} h c s k =
    if_cases (IsSound g) (same_id s.shadow_client (some c))
      (λ _. handle_shadow_client_destroy-IsSound h s k) (λ _. k)

destroy_client-IsSound :
    (h : Host) (c : ℕ) (s : Server) → IsSound none s → IsSound none (destroy_client h c s)
unfolding destroy_client
destroy_client-IsSound h c s k =
    destroy_resources-IsSound h c _
      (shadow_gone-IsSound h c _ (privileged_destroy-IsSound c _ (log_effect-IsSound _ s k)))

drop_output-IsSound :
    {g : Option ℕ} (h : Host) (o : Option ℕ) (s : Server)
    → IsSound g s
    → IsSound g (drop_output h o s)
unfolding drop_output
drop_output-IsSound {g} h none s k = k
drop_output-IsSound {g} h (some o) s k = output_destroy-IsSound h o _ (log_effect-IsSound _ s k)

drop_client-IsSound :
    (h : Host) (c : Option ℕ) (s : Server) → IsSound none s → IsSound none (drop_client h c s)
unfolding drop_client
drop_client-IsSound h none s k = k
drop_client-IsSound h (some c) s k = destroy_client-IsSound h c s k

give_back-IsSound :
    {g : Option ℕ} (h : Host) (s : Server) → IsIsolated g s → IsSound g (give_back h s)
unfolding give_back
give_back-IsSound {g} h s i =
    lock_engage-IsSound h _ (lock_session_update-IsSound h _ (IsIsolated-screen s _ refl i))

pub remote_detach-IsSound :
    (h : Host) (s : Server) → IsSound none s → IsSound none (remote_detach h s)
unfolding remote_detach
remote_detach-IsSound h s k =
    if_cases (IsSound none) (not s.remote) (λ _. k)
      (λ _.
        drop_client-IsSound h _ _ (drop_output-IsSound h _ _ (give_back-IsSound h s k.isolated)))

-- The remote client went by itself: there is none to be dropped.
handle_remote_client_destroy-IsSound :
    {g : Option ℕ} (h : Host) (s : Server)
    → IsSound g s
    → IsSound g (handle_remote_client_destroy h s)
unfolding handle_remote_client_destroy remote_detach drop_client session_locked
handle_remote_client_destroy-IsSound {g} h s k =
    if_cases (IsSound g) (not s.remote) (λ _. gone)
      (λ _. drop_output-IsSound h _ _ (give_back-IsSound h _ gone.isolated))
  where
    gone : IsSound g (record s { remote_client = none })
    gone = record {
      isolated = IsIsolated-screen s _ refl k.isolated;
      told = record { locked = k.told.locked; remote = k.told.remote; shadow = k.told.shadow };
    }

remote_gone-IsSound :
    {g : Option ℕ} (h : Host) (c : ℕ) (s : Server) → IsSound g s → IsSound g (remote_gone h c s)
unfolding remote_gone
remote_gone-IsSound {g} h c s k =
    if_cases (IsSound g) (same_id s.remote_client (some c))
      (λ _. handle_remote_client_destroy-IsSound h s k) (λ _. k)

-- Whoever disconnects: a lock screen, a viewer, Remote Desktop or a program.
pub client_destroyed-IsSound :
    (h : Host) (c : ℕ) (s : Server) → IsSound none s → IsSound none (client_destroyed h c s)
unfolding client_destroyed
client_destroyed-IsSound h c s k =
    destroy_resources-IsSound h c _
      (shadow_gone-IsSound h c _ (remote_gone-IsSound h c _ (privileged_destroy-IsSound c s k)))

adopt-IsSound : {g : Option ℕ} (r : Server × Option ℕ) → SoundClient g r → SoundResult g (adopt r)
unfolding adopt session_locked
adopt-IsSound {g} (s, none) k = k
adopt-IsSound {g} (s, some c) k = record {
  isolated = IsIsolated-screen s _ refl k.isolated;
  told = record { locked = k.told.locked; remote = k.told.remote; shadow = k.told.shadow };
}

pub adopt_remote_client-IsSound :
    {g : Option ℕ} (h : Host) (fd : ℕ) (s : Server)
    → IsSound g s
    → SoundResult g (adopt_remote_client h fd s)
unfolding adopt_remote_client
adopt_remote_client-IsSound {g} h fd s k =
    if_cases (SoundResult g) (is_some s.remote_client) (λ _. log_effect-IsSound (closed fd) s k)
      (λ _. adopt-IsSound _ (create_privileged-IsSound h fd s k))

end_viewer-IsSound :
    (h : Host) (c : Option ℕ) (s : Server) → IsSound none s → IsSound none (end_viewer h c s)
end_viewer-IsSound h none s k = k
end_viewer-IsSound h (some c) s k = client_destroyed-IsSound h c _ (log_effect-IsSound _ s k)

pub shadow_end-IsSound : (h : Host) (s : Server) → IsSound none s → IsSound none (shadow_end h s)
unfolding shadow_end
shadow_end-IsSound h s k = end_viewer-IsSound h s.shadow_client s k
