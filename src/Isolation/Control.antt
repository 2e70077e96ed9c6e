-- ===== src/Isolation/Control.antt =====
-- The isolation and the requests of the control socket (lock.c), one by one.
use sg_compositor.Prelude.{ℕ, Bool, not, ◌||◌, List, Option, none, refl, if_cases}
use sg_compositor.World.{Server, Host, Reply, reply, ok_inhibited}
use sg_compositor.Lock.Access.{uid_may_unlock, uid_may_lock}
use sg_compositor.Lock.Watchers.{session_locked}
use sg_compositor.Idle.{idle_inhibit_v1_check_active, handle_inhibit_event}
use sg_compositor.Control.Requests.{for_the_machine, for_the_session, done_or}
use sg_compositor.Control.Connections.{
  Outcome, answered, kept, watcher_free, handle_watcher_event, greet, greet_inhibitor,
  control_watch, control_session, control_inhibit,
}
use sg_compositor.Control.Socket.{answer}
use sg_compositor.Isolation.Invariant.{IsSound, IsIsolated-screen, log_effect-IsSound}
use sg_compositor.Isolation.Engage.{SoundResult}

abbrev pub SoundReply : Server × Reply → Type 0
SoundReply r = IsSound none (r.0)

abbrev pub SoundOutcome : Outcome → Type 0
SoundOutcome (answered s passed r) = IsSound none s
SoundOutcome (kept s) = IsSound none s

pub for_the_machine-IsSound :
    (u : ℕ) (s : Server) (r : Server × Reply)
    → IsSound none s
    → SoundReply r
    → SoundReply (for_the_machine u s r)
unfolding for_the_machine
for_the_machine-IsSound u s r k done =
    if_cases SoundReply (uid_may_unlock s.lock u) (λ _. done) (λ _. k)

pub for_the_session-IsSound :
    (h : Host) (u : ℕ) (s : Server) (r : Server × Reply)
    → IsSound none s
    → SoundReply r
    → SoundReply (for_the_session h u s r)
unfolding for_the_session
for_the_session-IsSound h u s r k done =
    if_cases SoundReply (uid_may_lock h s.lock u) (λ _. done) (λ _. k)

pub done_or-IsSound :
    (a b : Reply) (r : Server × Bool) → SoundResult none r → SoundReply (done_or a b r)
done_or-IsSound a b (s, done) k = k

pub answer-IsSound :
    (passed : Option ℕ) (r : Server × Reply) → SoundReply r → SoundOutcome (answer passed r)
answer-IsSound passed (s, r) k = k

-- The connections' lists, the inhibitors and the log are beside the invariant.
put_watchers-IsSound :
    (ws ss : List ℕ) (s : Server)
    → IsSound none s
    → IsSound none (record s { lock = record (s.lock) { watchers = ws; session_watchers = ss } })
unfolding session_locked
put_watchers-IsSound ws ss s k = record {
  isolated = IsIsolated-screen s _ refl k.isolated;
  told = record { locked = k.told.locked; remote = k.told.remote; shadow = k.told.shadow };
}

pub put_inhibitors-IsSound :
    (i c : ℕ) (on : Bool) (s : Server)
    → IsSound none s
    → IsSound none (record s { inhibitors = i; control_inhibitors = c; idle_inhibited = on })
put_inhibitors-IsSound i c on s k = record {
  isolated = IsIsolated-screen s _ refl k.isolated;
  told = record { locked = k.told.locked; remote = k.told.remote; shadow = k.told.shadow };
}

pub handle_watcher_event-IsSound :
    (fd : ℕ) (s : Server) → IsSound none s → IsSound none (handle_watcher_event fd s)
unfolding handle_watcher_event watcher_free
handle_watcher_event-IsSound fd s k = put_watchers-IsSound _ _ _ (log_effect-IsSound _ s k)

pub handle_inhibit_event-IsSound :
    (fd : ℕ) (s : Server) → IsSound none s → IsSound none (handle_inhibit_event fd s)
unfolding handle_inhibit_event idle_inhibit_v1_check_active
handle_inhibit_event-IsSound fd s k = put_inhibitors-IsSound _ _ _ _ (log_effect-IsSound _ s k)

greet-IsSound :
    (h : Host) (fd : ℕ) (r : Reply) (s : Server) → IsSound none s → IsSound none (greet h fd r s)
unfolding greet watcher_free
greet-IsSound h fd r s k =
    if_cases (IsSound none) (h.send_ok fd (reply r)) (λ _. log_effect-IsSound _ s k)
      (λ _. put_watchers-IsSound _ _ _ (log_effect-IsSound _ s k))

pub control_watch-IsSound :
    (h : Host) (u fd : ℕ) (passed : Option ℕ) (s : Server)
    → IsSound none s
    → SoundOutcome (control_watch h u fd passed s)
unfolding control_watch
control_watch-IsSound h u fd passed s k =
    if_cases SoundOutcome (not (uid_may_unlock s.lock u) || not h.calloc_ok) (λ _. k)
      (λ _. greet-IsSound h fd _ _ (put_watchers-IsSound _ _ s k))

pub control_session-IsSound :
    (h : Host) (u fd : ℕ) (passed : Option ℕ) (s : Server)
    → IsSound none s
    → SoundOutcome (control_session h u fd passed s)
unfolding control_session
control_session-IsSound h u fd passed s k =
    if_cases SoundOutcome (not (uid_may_lock h s.lock u) || not h.calloc_ok) (λ _. k)
      (λ _. greet-IsSound h fd _ _ (put_watchers-IsSound _ _ s k))

pub control_inhibit-IsSound :
    (h : Host) (u fd : ℕ) (passed : Option ℕ) (s : Server)
    → IsSound none s
    → SoundOutcome (control_inhibit h u fd passed s)
unfolding control_inhibit greet_inhibitor idle_inhibit_v1_check_active
control_inhibit-IsSound h u fd passed s k =
    if_cases SoundOutcome (not (uid_may_lock h s.lock u) || not h.calloc_ok) (λ _. k)
      (λ _.
        if_cases (IsSound none) (h.send_ok fd (reply ok_inhibited))
          (λ _. log_effect-IsSound _ _ (put_inhibitors-IsSound _ _ _ s k))
          (λ _. handle_inhibit_event-IsSound fd _ (put_inhibitors-IsSound _ _ _ s k)))
