-- ===== src/Control/Connections.antt =====
-- lock.c: the control socket's connections that stay open: WATCH, SESSION and INHIBIT.
use sg_compositor.Prelude.{ℕ, not, ◌||◌, ◌+◌, ◌∷◌, Option, ◌==◌, if◌then◌else◌, keep}
use sg_compositor.World.{
  Server, Host, reply, Reply, ok_inhibited, ok_session, err_not_permitted, sent, closed, log_effect,
}
use sg_compositor.Lock.Access.{uid_may_unlock, uid_may_lock}
use sg_compositor.Idle.{idle_inhibit_v1_check_active, handle_inhibit_event}
use sg_compositor.Control.Requests.{lock_state}

-- A request is answered, with the descriptor that is still to be disposed of, or its connection
-- stays open.
pub data Outcome : Type 0 where
  answered : Server → Option ℕ → Reply → Outcome
  kept : Server → Outcome

-- watcher_free, of the watcher or session watcher on this descriptor
unfoldable pub watcher_free : ℕ → Server → Server
watcher_free fd s = record (log_effect (closed fd) s) {
  lock = record (s.lock) {
    watchers = keep (λ w. not (w == fd)) s.lock.watchers;
    session_watchers = keep (λ w. not (w == fd)) s.lock.session_watchers;
  };
}

-- handle_watcher_event: it hung up, or wrote something.
unfoldable pub handle_watcher_event : ℕ → Server → Server
unfolding watcher_free
handle_watcher_event fd s = watcher_free fd s

-- The first reply on a watcher's connection; one that fails ends it.
unfoldable pub greet : Host → ℕ → Reply → Server → Server
unfolding watcher_free
greet h fd r s =
    if h.send_ok fd (reply r) then log_effect (sent fd (reply r)) s else watcher_free fd s

unfoldable pub control_watch : Host → ℕ → ℕ → Option ℕ → Server → Outcome
control_watch h u fd passed s =
    if not (uid_may_unlock s.lock u) || not h.calloc_ok
    then answered s passed err_not_permitted
    else kept (
        greet h fd (lock_state s)
          (record s { lock = record (s.lock) { watchers = fd ∷ s.lock.watchers } }))

unfoldable pub control_session : Host → ℕ → ℕ → Option ℕ → Server → Outcome
control_session h u fd passed s =
    if not (uid_may_lock h s.lock u) || not h.calloc_ok
    then answered s passed err_not_permitted
    else kept (
        greet h fd (ok_session s.lock.told_locked s.lock.told_remote s.lock.told_shadow)
          (record s { lock = record (s.lock) { session_watchers = fd ∷ s.lock.session_watchers } }))

-- An INHIBIT connection's reply; one that fails ends the hold.
unfoldable pub greet_inhibitor : Host → ℕ → Server → Server
greet_inhibitor h fd s =
    if h.send_ok fd (reply ok_inhibited)
    then log_effect (sent fd (reply ok_inhibited)) s
    else handle_inhibit_event fd s

unfoldable pub control_inhibit : Host → ℕ → ℕ → Option ℕ → Server → Outcome
unfolding greet_inhibitor
control_inhibit h u fd passed s =
    if not (uid_may_lock h s.lock u) || not h.calloc_ok
    then answered s passed err_not_permitted
    else kept (
        greet_inhibitor h fd (
          idle_inhibit_v1_check_active
            (record s { control_inhibitors = s.control_inhibitors + 1 })))
