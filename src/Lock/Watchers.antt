-- ===== src/Lock/Watchers.antt =====
-- lock.c: the WATCH and SESSION connections, and what they are told.
use sg_compositor.Prelude.{ℕ, Bool, not, ◌&&◌, List, [], ◌∷◌, if◌then◌else◌, keep, is_some}
use mathlib.Core.Bool.{xor}
use sg_compositor.World.{
  Lock, Server, Host, Message, watch, session, WatchEvent, SessionEvent, lock_event, unlock_event,
  remote_connect, remote_disconnect, shadow_start, shadow_end, Effect, sent, closed,
}

-- The log after `send` to each connection of the list: one that fails is closed.
unfoldable pub send_log : Host → Message → List ℕ → List Effect → List Effect
send_log h m [] log = log
send_log h m (fd ∷ fds) log =
    send_log h m fds (if h.send_ok fd m then sent fd m ∷ log else closed fd ∷ log)

-- send_watchers, to server->lock.watchers.
unfoldable pub send_watchers : Host → WatchEvent → Server → Server
unfolding send_log
send_watchers h e s = record s {
  lock = record (s.lock) { watchers = keep (λ fd. h.send_ok fd (watch e)) s.lock.watchers };
  log = send_log h (watch e) s.lock.watchers s.log;
}

-- send_watchers, to server->lock.session_watchers.
unfoldable pub send_session_watchers : Host → SessionEvent → Server → Server
unfolding send_log
send_session_watchers h e s = record s {
  lock = record (s.lock) {
    session_watchers = keep (λ fd. h.send_ok fd (session e)) s.lock.session_watchers;
  };
  log = send_log h (session e) s.lock.session_watchers s.log;
}

-- session_locked: a secure prompt or the security screen is no lock to the session's programs.
unfoldable pub session_locked : Lock → Bool
session_locked l = l.locked && not l.secure && not l.sas

unfoldable pub tell_remote : Host → Server → Server
unfolding send_session_watchers
tell_remote h s =
    if xor s.remote s.lock.told_remote
    then send_session_watchers h (if s.remote then remote_connect else remote_disconnect)
        (record s { lock = record (s.lock) { told_remote = s.remote } })
    else s

unfoldable pub tell_locked : Host → Bool → Server → Server
unfolding send_session_watchers
tell_locked h locked s =
    if xor locked s.lock.told_locked
    then send_session_watchers h (if locked then lock_event else unlock_event)
        (record s { lock = record (s.lock) { told_locked = locked } })
    else s

unfoldable pub tell_shadow : Host → Server → Server
unfolding send_session_watchers
tell_shadow h s =
    let shadow : Bool = is_some s.shadow_client in
    if xor shadow s.lock.told_shadow
    then send_session_watchers h (if shadow then shadow_start else shadow_end)
        (record s { lock = record (s.lock) { told_shadow = shadow } })
    else s

-- Remote Desktop's coming and going first, then the lock, then the viewer.
unfoldable pub lock_session_update : Host → Server → Server
lock_session_update h s = tell_shadow h (tell_locked h (session_locked s.lock) (tell_remote h s))

unfoldable pub notify_watchers : Host → WatchEvent → Server → Server
notify_watchers h e s = lock_session_update h (send_watchers h e s)
