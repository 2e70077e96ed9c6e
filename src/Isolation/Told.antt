-- ===== src/Isolation/Told.antt =====
-- lock_session_update and notify_watchers (lock.c): what they leave alone, and what was told.
use mathlib.Core.Bool.{xor}
use sg_compositor.Prelude.{Bool, false, [], arith, ◌≡◌, ◌∙◌, is_some, ap}
use sg_compositor.World.{Server, Host, WatchEvent}
use sg_compositor.Lock.Watchers.{
  send_watchers, session_locked, tell_remote, tell_locked, tell_shadow, lock_session_update,
  notify_watchers,
}

-- The state less the watchers, what they were told, and the log.
abbrev pub beside_watchers : Server → Server
beside_watchers s = record s {
  lock = record (s.lock) {
    watchers = [];
    session_watchers = [];
    told_locked = false;
    told_remote = false;
    told_shadow = false;
  };
  log = [];
}

tell_remote-beside : (h : Host) (s : Server) → beside_watchers (tell_remote h s) ≡ beside_watchers s
unfolding tell_remote
tell_remote-beside h s = ground arith

tell_locked-beside :
    (h : Host) (l : Bool) (s : Server) → beside_watchers (tell_locked h l s) ≡ beside_watchers s
unfolding tell_locked
tell_locked-beside h l s = ground arith

tell_shadow-beside : (h : Host) (s : Server) → beside_watchers (tell_shadow h s) ≡ beside_watchers s
unfolding tell_shadow
tell_shadow-beside h s = ground arith

pub lock_session_update-beside :
    (h : Host) (s : Server) → beside_watchers (lock_session_update h s) ≡ beside_watchers s
unfolding lock_session_update
lock_session_update-beside h s =
    tell_shadow-beside h _ ∙ tell_locked-beside h _ _ ∙ tell_remote-beside h s

pub notify_watchers-beside :
    (h : Host) (e : WatchEvent) (s : Server)
    → beside_watchers (notify_watchers h e s) ≡ beside_watchers s
unfolding notify_watchers send_watchers
notify_watchers-beside h e s = lock_session_update-beside h _

-- The session's programs know whether the session is locked, taken and viewed.
pub record Told (s : Server) : Type 0 where
  pub locked : s.lock.told_locked ≡ session_locked s.lock
  pub remote : s.lock.told_remote ≡ s.remote
  pub shadow : s.lock.told_shadow ≡ is_some s.shadow_client

tell_remote_told : (h : Host) (s : Server) → (tell_remote h s).lock.told_remote ≡ s.remote
unfolding tell_remote xor
tell_remote_told h s = ground arith

-- After lock_session_update what the session's programs were told, whatever it was before, is
-- whether the session is locked, taken by Remote Desktop and viewed.
pub lock_session_update-Told : (h : Host) (s : Server) → Told (lock_session_update h s)
unfolding lock_session_update tell_remote tell_locked tell_shadow session_locked xor
lock_session_update-Told h s = ground arith

pub notify_watchers-Told : (h : Host) (e : WatchEvent) (s : Server) → Told (notify_watchers h e s)
unfolding notify_watchers
notify_watchers-Told h e s = lock_session_update-Told h _

tell_remote_silent : (h : Host) (s : Server) → s.lock.told_remote ≡ s.remote → tell_remote h s ≡ s
unfolding tell_remote xor
tell_remote_silent h s e = ground (arith, e)

tell_locked_silent :
    (h : Host) (l : Bool) (s : Server) → s.lock.told_locked ≡ l → tell_locked h l s ≡ s
unfolding tell_locked xor
tell_locked_silent h l s e = ground (arith, e)

tell_shadow_silent :
    (h : Host) (s : Server) → s.lock.told_shadow ≡ is_some s.shadow_client → tell_shadow h s ≡ s
unfolding tell_shadow xor
tell_shadow_silent h s e = ground (arith, e)

-- Where the session's programs were told how the session is, lock_session_update sends nothing
-- and changes nothing.
pub lock_session_update-silent : (h : Host) (s : Server) → Told s → lock_session_update h s ≡ s
unfolding lock_session_update
lock_session_update-silent h s k =
    ap (λ t. tell_shadow h (tell_locked h (session_locked s.lock) t))
      (tell_remote_silent h s k.remote)
    ∙ ap (tell_shadow h) (tell_locked_silent h (session_locked s.lock) s k.locked)
    ∙ tell_shadow_silent h s k.shadow
