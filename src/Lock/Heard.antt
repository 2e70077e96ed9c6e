-- ===== src/Lock/Heard.antt =====
-- lock.c: what a program that follows a SESSION connection knows.
use mathlib.Core.Bool.{xor}
use sg_compositor.Prelude.{
  ℕ, Bool, true, false, List, [], ◌∷◌, arith, ◌≡◌, refl, ap, ◌∙◌, ◌==◌, if◌then◌else◌, any, keep,
  is_some, if_cases, ==_iff,
}
use sg_compositor.World.{
  Lock, Server, Host, session, SessionEvent, lock_event, unlock_event, remote_connect,
  remote_disconnect, shadow_start, shadow_end, Effect, sent, closed,
}
use sg_compositor.Isolation.Told.{
  beside_watchers, Told, lock_session_update-Told, lock_session_update-beside,
}
use sg_compositor.Lock.Watchers.{
  send_log, send_session_watchers, session_locked, tell_remote, tell_locked, tell_shadow,
  lock_session_update,
}

-- What the greeting says, and each event after it.
pub record Heard : Type 0 where
  pub locked : Bool
  pub remote : Bool
  pub shadow : Bool

abbrev pub hear : SessionEvent → Heard → Heard
hear lock_event k = record k { locked = true }
hear unlock_event k = record k { locked = false }
hear remote_connect k = record k { remote = true }
hear remote_disconnect k = record k { remote = false }
hear shadow_start k = record k { shadow = true }
hear shadow_end k = record k { shadow = false }

-- The events sent on a connection, from what its program knew first.
unfoldable pub heard : ℕ → Heard → List Effect → Heard
heard fd k [] = k
heard fd k (sent w (session e) ∷ log) = if w == fd then hear e (heard fd k log) else heard fd k log
heard fd k (e ∷ log) = heard fd k log

abbrev pub told : Lock → Heard
told l = record { locked = l.told_locked; remote = l.told_remote; shadow = l.told_shadow }

hear_twice : (e : SessionEvent) (k : Heard) → hear e (hear e k) ≡ hear e k
hear_twice lock_event k = refl
hear_twice unlock_event k = refl
hear_twice remote_connect k = refl
hear_twice remote_disconnect k = refl
hear_twice shadow_start k = refl
hear_twice shadow_end k = refl

module _ (h : Host) (fd : ℕ) (k : Heard)
    (ok : (e : SessionEvent) → h.send_ok fd (session e) ≡ true) where
  -- One message more, to this connection or another.
  heard-sent :
      (e : SessionEvent) (w : ℕ) (log : List Effect)
      → heard fd k (if h.send_ok w (session e) then sent w (session e) ∷ log else closed w ∷ log)
        ≡ (if w == fd then hear e (heard fd k log) else heard fd k log)
  unfolding heard
  heard-sent e w log = ground (arith, ok e, ==_iff w fd)

  heard-send_log :
      (e : SessionEvent) (ws : List ℕ) (log : List Effect)
      → heard fd k (send_log h (session e) ws log)
        ≡ (if any (λ w. w == fd) ws then hear e (heard fd k log) else heard fd k log)
  unfolding send_log
  heard-send_log e [] log = refl
  heard-send_log e (w ∷ ws) log = ground (
    arith,
    heard-send_log e ws
        (if h.send_ok w (session e) then sent w (session e) ∷ log else closed w ∷ log),
    heard-sent e w log,
    hear_twice e (heard fd k log),
  )

  any-keep :
      (e : SessionEvent) (ws : List ℕ)
      → any (λ w. w == fd) (keep (λ w. h.send_ok w (session e)) ws) ≡ any (λ w. w == fd) ws
  any-keep e [] = refl
  any-keep e (w ∷ ws) = ground (arith, ok e, ==_iff w fd, any-keep e ws)

  -- A program that heard everything so far, and is still connected.
  record Follows (s : Server) : Type 0 where
    connected : any (λ w. w == fd) s.lock.session_watchers ≡ true
    knows : heard fd k s.log ≡ told s.lock

  send-Follows :
      (e : SessionEvent) (s t : Server)
      → Follows s
      → t.lock.session_watchers ≡ s.lock.session_watchers
      → t.log ≡ s.log
      → told t.lock ≡ hear e (told s.lock)
      → Follows (send_session_watchers h e t)
  unfolding send_session_watchers
  send-Follows e s t f ws log new = record {
    connected = any-keep e t.lock.session_watchers ∙ ap (any (λ w. w == fd)) ws ∙ f.connected;
    knows =
        heard-send_log e t.lock.session_watchers t.log
        ∙ ground (
          arith,
          ws,
          log,
          f.connected,
          f.knows,
          new,
          ap (any (λ w. w == fd)) ws,
          ap (heard fd k) log,
        );
  }

  tell_remote-Follows : (s : Server) → Follows s → Follows (tell_remote h s)
  unfolding tell_remote xor
  tell_remote-Follows s f =
      if_cases Follows (xor s.remote s.lock.told_remote)
        (λ _.
          send-Follows (if s.remote then remote_connect else remote_disconnect) s _ f refl refl
            (ground arith))
        (λ _. f)

  tell_locked-Follows : (l : Bool) (s : Server) → Follows s → Follows (tell_locked h l s)
  unfolding tell_locked xor
  tell_locked-Follows l s f =
      if_cases Follows (xor l s.lock.told_locked)
        (λ _. send-Follows (if l then lock_event else unlock_event) s _ f refl refl (ground arith))
        (λ _. f)

  tell_shadow-Follows : (s : Server) → Follows s → Follows (tell_shadow h s)
  unfolding tell_shadow xor
  tell_shadow-Follows s f =
      if_cases Follows (xor (is_some s.shadow_client) s.lock.told_shadow)
        (λ _.
          send-Follows (if is_some s.shadow_client then shadow_start else shadow_end) s _ f refl
            refl (ground arith))
        (λ _. f)

  lock_session_update-Follows : (s : Server) → Follows s → Follows (lock_session_update h s)
  unfolding lock_session_update
  lock_session_update-Follows s f =
      tell_shadow-Follows _ (tell_locked-Follows _ _ (tell_remote-Follows s f))

-- How the session is.
abbrev pub session_state : Server → Heard
session_state s = record {
  locked = session_locked s.lock;
  remote = s.remote;
  shadow = is_some s.shadow_client;
}

told-session_state : (s : Server) → Told s → told s.lock ≡ session_state s
told-session_state s t = ground (arith, t.locked, t.remote, t.shadow)

session_state-beside :
    (s t : Server) → beside_watchers t ≡ beside_watchers s → session_state t ≡ session_state s
unfolding session_locked
session_state-beside s t e = ap session_state e

-- A program that follows a SESSION connection, on which sending works, and that knows by its
-- events what the lock's state says it was told, knows after lock_session_update by its events
-- how the session is: locked, taken by Remote Desktop, viewed.
pub lock_session_update-heard :
    (h : Host) (fd : ℕ) (k : Heard) (s : Server)
    → ((e : SessionEvent) → h.send_ok fd (session e) ≡ true)
    → any (λ w. w == fd) s.lock.session_watchers ≡ true
    → heard fd k s.log ≡ told s.lock
    → heard fd k (lock_session_update h s).log ≡ session_state s
lock_session_update-heard h fd k s ok connected knows =
    (lock_session_update-Follows h fd k ok s
      (record { connected = connected; knows = knows })).knows
    ∙ told-session_state (lock_session_update h s) (lock_session_update-Told h s)
    ∙ session_state-beside s (lock_session_update h s) (lock_session_update-beside h s)
