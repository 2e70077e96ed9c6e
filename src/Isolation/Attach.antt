-- ===== src/Isolation/Attach.antt =====
-- The isolation and SHADOW, REMOTE and the requests on a window (lock.c).
use sg_compositor.Prelude.{ℕ, Bool, true, false, not, Option, none, some, is_some, if_cases}
use sg_compositor.World.{Server, Host, ok, err_no_such_window}
use sg_compositor.Lock.Access.{uid_may_unlock}
use sg_compositor.Remote.Shadow.{shadow_attach}
use sg_compositor.Control.Requests.{control_window, control_elevated_window}
use sg_compositor.Control.Session.{
  control_shadow, control_remote, shadow_given, shadow_outcome, attach_outcome, adopted_outcome,
  adopt_passed,
}
use sg_compositor.Isolation.Invariant.{IsSound}
use sg_compositor.Isolation.Engage.{SoundResult}
use sg_compositor.Isolation.Clients.{shadow_attach-IsSound}
use sg_compositor.Isolation.Remote.{remote_attach-IsSound, adopt_remote_client-IsSound}
use sg_compositor.Isolation.Control.{
  SoundReply, SoundOutcome, for_the_session-IsSound, done_or-IsSound,
}

shadow_outcome-IsSound :
    (control : Bool) (r : Server × Bool)
    → SoundResult none r
    → SoundOutcome (shadow_outcome control r)
unfolding shadow_outcome
shadow_outcome-IsSound control (s, done) k = k

shadow_given-IsSound :
    (h : Host) (control : Bool) (passed : Option ℕ) (s : Server)
    → IsSound none s
    → SoundOutcome (shadow_given h control passed s)
unfolding shadow_given
shadow_given-IsSound h control none s k = k
shadow_given-IsSound h control (some f) s k =
    shadow_outcome-IsSound control (shadow_attach h f control s)
      (shadow_attach-IsSound h f control s k)

pub control_shadow-IsSound :
    (h : Host) (u : ℕ) (control : Bool) (passed : Option ℕ) (s : Server)
    → IsSound none s
    → SoundOutcome (control_shadow h u control passed s)
unfolding control_shadow
control_shadow-IsSound h u control passed s k =
    if_cases SoundOutcome (not (uid_may_unlock s.lock u)) (λ _. k)
      (λ _. shadow_given-IsSound h control passed s k)

attach_outcome-IsSound :
    (passed : Option ℕ) (r : Server × Bool)
    → SoundResult none r
    → SoundOutcome (attach_outcome passed r)
unfolding attach_outcome
attach_outcome-IsSound passed (s, true) k = k
attach_outcome-IsSound passed (s, false) k = k

adopted_outcome-IsSound :
    (h : Host) (passed : Option ℕ) (r : Server × Bool)
    → SoundResult none r
    → SoundOutcome (adopted_outcome h passed r)
unfolding adopted_outcome
adopted_outcome-IsSound h passed (s, true) k =
    attach_outcome-IsSound passed _ (remote_attach-IsSound h s k)
adopted_outcome-IsSound h passed (s, false) k = k

adopt_passed-IsSound :
    (h : Host) (passed : Option ℕ) (s : Server)
    → IsSound none s
    → SoundResult none (adopt_passed h passed s)
unfolding adopt_passed
adopt_passed-IsSound h none s k = k
adopt_passed-IsSound h (some f) s k = adopt_remote_client-IsSound h f s k

pub control_remote-IsSound :
    (h : Host) (u : ℕ) (passed : Option ℕ) (s : Server)
    → IsSound none s
    → SoundOutcome (control_remote h u passed s)
unfolding control_remote
control_remote-IsSound h u passed s k =
    if_cases SoundOutcome (not (uid_may_unlock s.lock u)) (λ _. k)
      λ _.
        if_cases SoundOutcome (is_some s.shadow_client) (λ _. k)
          (λ _. adopted_outcome-IsSound h passed _ (adopt_passed-IsSound h passed s k))

pub control_window-IsSound :
    (h : Host) (u : ℕ) (w : Option ℕ) (act : ℕ → Server → Server × Bool) (s : Server)
    → ((w : ℕ) → SoundResult none (act w s))
    → IsSound none s
    → SoundReply (control_window h u w act s)
unfolding control_window
control_window-IsSound h u none act s keeps k = for_the_session-IsSound h u s _ k k
control_window-IsSound h u (some w) act s keeps k =
    for_the_session-IsSound h u s _ k (done_or-IsSound ok err_no_such_window (act w s) (keeps w))

pub control_elevated_window-IsSound :
    (h : Host) (u : ℕ) (w : Option (ℕ × ℕ)) (act : ℕ → ℕ → Server → Server × Bool) (s : Server)
    → ((i w : ℕ) → SoundResult none (act i w s))
    → IsSound none s
    → SoundReply (control_elevated_window h u w act s)
unfolding control_elevated_window
control_elevated_window-IsSound h u none act s keeps k = for_the_session-IsSound h u s _ k k
control_elevated_window-IsSound h u (some (i, w)) act s keeps k =
    for_the_session-IsSound h u s _ k
      (done_or-IsSound ok err_no_such_window (act i w s) (keeps i w))
