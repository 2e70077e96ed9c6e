-- ===== src/Isolation/Upgrade.antt =====
-- lock.c: what a lock is after lock_engage, lock_release and remote_detach.
use sg_compositor.Prelude.{
  true, false, not, ◌&&◌, ◌||◌, List, [], ◌∷◌, map, Option, none, some, arith, ◌≡◌, refl, ◌∙◌, ap,
  All, if_cases, find,
}
use sg_compositor.World.{
  View, Server, Host, SasAction, WatchEvent, unlocked_event, view_set_visible,
}
use sg_compositor.Lock.Watchers.{session_locked, notify_watchers}
use sg_compositor.Lock.Engage.{
  conceal, set_dimmed, isolate, hide_unprivileged, focus_first, lock_engage, lock_secure_release,
  lock_sas_action, reveal, unisolate, lock_release, end_isolation, ordinary,
}
use sg_compositor.Remote.Session.{give_back, remote_detach}
use sg_compositor.Isolation.Views.{is_shown}
use sg_compositor.Isolation.Focus.{seat_set_focus-beside, seat_set_focus-All}
use sg_compositor.Isolation.Told.{notify_watchers-beside}
use sg_compositor.Isolation.Invariant.{IsIsolated, IsIsolated-screen, lock_session_update-IsSound}
use sg_compositor.Authority.Clients.{drop_client-IsBarred, drop_output-IsBarred}
use sg_compositor.Authority.Barred.{Bar, IsBarred}

-- A lock of the session's own, no prompt and not the security screen.
abbrev HasLock : Server → Type 0
HasLock s = session_locked s.lock ≡ true

notify_watchers-HasLock :
    (h : Host) (e : WatchEvent) (s : Server) → HasLock s → HasLock (notify_watchers h e s)
unfolding session_locked
notify_watchers-HasLock h e s k = ground (
  arith,
  k,
  ap (λ t. t.lock.locked) (notify_watchers-beside h e s),
  ap (λ t. t.lock.secure) (notify_watchers-beside h e s),
  ap (λ t. t.lock.sas) (notify_watchers-beside h e s),
)

focus_first-HasLock :
    (h : Host) (v : Option View) (s : Server) → HasLock s → HasLock (focus_first h v s)
focus_first-HasLock h none s k = k
focus_first-HasLock h (some v) s k =
    ap (λ t. session_locked t.lock) (seat_set_focus-beside h v.id s) ∙ k

flags-HasLock :
    (s : Server) → s.lock.locked ≡ true → s.lock.secure ≡ false → s.lock.sas ≡ false → HasLock s
unfolding session_locked
flags-HasLock s l c a = ground arith

isolate-HasLock :
    (h : Host) (e : WatchEvent) (s : Server)
    → s.lock.secure ≡ false
    → s.lock.sas ≡ false
    → HasLock (isolate h e s)
unfolding isolate conceal
isolate-HasLock h e s c a =
    let t : Server = record s { lock = record (s.lock) { locked = true } } in
    focus_first-HasLock h _ _ (notify_watchers-HasLock h e t (flags-HasLock t refl c a))

-- After lock_engage, in a state whose isolation is sound, the session is locked with no prompt
-- and no security screen, whatever was up before: nothing, a secure prompt, the security screen
-- or a lock.
pub lock_engage-session_locked :
    (h : Host) (s : Server) → IsIsolated none s → session_locked (lock_engage h s).lock ≡ true
unfolding lock_engage hide_unprivileged
lock_engage-session_locked h s i =
    if_cases HasLock (s.lock.locked && s.lock.sas)
      (λ e. notify_watchers-HasLock h _ _ (
        flags-HasLock (record s { lock = record (s.lock) { sas = false } }) (ground arith)
          (ground (arith, i.one_reason)) refl))
      λ e.
        if_cases HasLock (s.lock.locked && s.lock.secure)
          (λ f. notify_watchers-HasLock h _ _ (
            flags-HasLock
              (hide_unprivileged (record s { lock = record (s.lock) { secure = false } }))
              (ground arith) refl (ground arith)))
          λ f.
            if_cases HasLock s.lock.locked (λ l. flags-HasLock s l (ground arith) (ground arith))
              (λ n.
                isolate-HasLock h _ s (ground (arith, i.secure_locked))
                  (ground (arith, i.sas_locked)))

lock_secure_release-HasLock : (h : Host) (s : Server) → HasLock s → lock_secure_release h s ≡ s
unfolding lock_secure_release session_locked
lock_secure_release-HasLock h s k =
    if_cases (λ t. t ≡ s) (not s.lock.locked || not s.lock.secure) (λ _. refl)
      (λ e. absurd (ground (arith, k)))

lock_sas_action-HasLock :
    (h : Host) (a : SasAction) (s : Server) → HasLock s → lock_sas_action h a s ≡ (s, false)
unfolding lock_sas_action session_locked
lock_sas_action-HasLock h a s k =
    if_cases (λ t. t ≡ (s, false)) (not s.lock.locked || not s.lock.sas) (λ _. refl)
      (λ e. absurd (ground (arith, k)))

-- After lock_engage in a state whose isolation is sound, lock_secure_release changes nothing, and
-- lock_sas_action changes nothing and says no, whichever action is given.
pub lock_engage-not_released :
    (h k : Host) (a : SasAction) (s : Server)
    → IsIsolated none s
    → (lock_secure_release k (lock_engage h s) ≡ lock_engage h s)
      × (lock_sas_action k a (lock_engage h s) ≡ (lock_engage h s, false))
lock_engage-not_released h k a s i = (
  lock_secure_release-HasLock k _ (lock_engage-session_locked h s i),
  lock_sas_action-HasLock k a _ (lock_engage-session_locked h s i),
)

abbrev locked_bar : Bar
locked_bar = record { real = true; guests = none }

HasLock-IsBarred : (s : Server) → HasLock s → IsBarred locked_bar s
unfolding session_locked
HasLock-IsBarred s k = record { locked = ground (arith, k); session = λ _. k; invited = tt }

-- When Remote Desktop has the session, in a state whose isolation is sound, remote_detach leaves
-- the session locked.
pub remote_detach-session_locked :
    (h : Host) (s : Server)
    → IsIsolated none s
    → s.remote ≡ true
    → session_locked (remote_detach h s).lock ≡ true
unfolding remote_detach give_back
remote_detach-session_locked h s i taken =
    if_cases HasLock (not s.remote) (λ e. absurd (ground (arith, taken)))
      (λ _.
        (drop_client-IsBarred h s.remote_client _ (
            drop_output-IsBarred h s.remote_output _ (
              HasLock-IsBarred _ (
                lock_engage-session_locked h _
                  (lock_session_update-IsSound h _
                    (IsIsolated-screen s _ refl i)).isolated)))).session
          refl)

-- A window with a scene tree is shown unless it is minimised.
abbrev pub Visible : View → Type 0
Visible v = is_shown v ≡ v.has_tree && not v.minimized

shown_unless_minimized : (v : View) → Visible (view_set_visible (not v.minimized) v)
unfolding view_set_visible
shown_unless_minimized v = ground arith

All-Visible : (vs : List View) → All Visible (map (λ v. view_set_visible (not v.minimized) v) vs)
All-Visible [] = tt
All-Visible (v ∷ vs) = (shown_unless_minimized v, All-Visible vs)

focus_first-All :
    (P : View → Type 0) (h : Host) (v : Option View) (s : Server)
    → All P s.views
    → All P (focus_first h v s).views
focus_first-All P h none s k = k
focus_first-All P h (some v) s k = seat_set_focus-All P h v.id s k

focus_first-lock : (h : Host) (v : Option View) (s : Server) → (focus_first h v s).lock ≡ s.lock
focus_first-lock h none s = refl
focus_first-lock h (some v) s = ap (λ t. t.lock) (seat_set_focus-beside h v.id s)

-- No isolation, and every window that is not minimised in sight.
abbrev pub Opened : Server → Type 0
Opened t =
    (t.lock.locked ≡ false) × (t.lock.secure ≡ false) × (t.lock.sas ≡ false) × All Visible t.views

unisolate-Opened : (h : Host) (e : WatchEvent) (s : Server) → Opened (unisolate h e s)
unfolding unisolate reveal end_isolation set_dimmed
unisolate-Opened h e s =
    let t : Server = reveal h (notify_watchers h e (end_isolation s)) in
    let to = find (ordinary t) t.views in
    let frame = notify_watchers-beside h e (end_isolation s) in
    (
      ap (λ l. l.locked) (focus_first-lock h to t) ∙ ap (λ x. x.lock.locked) frame,
      ap (λ l. l.secure) (focus_first-lock h to t) ∙ ap (λ x. x.lock.secure) frame,
      ap (λ l. l.sas) (focus_first-lock h to t) ∙ ap (λ x. x.lock.sas) frame,
      focus_first-All Visible h to t (All-Visible (notify_watchers h e (end_isolation s)).views),
    )

-- lock_release of a locked screen ends the lock, the prompt and the security screen, and then a
-- window is shown exactly if it has a scene tree and is not minimised.
pub lock_release-Opened : (h : Host) (s : Server) → s.lock.locked ≡ true → Opened (lock_release h s)
unfolding lock_release
lock_release-Opened h s l =
    if_cases Opened (not s.lock.locked) (λ e. absurd (ground (arith, l)))
      (λ _. unisolate-Opened h unlocked_event s)
