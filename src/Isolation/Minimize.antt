-- ===== src/Isolation/Minimize.antt =====
-- The isolation and windows that are minimised, restored and activated (elevated.c, session_x11.c,
-- wayland_app.c).
use sg_compositor.Prelude.{
  ℕ, true, not, ◌||◌, List, [], ◌∷◌, map, Option, some, arith, ◌≡◌, refl, ◌∙◌, if◌then◌else◌, ◌==◌,
  if_cases,
}
use sg_compositor.World.{View, Server, Host, same_id, update_view, view_set_visible}
use sg_compositor.Lock.Access.{lock_view_is_privileged, lock_view_allowed}
use sg_compositor.Windows.Minimize.{
  elevated_focus_session, minimized_view, hide_minimized, minimize_view, view_minimize,
  x11_minimize, wayland_app_minimize, restored_view, view_restore, activate_view,
}
use sg_compositor.Isolation.Views.{focus_in-map, Covers, AllCovered}
use sg_compositor.Isolation.Invariant.{
  excused, IsSound, IsIsolated-beside_focus, Told-beside_focus, seat_set_focus-IsSound,
  log_effect-IsSound,
}
use sg_compositor.Isolation.Engage.{focus_first-IsSound}

-- Writing to one view, in a way that changes neither who it is, nor its client, nor shows what may
-- not be shown.
module _ (g : Option ℕ) (s : Server) (i : ℕ) (f : View → View) (same : (v : View) → (f v).id ≡ v.id)
    (keeps : (v : View) → excused g s.lock (f v) ≡ excused g s.lock v)
    (covers : s.lock.locked ≡ true
      → (v : View) → Covers (excused g s.lock) v
      → Covers (excused g s.lock) (f v))
    (grab : Option ℕ) where
  written : View → View
  written v = if v.id == i then f v else v

  written-id : (v : View) → (written v).id ≡ v.id
  unfolding written
  written-id v = ground (arith, same v)

  privilege-written : (v : View) → excused g s.lock (written v) ≡ excused g s.lock v
  unfolding written
  privilege-written v = ground (arith, keeps v)

  written-Covers :
      s.lock.locked ≡ true
      → (vs : List View) → AllCovered (excused g s.lock) vs
      → AllCovered (excused g s.lock) (map written vs)
  unfolding written
  written-Covers l [] c = tt
  written-Covers l (v ∷ vs) c = (
    if_cases (Covers (excused g s.lock)) (v.id == i) (λ _. covers l v c.0) (λ _. c.0),
    written-Covers l vs c.1,
  )

  pub update_view-IsSound :
      IsSound g s → IsSound g (record s { views = update_view i f s.views; grab_view = grab })
  unfolding written
  update_view-IsSound k = record {
    isolated =
        IsIsolated-beside_focus s _ refl
          (λ l. record {
            keyboard = λ n.
                focus_in-map _ written s.keyboard_focus s.views written-id privilege-written
                ∙ (k.isolated.confined l).keyboard n;
            pointer =
                focus_in-map _ written s.pointer_focus s.views written-id privilege-written
                ∙ (k.isolated.confined l).pointer;
          })
          (λ l n. written-Covers l s.views (k.isolated.hidden l n)) k.isolated;
    told = Told-beside_focus s _ refl k.told;
  }

hide_minimized-IsSound :
    {g : Option ℕ} (v : View) (s : Server) → IsSound g s → IsSound g (hide_minimized v s)
unfolding hide_minimized view_set_visible lock_view_is_privileged excused
hide_minimized-IsSound {g} v s k =
    update_view-IsSound g s v.id minimized_view (λ w. ground arith) (λ w. ground arith)
      (λ l w c shown. ground arith) _ k

pub elevated_focus_session-IsSound :
    {g : Option ℕ} (h : Host) (s : Server) → IsSound g s → IsSound g (elevated_focus_session h s)
unfolding elevated_focus_session
elevated_focus_session-IsSound {g} h s k = focus_first-IsSound h _ s k

minimize_view-IsSound :
    {g : Option ℕ} (h : Host) (v : View) (s : Server)
    → IsSound g s
    → IsSound g (minimize_view h v s)
unfolding minimize_view
minimize_view-IsSound {g} h v s k =
    let t = hide_minimized-IsSound v s k in
    if_cases (IsSound g) (same_id s.keyboard_focus (some v.id))
      (λ _. elevated_focus_session-IsSound h _ t) (λ _. t)

pub view_minimize-IsSound :
    {g : Option ℕ} (h : Host) (v : View) (s : Server)
    → IsSound g s
    → IsSound g (view_minimize h v s)
unfolding view_minimize
view_minimize-IsSound {g} h v s k =
    if_cases (IsSound g) (v.minimized || not v.has_tree) (λ _. k)
      (λ _. minimize_view-IsSound h v s k)

pub x11_minimize-IsSound :
    {g : Option ℕ} (h : Host) (v : View) (s : Server) → IsSound g s → IsSound g (x11_minimize h v s)
unfolding x11_minimize
x11_minimize-IsSound {g} h v s k =
    if_cases (IsSound g) v.minimized (λ _. k) (λ _. minimize_view-IsSound h v s k)

pub wayland_app_minimize-IsSound :
    {g : Option ℕ} (h : Host) (v : View) (s : Server)
    → IsSound g s
    → IsSound g (wayland_app_minimize h v s)
unfolding wayland_app_minimize
wayland_app_minimize-IsSound {g} h v s k =
    let t = hide_minimized-IsSound v s k in
    if_cases (IsSound g) v.minimized (λ _. k)
      λ _.
        if_cases (IsSound g) (same_id s.keyboard_focus (some v.id))
          (λ _. elevated_focus_session-IsSound h _ (log_effect-IsSound _ _ t)) (λ _. t)

-- A window brought back while locked is shown only if it is privileged.
pub view_restore-IsSound :
    {g : Option ℕ} (v : View) (s : Server) → IsSound g s → IsSound g (view_restore v s)
unfolding view_restore view_set_visible lock_view_is_privileged lock_view_allowed excused
view_restore-IsSound {g} v s k =
    if_cases (IsSound g) (not v.minimized) (λ _. k)
      λ _.
        update_view-IsSound g s v.id (restored_view s) (λ w. ground arith) (λ w. ground arith)
          (λ l w c shown. ground arith) s.grab_view k

pub activate_view-IsSound :
    {g : Option ℕ} (h : Host) (v : View) (s : Server)
    → IsSound g s
    → IsSound g (activate_view h v s)
unfolding activate_view
activate_view-IsSound {g} h v s k = seat_set_focus-IsSound h v.id _ (view_restore-IsSound v s k)
