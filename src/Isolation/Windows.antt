-- ===== src/Isolation/Windows.antt =====
-- The isolation and view_map (view.c).
use sg_compositor.Prelude.{ℕ, Bool, true, false, ◌∷◌, Option, none, arith, ◌≡◌, refl, if_cases}
use sg_compositor.World.{Surface, View, Server, Host, find_view, view_set_visible}
use sg_compositor.Lock.Access.{lock_view_is_privileged, lock_view_allowed}
use sg_compositor.Lock.Engage.{lock_view_mapped}
use sg_compositor.Windows.Map.{unmanaged, mapped_view, view_map}
use sg_compositor.Isolation.Views.{Covers, focus_in-cons_fresh}
use sg_compositor.Isolation.Invariant.{
  excused, IsSound, IsIsolated-beside_focus, Told-beside_focus, seat_set_focus-IsSound,
}

-- A window mapped under a lock is shown only if it is privileged.
mapped_view-Covers :
    (g : Option ℕ) (s : Server) (v : View) (u : Surface)
    → s.lock.locked ≡ true
    → s.lock.secure ≡ false
    → Covers (excused g s.lock) (mapped_view s v u)
unfolding mapped_view lock_view_mapped view_set_visible lock_view_is_privileged lock_view_allowed
    excused
mapped_view-Covers g s v u l n shown = ground arith

mapped_view-id : (s : Server) (v : View) (u : Surface) → (mapped_view s v u).id ≡ v.id
unfolding mapped_view lock_view_mapped view_set_visible
mapped_view-id s v u = ground arith

put_view-IsSound :
    {g : Option ℕ} (s : Server) (v : View) (u : Surface)
    → find_view v.id s.views ≡ none
    → IsSound g s
    → IsSound g (record s { views = mapped_view s v u ∷ s.views })
put_view-IsSound {g} s v u fresh k = record {
  isolated =
      IsIsolated-beside_focus s _ refl
        (λ l. record {
          keyboard = λ n.
              focus_in-cons_fresh _ _ s.keyboard_focus s.views fresh'
                ((k.isolated.confined l).keyboard n);
          pointer =
              focus_in-cons_fresh _ _ s.pointer_focus s.views fresh'
                (k.isolated.confined l).pointer;
        })
        (λ l n. (mapped_view-Covers g s v u l n, k.isolated.hidden l n)) k.isolated;
  told = Told-beside_focus s _ refl k.told;
}
  where
    fresh' : find_view (mapped_view s v u).id s.views ≡ none
    fresh' = rw (mapped_view-id s v u) fresh

-- Mapping a window, with a pointer that no mapped window has.
pub view_map-IsSound :
    {g : Option ℕ} (h : Host) (tree : Bool) (v : View) (u : Surface) (s : Server)
    → find_view v.id s.views ≡ none
    → IsSound g s
    → IsSound g (view_map h tree v u s)
unfolding view_map
view_map-IsSound {g} h false v u s fresh k = k
view_map-IsSound {g} h true v u s fresh k =
    let t = put_view-IsSound s v u fresh k in
    if_cases (IsSound g) (unmanaged v) (λ _. t) (λ _. seat_set_focus-IsSound h v.id _ t)
