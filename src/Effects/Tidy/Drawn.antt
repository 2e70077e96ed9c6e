-- ===== src/Effects/Tidy/Drawn.antt =====
-- sg-deskcomp.c's check_direct and paint's loop keep the array tidy.
use mathlib.Core.Path.{subst⁻¹}
use sg_compositor.Prelude.{
  ℕ, ◌≤◌, ◌≡◌, refl, Bool, true, false, not, ◌&&◌, List, [], ◌∷◌, Option, none, some, arith, ◌==◌,
  if_cases, if◌then◌else◌, length, ◌∙◌, sym,
}
use sg_compositor.Effects.{anim_none, is_still, Win, Desktop}
use sg_compositor.Effects.Entries.{is_own, if_found, if_found_cases, one, count}
use sg_compositor.Effects.Handlers.{XServer, Effects, get_pictures}
use sg_compositor.Effects.Direct.{wanted, undirect, redirect, check_direct}
use sg_compositor.Effects.Painting.{
  is_ended, settled, is_drawable, Painted, paint_windows, stays, paint_windows-Whole,
}
use sg_compositor.Effects.Tidy.{is_ours, is_unfit, Tidy, Tidy-Fewer}
use sg_compositor.Effects.Tidy.Kept.{IsTidy, get_pictures-Pictured, on_own-IsTidy}

undirect-IsTidy : (k : Desktop) (x : XServer) (s : Effects) → IsTidy s → IsTidy (undirect k x s)
unfolding undirect
undirect-IsTidy k x s t =
    if_cases IsTidy (s.direct == 0) (λ _. t)
      (λ _.
        on_own-IsTidy s.direct (λ e. get_pictures x 0 (record e { managed = x.redirects s.direct }))
          s
          (λ e _.
            let p = get_pictures-Pictured x 0 (record e { managed = x.redirects s.direct }) in
            (p.0, (p.1.0, λ _. p.1.1)))
          t)

redirect-IsTidy :
    (k : Desktop) (x : XServer) (o : Option Win) (s : Effects)
    → IsTidy s
    → IsTidy (redirect k x o s)
unfolding redirect
redirect-IsTidy k x none s t = undirect-IsTidy k x s t
redirect-IsTidy k x (some e) s t =
    if_cases IsTidy (e.id == s.direct) (λ _. t)
      (λ _.
        on_own-IsTidy e.id (λ v. record v { pict = false }) (undirect k x s)
          (λ v _. (refl, (refl, λ _. ground arith))) (undirect-IsTidy k x s t))

pub check_direct-IsTidy :
    (k : Desktop) (x : XServer) (s : Effects) → IsTidy s → IsTidy (check_direct k x s)
unfolding check_direct
check_direct-IsTidy k x s t = redirect-IsTidy k x (wanted k s.wins) s t

-- The array after paint's loop: the fuel is the number of entries.
abbrev pub painted : (over : Win → Bool) → Effects → Effects
painted over s =
    if_found (paint_windows (length s.wins) over s.wins) s
      (λ (p : Painted). record s { wins = p.wins })

count_mono :
    (r q : Win → Bool) (ws : List Win)
    → ((e : Win) → one (r e) ≤ one (q e))
    → count r ws ≤ count q ws
count_mono r q [] h = omega arith
count_mono r q (e ∷ ws) h = let a = h e in let b = count_mono r q ws h in omega arith

count-painted :
    (over q : Win → Bool) (s : Effects)
    → count q (painted over s).wins ≡ count (stays over q) s.wins
count-painted over q s =
    let r = paint_windows-Whole over q (length s.wins) s.wins (omega arith) in (rw r.1.0) ∙ r.1.1.0

settled-Same :
    (over : Win → Bool) (e : Win)
    → ((settled over e).id ≡ e.id)
      × (((settled over e).ghost ≡ e.ghost) × (is_ours (settled over e) ≡ is_ours e))
settled-Same over e =
    if_cases (λ (f : Win). (f.id ≡ e.id) × ((f.ghost ≡ e.ghost) × (is_ours f ≡ is_ours e))) _
      (λ _. (refl, (refl, refl))) (λ _. (refl, (refl, refl)))

stays_own : (over : Win → Bool) (i : ℕ) (e : Win) → one (stays over (is_own i) e) ≤ one (is_own i e)
stays_own over i e =
    let s = settled-Same over e in from (settled over e) (is_ended over e) s.0 s.1.0
  where
    from :
        (f : Win) (b : Bool)
        → f.id ≡ e.id
        → f.ghost ≡ e.ghost
        → one (is_own i f && not b) ≤ one (is_own i e)
    from f b h g = ground (arith, h, g)

ended_if : (a b c g : Bool) → (a && b && c && g) ≡ ((a && b && c) && g)
ended_if a b c g = ground arith

one_and : (u v b : Bool) → (b ≡ false → u ≡ v) → one (u && not b) ≤ one v
one_and u v true h = ground arith
one_and u v false h = let e = h refl in ground (arith, e)

settled_fit :
    (e : Win) (b : Bool)
    → (b && e.ghost) ≡ false
    → is_unfit (if b then record e { anim = anim_none } else e) ≡ is_unfit e
settled_fit e true h = ground (arith, h)
settled_fit e false h = refl

stays_fit : (over : Win → Bool) (e : Win) → one (stays over is_unfit e) ≤ one (is_unfit e)
stays_fit over e = one_and (is_unfit (settled over e)) (is_unfit e) (is_ended over e) (λ h.
    settled_fit e (is_drawable e && not (is_still e.anim) && over e)
      (sym (ended_if (is_drawable e) (not (is_still e.anim)) (over e) e.ghost) ∙ h))

pub painted-IsTidy : (over : Win → Bool) (s : Effects) → IsTidy s → IsTidy (painted over s)
painted-IsTidy over s t =
    subst⁻¹ (λ c. Tidy c (painted over s).wins)
      (if_found_cases (λ (r : Effects). r.canvas ≡ s.canvas)
        (paint_windows (length s.wins) over s.wins) (λ _. refl) (λ p _. refl))
      (Tidy-Fewer s.canvas (painted over s).wins s.wins
        (
          λ i.
              let a = count-painted over (is_own i) s in
              let b = count_mono (stays over (is_own i)) (is_own i) s.wins (stays_own over i) in
              omega arith,
          let a = count-painted over is_unfit s in
              let b = count_mono (stays over is_unfit) is_unfit s.wins (stays_fit over) in
              omega arith,
        )
        t)
