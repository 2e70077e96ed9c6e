-- ===== src/Effects/Direct/Top.antt =====
-- Which window sg-deskcomp.c's check_direct leaves to X.
use sg_compositor.Prelude.{
  ℕ, ◌-◌, ◌<◌, ◌&&◌, ◌↔◌, ◌⊎◌, ◌≡◌, refl, Bool, true, false, List, [], ◌∷◌, ◌++◌, none, some, arith,
  ◌==◌, ==_iff, if_cases, if◌then◌else◌, All, ap, ◌∙◌, sym,
}
use sg_compositor.Effects.{
  Anim, anim_none, anim_open, anim_close, anim_minimize, anim_restore, is_still, Win, Desktop,
  own_sides,
}
use sg_compositor.Effects.Reach.{Within}
use sg_compositor.Effects.Handlers.{XServer, Effects}
use sg_compositor.Effects.Direct.{
  is_visible, top_shown, covers_desktop, opaque_and_still, fills_desktop, that_fills_desktop,
  wanted, undirect, redirect, check_direct,
}

top_none : (vs : List Win) → All (λ v. is_visible v ≡ false) vs → top_shown vs ≡ none
top_none [] h = refl
top_none (v ∷ vs) h = ground (arith, h.0, top_none vs h.1)

top_above :
    (us vs : List Win) (e : Win)
    → is_visible e ≡ true
    → All (λ v. is_visible v ≡ false) vs
    → top_shown (us ++ e ∷ vs) ≡ some e
top_above [] vs e h a = ground (arith, h, top_none vs a)
top_above (u ∷ us) vs e h a = ground (arith, top_above us vs e h a)

undirect-direct : (k : Desktop) (x : XServer) (s : Effects) → (undirect k x s).direct ≡ 0
unfolding undirect
undirect-direct k x s =
    if_cases (λ (r : Effects). r.direct ≡ 0) (s.direct == 0) (λ h. (==_iff s.direct 0).0 h)
      (λ _. refl)

redirect-direct :
    (k : Desktop) (x : XServer) (e : Win) (b : Bool) (s : Effects)
    → (redirect k x (if b then some e else none) s).direct ≡ (if b then e.id else 0)
unfolding redirect
redirect-direct k x e true s =
    if_cases (λ (r : Effects). r.direct ≡ e.id) (e.id == s.direct)
      (λ h. sym ((==_iff e.id s.direct).0 h)) (λ _. refl)
redirect-direct k x e false s = undirect-direct k x s

-- Nothing is seen through it, nothing of it moves, and X may draw it.
abbrev pub Opaque : Win → Type 0
Opaque e =
    (e.managed ≡ true)
    × ((e.win_argb ≡ false)
        × ((e.opacity ≡ 4294967295)
            × ((e.acrylic ≡ 0) × ((e.anim ≡ anim_none) × (e.wobbling ≡ false)))))

-- The first and the last place of the desktop are within the window with its border.
abbrev pub Covering : Desktop → Win → Type 0
Covering k e = Within 0 0 (own_sides e) × Within (k.dw - 1) (k.dh - 1) (own_sides e)

still_none : (a : Anim) → is_still a ≡ true → a ≡ anim_none
still_none anim_none h = refl
still_none anim_open h = cc
still_none anim_close h = cc
still_none anim_minimize h = cc
still_none anim_restore h = cc

-- What the tests of check_direct say, and what says that they pass.
opaque_and_still-Opaque : (e : Win) → (e.managed ≡ true) × (opaque_and_still e ≡ true) → Opaque e
opaque_and_still-Opaque e (m, h) = (
  m,
  (
    ground (arith, h),
    (
      ground (arith, h),
      (ground (arith, h), (still_none e.anim (ground (arith, h)), ground (arith, h))),
    ),
  ),
)

Opaque-opaque_and_still : (e : Win) → Opaque e → opaque_and_still e ≡ true
Opaque-opaque_and_still e (m, (a, (o, (c, (n, w))))) = ground (arith, a, o, c, n, w)

covers-Covering :
    (k : Desktop) (e : Win) → 0 < k.dw → 0 < k.dh → covers_desktop k e ≡ true → Covering k e
unfolding own_sides
covers-Covering k e w h c = ground (arith, c, w, h)

Covering-covers :
    (k : Desktop) (e : Win) → 0 < k.dw → 0 < k.dh → Covering k e → covers_desktop k e ≡ true
unfolding own_sides
Covering-covers k e w h c = ground (arith, c, w, h)

fills_iff :
    (k : Desktop) (e : Win)
    → 0 < k.dw
    → 0 < k.dh
    → (fills_desktop k e ≡ true) ↔ (Opaque e × Covering k e)
unfolding fills_desktop
fills_iff k e w h = (
  (λ f.
      let g = all_three e.managed (covers_desktop k e) (opaque_and_still e) f in
      (opaque_and_still-Opaque e (g.0, g.1.1), covers-Covering k e w h g.1.0)),
  (λ g.
      each_true e.managed (covers_desktop k e) (opaque_and_still e) g.0.0
        (Covering-covers k e w h g.1) (Opaque-opaque_and_still e g.0)),
)
  where
    all_three : (a b c : Bool) → (a && b && c) ≡ true → (a ≡ true) × ((b ≡ true) × (c ≡ true))
    all_three a b c f = ground (arith, f)

    each_true : (a b c : Bool) → a ≡ true → b ≡ true → c ≡ true → (a && b && c) ≡ true
    each_true a b c x y z = ground (arith, x, y, z)

chosen_iff :
    (b : Bool) (i d : ℕ)
    → 0 < i
    → d ≡ (if b then i else 0)
    → ((d ≡ i) ↔ (b ≡ true)) × ((d ≡ i) ⊎ (d ≡ 0))
chosen_iff b i d p h = ground (arith, h)

-- On a desktop that is not empty, with one entry that is shown and above which no entry is, of a
-- window whose id is not 0: check_direct leaves that window to X exactly if it is redirected
-- here, has no alpha, is opaque, not frosted, neither animated nor wobbling, and the desktop's
-- first and last place are within the window with its border; otherwise it leaves none to X.
pub check_direct-direct :
    (k : Desktop) (x : XServer) (s : Effects) (us vs : List Win) (e : Win)
    → 0 < k.dw
    → 0 < k.dh
    → 0 < e.id
    → s.wins ≡ us ++ e ∷ vs
    → is_visible e ≡ true
    → All (λ v. is_visible v ≡ false) vs
    → (((check_direct k x s).direct ≡ e.id) ↔ (Opaque e × Covering k e))
      × (((check_direct k x s).direct ≡ e.id) ⊎ ((check_direct k x s).direct ≡ 0))
unfolding check_direct wanted
check_direct-direct k x s us vs e dw dh i w h a =
    let d =
      ap (λ o. (redirect k x (that_fills_desktop k o) s).direct)
        (ap top_shown w ∙ top_above us vs e h a)
      ∙ redirect-direct k x e (fills_desktop k e) s in
    let c = chosen_iff (fills_desktop k e) e.id (check_direct k x s).direct i d in
    let f = fills_iff k e dw dh in ((λ q. f.0 (c.0.0 q), λ q. c.0.1 (f.1 q)), c.1)
