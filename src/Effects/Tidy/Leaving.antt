-- ===== src/Effects/Tidy/Leaving.antt =====
-- The handlers of sg-deskcomp.c that make ghosts keep the array tidy.
use sg_compositor.Prelude.{
  ℕ, ◌≡◌, refl, Bool, true, false, not, ◌&&◌, ◌||◌, List, [], ◌∷◌, some, arith, if_cases,
  if◌then◌else◌, find, ◌∙◌, ltb_ℤ,
}
use sg_compositor.Effects.{
  Anim, anim_close, anim_minimize, is_plain, is_framed, want_open, want_minimize, offscreen, Win,
  Desktop,
}
use sg_compositor.Effects.Entries.{is_own, find_win, if_found_cases, on_own, count, make_ghost}
use sg_compositor.Effects.Handlers.{
  XServer, Effects, damage_entry, slot, unmapped, fade_or_free, handle_unmap,
}
use sg_compositor.Effects.Configure.{
  Configure, has_resized, is_minimizing, is_restoring, asked_minrect, leaves_ghost, shaken,
  place_entry, picture_again, rising, configured, configure_entry, on_configure,
}
use sg_compositor.Effects.Tidy.{
  is_fading, is_ours, is_unfit, Tidy, Tidy-Fewer, Keeps, make_ghost-Fewer,
}
use sg_compositor.Effects.Tidy.Kept.{
  IsTidy, damage_entry-IsTidy, restacked-IsTidy, restack_and_damage-IsTidy, get_pictures-Pictured,
  on_own-IsTidy, unmapped-Keeps, freed-Keeps,
}

-- An entry that is found is fit.
found_fit :
    (p q : Win → Bool) (ws : List Win) (e : Win) → find p ws ≡ some e → count q ws ≡ 0 → q e ≡ false
found_fit p q [] e h z = cc
found_fit p q (v ∷ ws) e h z = ground (arith, h, z, found_fit p q ws e)

fit_ours : (e : Win) → is_unfit e ≡ false → is_ours e ≡ true
fit_ours e h = ground (arith, h)

found_ours :
    (i : ℕ) (e : Win) (s : Effects) → find_win i s.wins ≡ some e → IsTidy s → is_ours e ≡ true
found_ours i e s h t = fit_ours e (found_fit (is_own i) is_unfit s.wins e h t.1.1)

third : (a b c d : Bool) → (a && b && c && d) ≡ true → c ≡ true
third a b c d h = ground (arith, h)

-- A ghost of an entry that has a picture.
ghost-IsTidy :
    (i : ℕ) (e : Win) (a : Anim) (s : Effects)
    → e.pict ≡ true
    → is_fading a ≡ true
    → is_ours e ≡ true
    → IsTidy s
    → IsTidy (record s { wins = make_ghost i e a s.wins })
ghost-IsTidy i e a s p f o t =
    Tidy-Fewer s.canvas (make_ghost i e a s.wins) s.wins (make_ghost-Fewer i e a s.wins p f o) t

fade_or_free-IsTidy :
    (k : Desktop) (x : XServer) (i : ℕ) (e : Win) (s : Effects)
    → is_ours e ≡ true
    → IsTidy s
    → IsTidy (fade_or_free k x i e s)
unfolding fade_or_free
fade_or_free-IsTidy k x i e s o t =
    if_cases IsTidy (want_open k.options && not (is_plain e.kind) && e.pict && ltb_ℤ offscreen e.x)
      (λ u.
        let u1 : Effects = record s { wins = on_own i unmapped s.wins } in
        restacked-IsTidy x (record u1 { wins = make_ghost i (unmapped e) anim_close u1.wins })
          (ghost-IsTidy i (unmapped e) anim_close u1
            (third (want_open k.options) (not (is_plain e.kind)) e.pict (ltb_ℤ offscreen e.x) u)
            refl o (on_own-IsTidy i unmapped s (unmapped-Keeps i) t)))
      (λ _. on_own-IsTidy i (λ v. record (unmapped v) { pict = false }) s (freed-Keeps i) t)

pub handle_unmap-IsTidy :
    (k : Desktop) (x : XServer) (i : ℕ) (s : Effects) → IsTidy s → IsTidy (handle_unmap k x i s)
unfolding handle_unmap
handle_unmap-IsTidy k x i s t =
    if_found_cases IsTidy (find_win i s.wins) (λ _. t)
      (λ e h.
        fade_or_free-IsTidy k x i e (damage_entry k e s) (found_ours i e s h t)
          (damage_entry-IsTidy k e s t))

-- What a change that is not of the pictures leaves.
abbrev Same : Win → Win → Type 0
Same e f = (f.id ≡ e.id) × ((f.ghost ≡ e.ghost) × ((f.pict ≡ e.pict) × (is_ours f ≡ is_ours e)))

asked_minrect-Same : (x : XServer) (c : Configure) (e : Win) → Same e (asked_minrect x c e)
unfolding asked_minrect
asked_minrect-Same x c e =
    if_cases (Same e) (is_minimizing c e || is_restoring c e) (λ _. (refl, (refl, (refl, refl))))
      (λ _. (refl, (refl, (refl, refl))))

calmed-Same :
    (e f : Win) (b : Bool) → Same e f → Same e (if b then record f { wobbling = false } else f)
calmed-Same e f b s = if_cases (Same e) b (λ _. s) (λ _. s)

shaken-Same : (k : Desktop) (x : XServer) (c : Configure) (e : Win) → Same e (shaken k x c e)
unfolding shaken
shaken-Same k x c e =
    calmed-Same e _ (has_resized c e)
      (if_cases (Same e) _ (λ _. (refl, (refl, (refl, refl)))) (λ _. (refl, (refl, (refl, refl)))))

abbrev Kept : Win → Win → Type 0
Kept e f = (f.id ≡ e.id) × ((f.ghost ≡ e.ghost) × (is_ours e ≡ true → is_ours f ≡ true))

rising-Kept : (k : Desktop) (c : Configure) (old e f : Win) → Kept e f → Kept e (rising k c old f)
rising-Kept k c old e f s = if_cases (Kept e) _ (λ _. s) (λ _. s)

picture_again-Kept :
    (x : XServer) (d : ℕ) (c : Configure) (old e f : Win)
    → Same e f
    → Kept e (picture_again x d c old f)
picture_again-Kept x d c old e f s =
    let p = get_pictures-Pictured x d f in
    if_cases (Kept e) _ (λ _. (p.0 ∙ s.0, (p.1.0 ∙ s.1.0, λ _. p.1.1)))
      (λ _. (s.0, (s.1.0, λ o. s.1.1.1 ∙ o)))

configured-Keeps :
    (k : Desktop) (x : XServer) (d : ℕ) (c : Configure) (old : Win) (i : ℕ)
    → Keeps i (configured k x d c old)
unfolding configured
configured-Keeps k x d c old i e o =
    let f = place_entry c (shaken k x c e) in
    rising-Kept k c old e (picture_again x d c old f)
      (picture_again-Kept x d c old e f (shaken-Same k x c e))

and_true : (a b c d e : Bool) → (a && b && c && d && e) ≡ true → c ≡ true
and_true a b c d e h = ground (arith, h)

configure_entry-IsTidy :
    (k : Desktop) (x : XServer) (c : Configure) (e : Win) (s : Effects)
    → is_ours e ≡ true
    → IsTidy s
    → IsTidy (configure_entry k x c e s)
unfolding configure_entry
configure_entry-IsTidy k x c e s o t =
    let m = asked_minrect-Same x c e in
    let asked =
      on_own-IsTidy c.window (asked_minrect x c) s
        (λ v _. let r = asked_minrect-Same x c v in (r.0, (r.1.0, λ h. r.1.1.1 ∙ h))) t in
    let ws = on_own c.window (asked_minrect x c) s.wins in
    let vs =
      if leaves_ghost k c e
      then make_ghost c.window (asked_minrect x c e) anim_minimize ws
      else ws in
    let u0 : Effects = record s { wins = vs } in
    let ghosted =
      if_cases (λ (us : List Win). Tidy s.canvas us) (leaves_ghost k c e)
        (λ u.
          ghost-IsTidy c.window (asked_minrect x c e) anim_minimize (record s { wins = ws })
            (m.1.1.0
              ∙ and_true (is_minimizing c e) e.mapped e.pict (want_minimize k.options)
                  (is_framed e.kind) u)
            refl (m.1.1.1 ∙ o) asked)
        (λ _. asked) in
    restack_and_damage-IsTidy k x (slot c.window vs)
      (record s { wins = on_own c.window (configured k x s.direct c e) vs })
      (on_own-IsTidy c.window (configured k x s.direct c e) u0
        (configured-Keeps k x s.direct c e c.window) ghosted)

pub on_configure-IsTidy :
    (k : Desktop) (x : XServer) (c : Configure) (s : Effects)
    → IsTidy s
    → IsTidy (on_configure k x c s)
unfolding on_configure
on_configure-IsTidy k x c s t =
    if_found_cases IsTidy (find_win c.window s.wins) (λ _. t)
      (λ e h.
        configure_entry-IsTidy k x c e (damage_entry k e s) (found_ours c.window e s h t)
          (damage_entry-IsTidy k e s t))
