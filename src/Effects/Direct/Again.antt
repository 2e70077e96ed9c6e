-- ===== src/Effects/Direct/Again.antt =====
-- A window that X drew itself, when sg-deskcomp.c's check_direct takes it back.
use sg_compositor.Prelude.{
  ℕ, ◌≡◌, refl, Bool, true, false, ◌⊎◌, inl, inr, List, [], ◌∷◌, Option, none, some, arith, ◌==◌,
  if_cases, if◌then◌else◌, find_passes, ap, ◌∙◌, sym,
}
use sg_compositor.Effects.{Win, Desktop}
use sg_compositor.Effects.Entries.{is_own, find_win, on_own}
use sg_compositor.Effects.Handlers.{Attributes, XServer, Effects, get_pictures}
use sg_compositor.Effects.Tidy.Kept.{get_pictures-Pictured}
use sg_compositor.Effects.Direct.{wanted, undirect, redirect, check_direct}

if_true {ℓ} : {A : Type ℓ} (b : Bool) (x y : A) → b ≡ true → (if b then x else y) ≡ x
if_true true x y h = refl
if_true false x y h = cc

if_false {ℓ} : {A : Type ℓ} (b : Bool) (x y : A) → b ≡ false → (if b then x else y) ≡ y
if_false true x y h = cc
if_false false x y h = refl

map_found : (Win → Win) → Option Win → Option Win
map_found f none = none
map_found f (some e) = some (f e)

own_same : (i : ℕ) (v w : Win) → w.id ≡ v.id → w.ghost ≡ v.ghost → is_own i w ≡ is_own i v
own_same i v w a b = ground (arith, a, b)

find-on_own :
    (i : ℕ) (f : Win → Win) (ws : List Win) (e : Win)
    → ((v : Win) → ((f v).id ≡ v.id) × ((f v).ghost ≡ v.ghost))
    → find_win i ws ≡ some e
    → find_win i (on_own i f ws) ≡ some (f e)
unfolding on_own map_found
find-on_own i f [] e k h = absurd cc
find-on_own i f (v ∷ ws) e k h =
    if_cases (λ us. find_win i us ≡ some (f e)) (is_own i v)
      (λ o.
        if_true (is_own i (f v)) _ _ (own_same i v (f v) (k v).0 (k v).1 ∙ o)
        ∙ ap (map_found f) (sym (if_true (is_own i v) _ _ o) ∙ h))
      (λ n.
        if_false (is_own i v) _ _ n
        ∙ find-on_own i f ws e k (sym (if_false (is_own i v) _ _ n) ∙ h))

not_both : (i j : ℕ) (v : Win) → (j == i) ≡ false → is_own j v ≡ true → is_own i v ≡ false
not_both i j v n o = ground (arith, n, o)

find_other :
    (i j : ℕ) (ws : List Win)
    → (j == i) ≡ false
    → find_win i (on_own j (λ v. record v { pict = false }) ws) ≡ find_win i ws
unfolding on_own
find_other i j [] n = refl
find_other i j (v ∷ ws) n =
    if_cases (λ us. find_win i us ≡ find_win i (v ∷ ws)) (is_own j v)
      (λ o.
        let m = not_both i j v n o in
        if_false (is_own i v) _ _ m ∙ sym (if_false (is_own i v) _ _ m))
      (λ _. ap (λ r. if is_own i v then some v else r) (find_other i j ws n))

taken_back :
    (x : XServer) (e : Win) (a : Attributes)
    → (e.id == 0) ≡ false
    → e.mapped ≡ true
    → e.managed ≡ true
    → x.attributes e.id ≡ some a
    → x.names e.id ≡ true
    → (get_pictures x 0 e).pict ≡ true
unfolding get_pictures
taken_back x e a z m g h n = ground (arith, z, m, g, h, n)

found_id : (i : ℕ) (ws : List Win) (e : Win) → find_win i ws ≡ some e → e.id ≡ i
found_id i ws e h = let p = find_passes (is_own i) ws e h in ground (arith, p)

again : XServer → ℕ → Win → Win
again x d e = get_pictures x 0 (record e { managed = x.redirects d })

again_same :
    (x : XServer) (d : ℕ) (v : Win) → ((again x d v).id ≡ v.id) × ((again x d v).ghost ≡ v.ghost)
unfolding again
again_same x d v =
    let p = get_pictures-Pictured x 0 (record v { managed = x.redirects d }) in (p.0, p.1.0)

-- A window that X drew is found with a picture.
abbrev pub Redrawn : ℕ → Effects → Type 0
Redrawn d s = (v : Win) × ((find_win d s.wins ≡ some v) × (v.pict ≡ true))

module _ (k : Desktop) (x : XServer) (s : Effects) (e : Win) (a : Attributes)
    (z : (s.direct == 0) ≡ false) (h : find_win s.direct s.wins ≡ some e) (m : e.mapped ≡ true)
    (r : x.redirects s.direct ≡ true) (g : x.attributes s.direct ≡ some a)
    (n : x.names s.direct ≡ true) where
  again_pict : (again x s.direct e).pict ≡ true
  unfolding again
  again_pict =
      let i = found_id s.direct s.wins e h in
      taken_back x (record e { managed = x.redirects s.direct }) a (ap (λ j. j == 0) i ∙ z) m r
        (ap x.attributes i ∙ g) (ap x.names i ∙ n)

  undirect-Redrawn : Redrawn s.direct (undirect k x s)
  unfolding undirect again
  undirect-Redrawn =
      if_cases (Redrawn s.direct) (s.direct == 0) (λ y. absurd (cc))
        (λ _. (
          again x s.direct e,
          (find-on_own s.direct (again x s.direct) s.wins e (again_same x s.direct) h, again_pict),
        ))

  redirect-Redrawn :
      (o : Option Win)
      → ((redirect k x o s).direct ≡ s.direct) ⊎ Redrawn s.direct (redirect k x o s)
  unfolding redirect
  redirect-Redrawn none = inr undirect-Redrawn
  redirect-Redrawn (some w) =
      if_cases (λ (t : Effects). (t.direct ≡ s.direct) ⊎ Redrawn s.direct t) (w.id == s.direct)
        (λ _. inl refl)
        (λ f.
          let u = undirect-Redrawn in
          inr (u.0, (find_other s.direct w.id (undirect k x s).wins f ∙ u.1.0, u.1.1)))

  -- A mapped window that X draws itself, where it can be redirected, has attributes and gets a
  -- pixmap, is after check_direct either still drawn by X or found in the array with a picture
  -- again.
  pub check_direct-Redrawn :
      ((check_direct k x s).direct ≡ s.direct) ⊎ Redrawn s.direct (check_direct k x s)
  unfolding check_direct
  check_direct-Redrawn = redirect-Redrawn (wanted k s.wins)
