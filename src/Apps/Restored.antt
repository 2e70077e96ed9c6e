-- ===== src/Apps/Restored.antt =====
-- wayland_app.c: a window is maximized or made a full screen, and comes back.
use mathlib.Core.Path.{subst⁻¹}
use sg_compositor.Prelude.{
  ◌≡◌, refl, ◌∙◌, Bool, true, false, not, ◌&&◌, arith, List, ◌∷◌, if_cases, Bool-cases, inl, inr,
  ap, if◌then◌else◌, ℤ, ◌+ℤ◌, ◌-ℤ◌, int_laws,
}
use sg_compositor.Decor.Frames.{Box}
use sg_compositor.Apps.{
  maximize, fullscreen, size, Ask, App, Desk, work_area, update_clip, place, is_empty_box,
  visible_box, has_size, maximize_on, maximize_off, set_maximized, fullscreen_on, fullscreen_off,
  set_fullscreen,
}

put_back : (x g : ℤ) → x -ℤ g +ℤ g ≡ x
put_back x g = omega int_laws

-- The window is at the place and is asked for the size.
abbrev pub IsAt : Box → App → Type 0
IsAt b a = ((visible_box a).x ≡ b.x) × ((visible_box a).y ≡ b.y)

place-IsAt :
    (k : Desk) (x y : ℤ) (a : App) → IsAt (record (visible_box a) { x = x; y = y }) (place k x y a)
unfolding place update_clip
place-IsAt k x y a = (put_back x a.geometry.x, put_back y a.geometry.y)

not_empty : (a : App) → has_size a ≡ true → is_empty_box (visible_box a) ≡ false
not_empty a h = ground (arith, h)

kept_box :
    (a : App)
    → a.maximized ≡ false
    → has_size a ≡ true
    → (if not a.maximized && has_size a then visible_box a else a.restore) ≡ visible_box a
kept_box a f h = ground (arith, f, h)

-- The program commits some geometry in between.
abbrev pub with_geometry : Box → App → App
with_geometry g a = record a { geometry = g }

pub set_maximized_twice :
    (k : Desk) (g : Box) (a : App)
    → a.maximized ≡ false
    → has_size a ≡ true
    → let w = work_area k in
      let m = set_maximized k true a in
      let r = set_maximized k false (with_geometry g m) in
      (m.asked ≡ maximize true ∷ size w.width w.height ∷ a.asked)
      × IsAt w m
      × (r.asked ≡ maximize false ∷ size a.geometry.width a.geometry.height ∷ m.asked)
      × IsAt (visible_box a) r
      × (r.maximized ≡ false)
unfolding set_maximized maximize_on maximize_off place update_clip
set_maximized_twice k g a f h =
    let w = work_area k in
    let v = visible_box a in
    rw (kept_box a f h, not_empty a h)
      (
        refl,
        (put_back w.x a.geometry.x, put_back w.y a.geometry.y),
        refl,
        (put_back v.x g.x, put_back v.y g.y),
        refl,
      )

-- A full screen that ends is what it was: maximized, with its box to restore, or where it was.
abbrev pub IsBack : Desk → App → Bool → List Ask → App → Type 0
IsBack k a true before r = IsAt (work_area k) r × (r.restore ≡ a.restore) × (r.maximized ≡ true)
IsBack k a false before r =
    IsAt (visible_box a) r
    × (r.asked ≡ size a.geometry.width a.geometry.height ∷ fullscreen false ∷ before)
    × (r.maximized ≡ false)

windowed_box :
    (a : App)
    → has_size a ≡ true
    → (if has_size a then visible_box a else a.windowed) ≡ visible_box a
windowed_box a h = ground (arith, h)

module _ (k : Desk) (g : Box) (a : App) where
  after : App
  after = fullscreen_off k (with_geometry g (fullscreen_on k a))

  returns_maximized :
      a.maximized ≡ true
      → IsBack k a true (fullscreen_on k a).asked after × (after.fullscreen ≡ false)
  unfolding after fullscreen_on fullscreen_off maximize_on place update_clip
  returns_maximized e =
      if_cases (λ (r : App). IsBack k a true (fullscreen_on k a).asked r × (r.fullscreen ≡ false))
        a.maximized
        (λ _. (((put_back (work_area k).x g.x, put_back (work_area k).y g.y), refl, refl), refl))
        (λ n. absurd (cc (e, n)))

  returns_windowed :
      a.maximized ≡ false
      → has_size a ≡ true
      → IsBack k a false (fullscreen_on k a).asked after × (after.fullscreen ≡ false)
  unfolding after fullscreen_on fullscreen_off maximize_on place update_clip
  returns_windowed e h =
      let v = visible_box a in
      rw (windowed_box a h, not_empty a h)
        (if_cases
          (λ (r : App). IsBack k a false (fullscreen_on k a).asked r × (r.fullscreen ≡ false))
          a.maximized (λ y. absurd (cc (e, y)))
          (λ _. (((put_back v.x g.x, put_back v.y g.y), refl, e), refl)))

  returns :
      has_size a ≡ true
      → IsBack k a a.maximized (fullscreen_on k a).asked after × (after.fullscreen ≡ false)
  returns h = elim (Bool-cases a.maximized) [
    | inl e ↦
        subst⁻¹ (λ m. IsBack k a m (fullscreen_on k a).asked after × (after.fullscreen ≡ false)) e
          (returns_maximized e)
    | inr e ↦
        subst⁻¹ (λ m. IsBack k a m (fullscreen_on k a).asked after × (after.fullscreen ≡ false)) e
          (returns_windowed e h)
  ]

  starts : a.fullscreen ≡ false → set_fullscreen k true a ≡ fullscreen_on k a
  unfolding set_fullscreen
  starts f =
      if_cases (λ (r : App). r ≡ fullscreen_on k a) a.fullscreen (λ y. absurd (cc (f, y)))
        (λ _. refl)

  ends : set_fullscreen k false (with_geometry g (fullscreen_on k a)) ≡ after
  unfolding set_fullscreen after fullscreen_on place update_clip
  ends = refl

  full :
      ((fullscreen_on k a).asked ≡ fullscreen true ∷ size k.layout.width k.layout.height ∷ a.asked)
      × IsAt k.layout (fullscreen_on k a)
  unfolding fullscreen_on place update_clip
  full = (refl, (put_back k.layout.x a.geometry.x, put_back k.layout.y a.geometry.y))

-- What becomes of a window that is made a full screen, commits a geometry, and ends to be one.
abbrev pub FullAndBack : Desk → Box → App → App → Type 0
FullAndBack k g a s =
    let r = set_fullscreen k false (with_geometry g s) in
    (s.asked ≡ fullscreen true ∷ size k.layout.width k.layout.height ∷ a.asked)
    × IsAt k.layout s
    × IsBack k a a.maximized s.asked r
    × (r.fullscreen ≡ false)

-- A window with a size that is not a full screen becomes one: it is asked for the screen's size
-- and put at its corner; when it ends to be one, whatever geometry it committed in between, it is
-- maximised again with the same box to restore if it was maximised, and otherwise at the place
-- and asked for the size that it had.
pub set_fullscreen-FullAndBack :
    (k : Desk) (g : Box) (a : App)
    → a.fullscreen ≡ false
    → has_size a ≡ true
    → FullAndBack k g a (set_fullscreen k true a)
set_fullscreen-FullAndBack k g a f h =
    let b = returns k g a h in
    let u = full k g a in
    subst⁻¹ (FullAndBack k g a) (starts k g a f) (
      u.0,
      u.1,
      subst⁻¹ (IsBack k a a.maximized (fullscreen_on k a).asked) (ends k g a) b.0,
      ap (λ (r : App). r.fullscreen) (ends k g a) ∙ b.1,
    )
