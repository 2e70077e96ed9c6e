-- ===== src/Effects/Tidy/Kept.antt =====
-- The handlers of sg-deskcomp.c that create, end, show and change entries keep the array tidy.
use sg_compositor.Prelude.{
  ℕ, ◌≡◌, refl, Bool, true, false, not, ◌||◌, Option, none, arith, ◌==◌, if_cases, if◌then◌else◌,
  is_some, ap, ◌∙◌,
}
use sg_compositor.Effects.{Win, Desktop}
use sg_compositor.Effects.Entries.{find_win, if_found_cases, on_own, forget}
use sg_compositor.Effects.Handlers.{
  Attributes, XServer, Effects, get_pictures, managed_win, new_win, damage_entry, append,
  enter_managed, enter_window, add_window, restacked, handle_create, handle_destroy, mapped_win,
  slot, restack_and_damage, handle_map, unmapped, Property, its_opacity, its_shadow, its_acrylic,
  its_frame, another, read_property, handle_property,
}
use sg_compositor.Effects.Tidy.{
  is_ours, Tidy, Tidy-Fewer, restack-Fewer, forget-Fewer, Keeps, on_own-Fewer, Tidy-append,
}

abbrev pub IsTidy : Effects → Type 0
IsTidy s = Tidy s.canvas s.wins

pub damage_entry-IsTidy :
    (k : Desktop) (e : Win) (s : Effects) → IsTidy s → IsTidy (damage_entry k e s)
unfolding damage_entry
damage_entry-IsTidy k e s t = if_found_cases IsTidy _ (λ _. t) (λ r _. t)

pub restacked-IsTidy : (x : XServer) (s : Effects) → IsTidy s → IsTidy (restacked x s)
unfolding restacked
restacked-IsTidy x s t = Tidy-Fewer s.canvas _ _ (restack-Fewer x.tree s.wins) t

pub restack_and_damage-IsTidy :
    (k : Desktop) (x : XServer) (n : ℕ) (s : Effects)
    → IsTidy s
    → IsTidy (restack_and_damage k x n s)
unfolding restack_and_damage
restack_and_damage-IsTidy k x n s t =
    let r = restacked-IsTidy x s t in
    if_found_cases IsTidy _ (λ _. r) (λ e _. damage_entry-IsTidy k e (restacked x s) r)

abbrev Pictured : Win → Win → Type 0
Pictured e f = (f.id ≡ e.id) × ((f.ghost ≡ e.ghost) × (is_ours f ≡ true))

pub get_pictures-Pictured : (x : XServer) (d : ℕ) (e : Win) → Pictured e (get_pictures x d e)
unfolding get_pictures
get_pictures-Pictured x d e =
    let bare : Pictured e (record e { pict = false }) = (refl, (refl, ground arith)) in
    if_cases (Pictured e) (not e.mapped || not e.managed || e.id == d) (λ _. bare)
      (λ u.
        if_found_cases (Pictured e) (x.attributes e.id) (λ _. bare)
          (λ a _.
            if_cases (Pictured e) (x.names e.id) (λ _. (refl, (refl, ground (arith, u))))
              (λ _. bare)))

either_way :
    (x : XServer) (d : ℕ) (e f : Win) (b : Bool)
    → f.id ≡ e.id
    → f.ghost ≡ e.ghost
    → f.pict ≡ false
    → Pictured e (if b then get_pictures x d f else f)
either_way x d e f b i g p =
    let r = get_pictures-Pictured x d f in
    if_cases (Pictured e) b (λ _. (r.0 ∙ i, (r.1.0 ∙ g, r.1.1))) (λ _. (i, (g, ground (arith, p))))

pub managed_win-Pictured :
    (x : XServer) (d : ℕ) (e : Win) → e.pict ≡ false → Pictured e (managed_win x d e)
unfolding managed_win
managed_win-Pictured x d e p = either_way x d e _ e.mapped refl refl p

append-IsTidy :
    (e : Win) (s : Effects)
    → (e.id == s.canvas) ≡ false
    → e.ghost ≡ false
    → is_ours e ≡ true
    → find_win e.id s.wins ≡ none
    → IsTidy s
    → IsTidy (append e s)
append-IsTidy e s n g o f t = Tidy-append s.canvas e s.wins n g o f t

enter_window-IsTidy :
    (k : Desktop) (x : XServer) (i : ℕ) (a : Attributes) (s : Effects)
    → (i == s.canvas) ≡ false
    → find_win i s.wins ≡ none
    → IsTidy s
    → IsTidy (enter_window k x i a s)
unfolding enter_window enter_managed
enter_window-IsTidy k x i a s n f t =
    let e = new_win x i a in
    let m = managed_win x s.direct e in
    let p = managed_win-Pictured x s.direct e refl in
    let added =
      append-IsTidy m s (ap (λ j. j == s.canvas) p.0 ∙ n) p.1.0 p.1.1
        (ap (λ j. find_win j s.wins) p.0 ∙ f) t in
    if_cases IsTidy a.input_only (λ _. t)
      (λ _.
        if_cases IsTidy (not (x.redirects i)) (λ _. append-IsTidy e s n refl (ground arith) f t)
          (λ _.
            if_cases IsTidy m.mapped (λ _. damage_entry-IsTidy k m (append m s) added)
              (λ _. added)))

or_false : (a b : Bool) → (a || b) ≡ false → (a ≡ false) × (b ≡ false)
or_false a b h = ground (arith, h)

not_some : (o : Option Win) → is_some o ≡ false → o ≡ none
not_some o h = ground (arith, h)

pub handle_create-IsTidy :
    (k : Desktop) (x : XServer) (i : ℕ) (s : Effects) → IsTidy s → IsTidy (handle_create k x i s)
unfolding handle_create add_window
handle_create-IsTidy k x i s t = restacked-IsTidy x (add_window k x i s) (
    if_cases IsTidy (i == s.canvas || is_some (find_win i s.wins)) (λ _. t)
      (λ u.
        let v = or_false (i == s.canvas) (is_some (find_win i s.wins)) u in
        if_found_cases IsTidy (x.attributes i) (λ _. t)
          (λ a _. enter_window-IsTidy k x i a s v.0 (not_some (find_win i s.wins) v.1) t)))

pub damage_wins : (k : Desktop) (e : Win) (s : Effects) → (damage_entry k e s).wins ≡ s.wins
unfolding damage_entry
damage_wins k e s = if_found_cases (λ (r : Effects). r.wins ≡ s.wins) _ (λ _. refl) (λ r _. refl)

pub handle_destroy-IsTidy :
    (k : Desktop) (i : ℕ) (s : Effects) → IsTidy s → IsTidy (handle_destroy k i s)
unfolding handle_destroy
handle_destroy-IsTidy k i s t =
    if_found_cases IsTidy (find_win i s.wins) (λ _. t)
      (λ e _.
        let u = damage_entry k e s in
        Tidy-Fewer u.canvas (forget i u.wins) u.wins (forget-Fewer i u.wins)
          (damage_entry-IsTidy k e s t))

-- A change of a window's own entry.
pub on_own-IsTidy :
    (i : ℕ) (f : Win → Win) (s : Effects)
    → Keeps i f
    → IsTidy s
    → IsTidy (record s { wins = on_own i f s.wins })
on_own-IsTidy i f s h t = Tidy-Fewer s.canvas _ s.wins (on_own-Fewer i f s.wins h) t

mapped_win-Keeps : (k : Desktop) (x : XServer) (d i : ℕ) → Keeps i (mapped_win k x d)
mapped_win-Keeps k x d i e o =
    let p = get_pictures-Pictured x d _ in
    if_cases
      (λ (f : Win). (f.id ≡ e.id) × ((f.ghost ≡ e.ghost) × (is_ours e ≡ true → is_ours f ≡ true))) _
      (λ _. (p.0, (p.1.0, λ _. p.1.1))) (λ _. (p.0, (p.1.0, λ _. p.1.1)))

pub handle_map-IsTidy :
    (k : Desktop) (x : XServer) (i : ℕ) (s : Effects) → IsTidy s → IsTidy (handle_map k x i s)
unfolding handle_map
handle_map-IsTidy k x i s t =
    if_cases IsTidy (is_some (find_win i s.wins))
      (λ _.
        restack_and_damage-IsTidy k x (slot i s.wins)
          (record s { wins = on_own i (mapped_win k x s.direct) s.wins })
          (on_own-IsTidy i (mapped_win k x s.direct) s (mapped_win-Keeps k x s.direct i) t))
      (λ _. t)

pub unmapped-Keeps : (i : ℕ) → Keeps i unmapped
unmapped-Keeps i e o = (refl, (refl, λ h. h))

pub freed-Keeps : (i : ℕ) → Keeps i (λ v. record (unmapped v) { pict = false })
freed-Keeps i e o = (refl, (refl, λ _. ground arith))

read_property-Keeps : (x : XServer) (p : Property) (i : ℕ) → Keeps i (read_property x p)
unfolding read_property
read_property-Keeps x its_opacity i e o = (refl, (refl, λ h. h))
read_property-Keeps x its_shadow i e o = (refl, (refl, λ h. h))
read_property-Keeps x its_acrylic i e o = (refl, (refl, λ h. h))
read_property-Keeps x its_frame i e o = (refl, (refl, λ h. h))
read_property-Keeps x another i e o = (refl, (refl, λ h. h))

pub handle_property-IsTidy :
    (k : Desktop) (x : XServer) (i : ℕ) (p : Property) (s : Effects)
    → IsTidy s
    → IsTidy (handle_property k x i p s)
unfolding handle_property
handle_property-IsTidy k x i p s t =
    if_found_cases IsTidy (find_win i s.wins) (λ _. t)
      (λ e _.
        damage_entry-IsTidy k (read_property x p e) _
          (on_own-IsTidy i (read_property x p) s (read_property-Keeps x p i) t))
