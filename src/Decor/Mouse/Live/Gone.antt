-- ===== src/Decor/Mouse/Live/Gone.antt =====
-- decor.c's press when frames come and go.
use sg_compositor.Prelude.{
  ℕ, ◌≡◌, refl, Bool, true, false, not, ◌&&◌, List, [], ◌∷◌, Option, none, some, arith, ◌==◌,
  if_cases, if◌then◌else◌, is_some, keep,
}
use sg_compositor.World.{same_id}
use sg_compositor.Decor.Frames.{Frame, Press, no_press, Frames, decor_of}
use sg_compositor.Decor.Mouse.{Candidate, gets_frame, decor_create, decor_destroy, forget_press}
use sg_compositor.Decor.Mouse.Live.{IsLive, Live, Held, NoTwo, has, names, is_some-decor_of}

has-keep :
    (u v : ℕ) (fs : List Frame)
    → has v (names (keep (λ d. not (d.view == u)) fs)) ≡ (has v (names fs) && not (v == u))
has-keep u v [] = refl
has-keep u v (d ∷ fs) = ground (arith, has-keep u v fs)

NoTwo-keep :
    (u : ℕ) (fs : List Frame) → NoTwo (names fs) → NoTwo (names (keep (λ d. not (d.view == u)) fs))
NoTwo-keep u [] h = tt
NoTwo-keep u (d ∷ fs) h = ground (arith, h, has-keep u d.view fs, NoTwo-keep u fs h.1)

has_ne :
    (u v : ℕ) (fs : List Frame)
    → same_id (some v) (some u) ≡ false
    → has v (names fs) ≡ true
    → has v (names (keep (λ d. not (d.view == u)) fs)) ≡ true
has_ne u v fs ne h = ground (arith, has-keep u v fs, ne, h)

Held-keep :
    (u : ℕ) (o : Option ℕ) (fs : List Frame)
    → same_id o (some u) ≡ false
    → Held o (names fs)
    → Held o (names (keep (λ d. not (d.view == u)) fs))
Held-keep u none fs ne h = tt
Held-keep u (some v) fs ne h = has_ne u v fs ne h

forget_press-Live :
    (u : ℕ) (fs : List Frame) (p : Press)
    → Live (names fs) p
    → Live (names (keep (λ d. not (d.view == u)) fs)) (forget_press u p)
forget_press-Live u fs p l =
    let q : Press = if same_id p.decor (some u) then no_press else p in
    let h =
      if_cases (λ (r : Press). Held r.decor left × Held r.last_bar_view (names fs))
        (same_id p.decor (some u)) (λ _. (tt, tt)) (λ e. (Held-keep u p.decor fs e l.0, l.1)) in
    let k =
      if_cases (λ (r : Press). Held r.decor left × Held r.last_bar_view left)
        (same_id q.last_bar_view (some u)) (λ _. (h.0, tt))
        (λ e. (h.0, Held-keep u q.last_bar_view fs e h.1)) in
    (k.0, k.1, NoTwo-keep u fs l.2)
  where
    left : List ℕ
    left = names (keep (λ d. not (d.view == u)) fs)

pub decor_destroy-IsLive : (u : ℕ) (s : Frames) → IsLive s → IsLive (decor_destroy u s)
unfolding decor_destroy
decor_destroy-IsLive u s l =
    if_cases IsLive (is_some (decor_of u s.decors)) (λ _. forget_press-Live u s.decors s.press l)
      (λ _. l)

is_new :
    (k : Candidate) (fs : List Frame) → gets_frame k fs ≡ true → has k.view.id (names fs) ≡ false
unfolding gets_frame
is_new k fs e = ground (arith, e, is_some-decor_of k.view.id fs)

Held-cons : (v : ℕ) (o : Option ℕ) (vs : List ℕ) → Held o vs → Held o (v ∷ vs)
Held-cons v none vs h = tt
Held-cons v (some u) vs h = ground (arith, h)

pub decor_create-IsLive :
    (made : Bool) (focused : Option ℕ) (k : Candidate) (s : Frames)
    → IsLive s
    → IsLive (decor_create made focused k s)
unfolding decor_create
decor_create-IsLive made focused k s l =
    if_cases IsLive (gets_frame k s.decors && made)
      (λ e. (
        Held-cons k.view.id s.press.decor (names s.decors) l.0,
        Held-cons k.view.id s.press.last_bar_view (names s.decors) l.1,
        (is_new k s.decors (ground (arith, e)), l.2),
      ))
      (λ _. l)
