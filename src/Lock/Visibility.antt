-- ===== src/Lock/Visibility.antt =====
-- lock.c and elevated.c: who can see the globals that are not for everyone.
use sg_compositor.Prelude.{
  ℕ, true, false, not, none, some, arith, ◌≡◌, refl, ap, ◌==◌, any, Option, Option-cases,
  Bool-cases, inl, inr, ◌⊎◌, ==_iff, List, [], ◌∷◌, ◌++◌,
}
use sg_compositor.World.{Server, same_id}
use sg_compositor.Lock.Access.{lock_client_is_privileged}
use sg_compositor.Lock.Globals.{
  Global, Elevated, Displays, elevated_global, elevated_filter_global, view_only_input,
  lock_filter_global, global_filter,
}

-- The global is the shell of an elevated X server, and the client is that server.
abbrev pub OwnShell : List Elevated → (c g : ℕ) → Type 0
OwnShell es c g =
    (us : List Elevated) × ((e : Elevated) × ((vs : List Elevated) × ((es ≡ us ++ e ∷ vs)
          × ((e.client ≡ c) × (e.shell ≡ some g)))))

same_id-some : (o : Option ℕ) (n : ℕ) → same_id o (some n) ≡ true → o ≡ some n
same_id-some none n h = cc
same_id-some (some m) n h = ap some ((==_iff m n).0 h)

next_shell : (e : Elevated) (es : List Elevated) (c g : ℕ) → OwnShell es c g → OwnShell (e ∷ es) c g
next_shell e es c g (us, (f, (vs, (p, r)))) = (e ∷ us, (f, (vs, (ap (λ zs. e ∷ zs) p, r))))

elevated_global-OwnShell :
    (es : List Elevated) (c g : ℕ) → elevated_global es c g ≡ some true → OwnShell es c g
unfolding elevated_global
elevated_global-OwnShell [] c g h = absurd (cc)
elevated_global-OwnShell (e ∷ es) c g h = elim (Bool-cases (same_id e.shell (some g))) [
  | inl own ↦ (
    [],
    (e, (es, (refl, (ground (arith, h, own, ==_iff c e.client), same_id-some e.shell g own)))),
  )
  | inr other ↦ next_shell e es c g (elevated_global-OwnShell es c g (ground (arith, h, other)))
]

-- The session's X server and its shell.
abbrev pub SessionShell : Displays → (c g : ℕ) → Type 0
SessionShell d c g = (d.xwayland_shell ≡ some g) × (d.xwayland_client ≡ some c)

granted :
    (d : Displays) (c : ℕ) (g : Global)
    → elevated_filter_global d c g ≡ some true
    → OwnShell d.elevated c g.id ⊎ SessionShell d c g.id
unfolding elevated_filter_global
granted d c g h = elim (Option-cases (elevated_global d.elevated c g.id)) [
  | inl other ↦ inr (
    same_id-some d.xwayland_shell g.id (ground (arith, h, other)),
    same_id-some d.xwayland_client c (ground (arith, h, other)),
  )
  | inr (b, found) ↦ inl (elevated_global-OwnShell d.elevated c g.id (ground (arith, h, found)))
]

-- A client that sees a restricted global is an elevated X server and the global is the shell of
-- its own, or it is the session's X server and the global is that one's shell, or it is
-- privileged and not kept from the global as a viewer without control.
pub global_filter-restricted :
    (d : Displays) (s : Server) (c : ℕ) (g : Global)
    → any (λ r. r == g.id) s.lock.restricted ≡ true
    → global_filter d s c g ≡ true
    → (OwnShell d.elevated c g.id ⊎ SessionShell d c g.id)
      ⊎ ((lock_client_is_privileged s.lock c ≡ true) × (view_only_input s c g.id ≡ false))
unfolding global_filter lock_filter_global
global_filter-restricted d s c g limited seen = elim (Option-cases (elevated_filter_global d c g)) [
  | inl undecided ↦ inr (ground (arith, undecided), ground (arith, undecided))
  | inr (b, decided) ↦ inl (granted d c g (ground (arith, decided)))
]

-- Where the public capture global is not restricted, the other is, and neither is an input global
-- that is kept from the client as a view-only viewer, a client sees exactly one of the two.
pub lock_filter_global-one_capture :
    (s : Server) (c p q : ℕ)
    → s.lock.public_capture ≡ some p
    → any (λ r. r == p) s.lock.restricted ≡ false
    → any (λ r. r == q) s.lock.restricted ≡ true
    → view_only_input s c p ≡ false
    → view_only_input s c q ≡ false
    → lock_filter_global s c p ≡ not (lock_filter_global s c q)
unfolding lock_filter_global
lock_filter_global-one_capture s c p q public open_p limited x y =
    ground (arith, public, ==_iff p p)

-- A viewer without control sees neither of the two input globals, privileged or not.
pub lock_filter_global-view_only :
    (s : Server) (c g : ℕ)
    → s.shadow_client ≡ some c
    → s.shadow_control ≡ false
    → (s.lock.input_global_0 ≡ some g) ⊎ (s.lock.input_global_1 ≡ some g)
    → lock_filter_global s c g ≡ false
unfolding lock_filter_global
lock_filter_global-view_only s c g viewer looks input =
    ground (arith, viewer, looks, ==_iff c c, ==_iff g g)
