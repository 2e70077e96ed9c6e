-- ===== src/Effects/Entries.antt =====
-- sg-deskcomp.c's array of windows: finding an entry, a new one, one that is forgotten, and how
-- many entries of a sort there are.
use sg_compositor.Prelude.{
  ℕ, ◌+◌, ◌≡◌, refl, Bool, true, false, not, ◌&&◌, List, [], ◌∷◌, ◌++◌, Option, none, some, arith,
  ◌==◌, if◌then◌else◌, All, find, length, ap, suc,
}
use sg_compositor.Effects.{Win, Anim}

-- An entry that is the window's own, not a picture kept of it.
abbrev pub is_own : ℕ → Win → Bool
is_own i e = e.id == i && not e.ghost

-- find
abbrev pub find_win : ℕ → List Win → Option Win
find_win i ws = find (is_own i) ws

-- What is done with an answer, if there is one.
abbrev pub if_found {ℓ κ} : {A : Type ℓ} {B : Type κ} → Option A → B → (A → B) → B
if_found none b f = b
if_found (some a) b f = f a

pub if_found_cases {ℓ κ μ} :
    {A : Type ℓ} {B : Type κ} (P : B → Type μ) (o : Option A) {b : B} {f : A → B}
    → (o ≡ none → P b)
    → ((a : A) → o ≡ some a → P (f a))
    → P (if_found o b f)
if_found_cases P none g h = g refl
if_found_cases P (some a) g h = h a refl

-- A change of the entry that find gives.
unfoldable pub on_own : ℕ → (Win → Win) → List Win → List Win
on_own i f [] = []
on_own i f (e ∷ ws) = let rest = on_own i f ws in if is_own i e then f e ∷ ws else e ∷ rest

abbrev pub one : Bool → ℕ
one true = 1
one false = 0

module _ {ℓ} {A : Type ℓ} where
  abbrev last_of : A → List A → A
  last_of x [] = x
  last_of x (y ∷ xs) = last_of y xs

  abbrev but_last : A → List A → List A
  but_last x [] = []
  but_last x (y ∷ xs) = x ∷ but_last y xs

  -- The entry before these is forgotten: the last one takes its place.
  unfoldable pub last_first : List A → List A
  last_first [] = []
  last_first (x ∷ xs) = last_of x xs ∷ but_last x xs

  abbrev pub count : (A → Bool) → List A → ℕ
  count p [] = 0
  count p (x ∷ xs) = one (p x) + count p xs

  count_last :
      (p : A → Bool) (x : A) (xs : List A)
      → one (p (last_of x xs)) + count p (but_last x xs) ≡ one (p x) + count p xs
  count_last p x [] = refl
  count_last p x (y ∷ xs) = let h = count_last p y xs in omega arith

  pub count-last_first : (p : A → Bool) (xs : List A) → count p (last_first xs) ≡ count p xs
  unfolding last_first
  count-last_first p [] = refl
  count-last_first p (x ∷ xs) = count_last p x xs

  pub count-append : (p : A → Bool) (xs ys : List A) → count p (xs ++ ys) ≡ count p xs + count p ys
  count-append p [] ys = omega arith
  count-append p (x ∷ xs) ys = let h = count-append p xs ys in omega arith

module _ {ℓ} {A : Type ℓ} where
  length-but_last : (x : A) (xs : List A) → length (but_last x xs) ≡ length xs
  length-but_last x [] = refl
  length-but_last x (y ∷ xs) = ap suc (length-but_last y xs)

  pub length-last_first : (xs : List A) → length (last_first xs) ≡ length xs
  unfolding last_first
  length-last_first [] = refl
  length-last_first (x ∷ xs) = ap suc (length-but_last x xs)

-- forget, of the entry that find gives
unfoldable pub forget : ℕ → List Win → List Win
unfolding last_first
forget i [] = []
forget i (e ∷ ws) = let rest = forget i ws in if is_own i e then last_first ws else e ∷ rest

-- make_ghost, of the entry `e` that find gives: a picture of it is kept, and it has none any more.
abbrev pub ghost_of : Anim → Win → Win
ghost_of a e = record e { damaging = false; ghost = true; wobbling = false; anim = a }

unfoldable pub make_ghost : ℕ → Win → Anim → List Win → List Win
unfolding on_own
make_ghost i e a ws = on_own i (λ v. record v { pict = false }) ws ++ ghost_of a e ∷ []

module _ {ℓ κ} {A : Type ℓ} (P : A → Type κ) where
  pub All-append : (xs ys : List A) → All P xs → All P ys → All P (xs ++ ys)
  All-append [] ys h k = k
  All-append (x ∷ xs) ys h k = (h.0, All-append xs ys h.1 k)
