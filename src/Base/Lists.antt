-- ===== src/Base/Lists.antt =====
-- Lists: lengths, filters by a Boolean test, membership by recursion, and quantifiers.
use first_helios.Base.Tests.{Bool-cases, if◌then◌else◌}
use Prim.Native.Nat.{ℕ, suc}
use mathlib.Core.Path.{◌≡◌, refl, ap}
use mathlib.Core.Logic.{◌⊎◌, inl, inr}
use mathlib.Core.Bool.{Bool, true, false, ◌&&◌, ◌||◌}
use mathlib.Core.Option.{Option, none, some}
use mathlib.Core.List.{List, [], ◌∷◌, ◌++◌, map}
use native.Mathlib.Omega.{arith}

module _ {ℓ} {A : Type ℓ} where
  abbrev pub length : List A → ℕ
  length [] = 0
  length (x ∷ xs) = suc (length xs)

  -- `[x for x in xs if keep(x)]`
  unfoldable pub select : (A → Bool) → List A → List A
  select keep [] = []
  select keep (x ∷ xs) = let rest = select keep xs in if keep x then x ∷ rest else rest

  -- `any(test(x) for x in xs)`
  unfoldable pub any : (A → Bool) → List A → Bool
  any test [] = false
  any test (x ∷ xs) = test x || any test xs

  -- `all(test(x) for x in xs)`
  unfoldable pub all : (A → Bool) → List A → Bool
  all test [] = true
  all test (x ∷ xs) = test x && all test xs

  -- the first that passes the test
  unfoldable pub find_first : (A → Bool) → List A → Option A
  find_first test [] = none
  find_first test (x ∷ xs) = let rest = find_first test xs in if test x then some x else rest

module _ {A : Type 0} where
  -- `a` stands in the list: one case for each position.
  abbrev pub In : A → List A → Type 0
  In a [] = ⊥
  In a (x ∷ xs) = (a ≡ x) ⊎ In a xs

  pub In-select :
      (keep : A → Bool) (a : A) (xs : List A) → In a (select keep xs) → In a xs × (keep a ≡ true)
  unfolding select
  In-select keep a [] m = elim m [ ]
  In-select keep a (x ∷ xs) m = ground (arith, In-select keep a xs)

  pub select-In :
      (keep : A → Bool) (a : A) (xs : List A) → In a xs → keep a ≡ true → In a (select keep xs)
  unfolding select
  select-In keep a [] m k = m
  select-In keep a (x ∷ xs) m k = ground (arith, select-In keep a xs)

  pub all-In :
      (test : A → Bool) (a : A) (xs : List A) → all test xs ≡ true → In a xs → test a ≡ true
  unfolding all
  all-In test a [] h m = elim m [ ]
  all-In test a (x ∷ xs) h m = ground (arith, all-In test a xs)

  pub find_first-some :
      (test : A → Bool) (xs : List A) {a : A}
      → find_first test xs ≡ some a
      → In a xs × (test a ≡ true)
  unfolding find_first
  find_first-some test [] h = cc
  find_first-some test (x ∷ xs) {a} h = ground (arith, find_first-some test xs {a = a})

module _ {A : Type 0} where
  pub In-all :
      (test : A → Bool) (xs : List A) → ((a : A) → In a xs → test a ≡ true) → all test xs ≡ true
  unfolding all
  In-all test [] h = refl
  In-all test (x ∷ xs) h = ground (arith, h x (inl refl), In-all test xs (λ a m. h a (inr m)))

  -- What nothing in the list passes, the search does not find, and conversely.
  pub find_first-none :
      (test : A → Bool) (xs : List A) (a : A) → find_first test xs ≡ none → In a xs → test a ≡ false
  unfolding find_first
  find_first-none test [] a h m = elim m [ ]
  find_first-none test (x ∷ xs) a h m = ground (arith, find_first-none test xs a)

  pub any-In :
      (test : A → Bool) (a : A) (xs : List A) → In a xs → test a ≡ true → any test xs ≡ true
  unfolding any
  any-In test a [] m h = elim m [ ]
  any-In test a (x ∷ xs) m h = ground (arith, any-In test a xs)

  pub any-false-In :
      (test : A → Bool) (a : A) (xs : List A) → any test xs ≡ false → In a xs → test a ≡ false
  unfolding any
  any-false-In test a [] h m = elim m [ ]
  any-false-In test a (x ∷ xs) h m = ground (arith, any-false-In test a xs)

module _ {A : Type 0} where
  pub any-true-In :
      (test : A → Bool) (xs : List A) → any test xs ≡ true → (a : A) × In a xs × (test a ≡ true)
  unfolding any
  any-true-In test [] h = cc
  any-true-In test (x ∷ xs) h = elim (Bool-cases (test x)) [
    | inl e ↦ (x, inl refl, e)
    | inr e ↦ let (a, m, t) = any-true-In test xs (ground arith) in (a, inr m, t)
  ]

  pub any_none :
      (test : A → Bool) (xs : List A) → ((a : A) → In a xs → test a ≡ false) → any test xs ≡ false
  unfolding any
  any_none test [] h = refl
  any_none test (x ∷ xs) h = ground (arith, h x (inl refl), any_none test xs (λ a m. h a (inr m)))

  pub In-append : (a : A) (xs ys : List A) → In a (xs ++ ys) → In a xs ⊎ In a ys
  In-append a [] ys m = inr m
  In-append a (x ∷ xs) ys (inl p) = inl (inl p)
  In-append a (x ∷ xs) ys (inr m) = ground (arith, In-append a xs ys m)

  pub append-In : (a : A) (xs ys : List A) → In a xs ⊎ In a ys → In a (xs ++ ys)
  append-In a [] ys (inr m) = m
  append-In a [] ys (inl m) = elim m [ ]
  append-In a (x ∷ xs) ys (inl (inl p)) = inl p
  append-In a (x ∷ xs) ys (inl (inr m)) = inr (append-In a xs ys (inl m))
  append-In a (x ∷ xs) ys (inr m) = inr (append-In a xs ys (inr m))

module _ {A B : Type 0} where
  pub map-In : (f : A → B) (a : A) (xs : List A) → In a xs → In (f a) (map f xs)
  map-In f a [] m = m
  map-In f a (x ∷ xs) (inl p) = inl (ap f p)
  map-In f a (x ∷ xs) (inr m) = inr (map-In f a xs m)

  pub In-map : (f : A → B) (b : B) (xs : List A) → In b (map f xs) → (a : A) × In a xs × (b ≡ f a)
  In-map f b [] m = elim m [ ]
  In-map f b (x ∷ xs) (inl p) = (x, inl refl, p)
  In-map f b (x ∷ xs) (inr m) = let (a, i, e) = In-map f b xs m in (a, inr i, e)
