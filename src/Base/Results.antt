-- ===== src/Base/Results.antt =====
-- A value, or the error that is raised in its place.
use mathlib.Core.Path.{Path, ◌≡◌, refl, ap, ◌∙◌}
use mathlib.Core.Bool.{Bool, true, false}
use mathlib.Core.List.{List, ◌∷◌}
use first_helios.Base.Tests.{if◌then◌else◌}

pub data Result {ℓ ℓ'} (E : Type ℓ) (A : Type ℓ') : Type (ℓ ⊔ ℓ') where
  raise : E → Result E A
  ok : A → Result E A

infixl 20 ◌>>=◌
abbrev pub ◌>>=◌ {ℓ ℓ' ℓ''} :
    {E : Type ℓ} {A : Type ℓ'} {B : Type ℓ''} → Result E A → (A → Result E B) → Result E B
raise e >>= f = raise e
ok a >>= f = f a

-- A chain that succeeds has a first value, at which the rest succeeds.
pub >>=-ok {ℓ ℓ' ℓ''} :
    {E : Type ℓ} {A : Type ℓ'} {B : Type ℓ''} (r : Result E A) (f : A → Result E B) {b : B}
    → r >>= f ≡ ok b
    → (a : A) × (r ≡ ok a) × (f a ≡ ok b)
>>=-ok (raise e) f h = cc
>>=-ok (ok a) f h = (a, refl, h)

-- The converse: the rest of a chain decides what the chain gives.
pub ok->>= {ℓ ℓ' ℓ''} :
    {E : Type ℓ} {A : Type ℓ'} {B : Type ℓ''} {r : Result E A} (f : A → Result E B) {a : A}
    {out : Result E B}
    → r ≡ ok a
    → f a ≡ out
    → r >>= f ≡ out
ok->>= f h k = ap (λ x. x >>= f) h ∙ k

-- `e` is the only error that `r` can raise.
abbrev pub OnlyRaises {ℓ ℓ'} : {E : Type ℓ} {A : Type ℓ'} → E → Result E A → Type (ℓ ⊔ ℓ')
OnlyRaises {E} e r = (f : E) → r ≡ raise f → f ≡ e

pub >>=-OnlyRaises {ℓ ℓ' ℓ''} :
    {E : Type ℓ} {A : Type ℓ'} {B : Type ℓ''} (e : E) (r : Result E A) (f : A → Result E B)
    → OnlyRaises e r
    → ((a : A) → OnlyRaises e (f a))
    → OnlyRaises e (r >>= f)
>>=-OnlyRaises e (raise x) f h k = λ g p. h g cc
>>=-OnlyRaises e (ok a) f h k = k a

-- A test that raises when it fails, and has succeeded.
pub guarded-ok {ℓ ℓ'} :
    {E : Type ℓ} {A : Type ℓ'} (e : E) (test : Bool) (a b : A)
    → (if test then ok a else raise e) ≡ ok b
    → (test ≡ true) × (a ≡ b)
guarded-ok e true a b h = (refl, cc)
guarded-ok e false a b h = cc

pub refused-ok {ℓ ℓ'} :
    {E : Type ℓ} {A : Type ℓ'} (e : E) (test : Bool) (a b : A)
    → (if test then raise e else ok a) ≡ ok b
    → (test ≡ false) × (a ≡ b)
refused-ok e true a b h = cc
refused-ok e false a b h = (refl, cc)

pub guarded-OnlyRaises {ℓ ℓ'} :
    {E : Type ℓ} {A : Type ℓ'} (e : E) (test : Bool) (a : A)
    → OnlyRaises e (if test then ok a else raise e)
guarded-OnlyRaises e true a = λ f h. cc
guarded-OnlyRaises e false a = λ f h. cc

module _ {ℓ ℓ'} {E : Type ℓ} {A : Type ℓ'} where
  pub ok-injective : (a b : A) → Path (Result E A) (ok a) (ok b) → a ≡ b
  ok-injective a b h = cc

  -- A list that is returned has one first element and one rest.
  pub ok-∷-injective :
      (a b : A) (xs ys : List A)
      → Path (Result E (List A)) (ok (a ∷ xs)) (ok (b ∷ ys))
      → (a ≡ b) × (xs ≡ ys)
  ok-∷-injective a b xs ys h = (cc, cc)

pub refused-OnlyRaises {ℓ ℓ'} :
    {E : Type ℓ} {A : Type ℓ'} (e : E) (test : Bool) (a : A)
    → OnlyRaises e (if test then raise e else ok a)
refused-OnlyRaises e true a = λ f h. cc
refused-OnlyRaises e false a = λ f h. cc
