-- ===== src/Base/Text.antt =====
-- Text as its code points: Python compares `str` by them.
use Prim.Native.Nat.{ℕ, Ordering}
use Prim.Native.Char.{code}
use Prim.Native.String.{String}
use mathlib.Core.Path.{◌≡◌, refl}
use mathlib.Core.Logic.{◌↔◌}
use mathlib.Core.Bool.{Bool, true, false}
use mathlib.Core.List.{List, [], ◌∷◌}
use mathlib.Core.Option.{Option, none, some}
use native.Mathlib.Omega.{arith}
use first_helios.Base.Order.{IsOrder, cmp_ℕ, cmp_ℕ-IsOrder, cmp_list, cmp_list-IsOrder}

abbrev pub Text : Type 0
Text = List ℕ

abbrev pub codes : String → Text
codes String.[] = []
codes (String.◌∷◌ c s) = code c ∷ codes s

abbrev pub cmp_text : Text → Text → Ordering
cmp_text = cmp_list cmp_ℕ

pub cmp_text-IsOrder : IsOrder cmp_text
cmp_text-IsOrder = cmp_list-IsOrder cmp_ℕ-IsOrder

-- `a == b` of two strings
unfoldable pub text_eq : Text → Text → Bool
text_eq a b = elim (cmp_text a b) [ Ordering.eq ↦ true | _ ↦ false ]

pub text_eq_iff : (a b : Text) → (text_eq a b ≡ true) ↔ (a ≡ b)
unfolding text_eq
text_eq_iff a b =
    (λ h. cmp_text-IsOrder.same a b (ground arith), λ p. ground (arith, cmp_text-IsOrder.flips a b))

-- `a == b` where either may be `None`
unfoldable pub option_text_eq : Option Text → Option Text → Bool
option_text_eq none none = true
option_text_eq (some a) (some b) = text_eq a b
option_text_eq _ _ = false

pub option_text_eq_iff : (a b : Option Text) → (option_text_eq a b ≡ true) ↔ (a ≡ b)
unfolding option_text_eq
option_text_eq_iff none none = ((λ _. refl), (λ _. refl))
option_text_eq_iff none (some b) = ground arith
option_text_eq_iff (some a) none = ground arith
option_text_eq_iff (some a) (some b) = ground (arith, text_eq_iff a b)
