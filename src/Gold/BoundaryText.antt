-- ===== src/Gold/BoundaryText.antt =====
-- The text of a drawn area (`_coordinate`, `parse_boundary` of
-- packages/helios_core/gold/price_index.py). Values are micro-degrees; the context of the source's
-- decimals keeps the at most nine digits of a coordinate.
pub mod Limits
use Prim.Native.Nat.{◌^◌}
use first_helios.Base.{
  ℕ, zero, suc, Bool, true, false, Option, none, some, List, [], ◌∷◌, ◌++◌, ◌==◌, ◌&&◌, ◌||◌, ◌+◌,
  ◌*◌, ◌-◌, leb, ltb, not, map, all, length, if◌then◌else◌,
}
use first_helios.Base.Text.{Text}
use first_helios.Base.Int.{ℤ, pos, negsuc, ◌-ℤ◌, ltb_ℤ, leb_ℤ}
use first_helios.Base.Results.{Result, raise, ok, ◌>>=◌}
use first_helios.Gold.Boundary.{Corner, least, greatest, last}

-- The rule that a text breaks.
pub data BoundaryError : Type 0 where
  too_long : BoundaryError
  not_a_pair : Text → BoundaryError
  not_plain : Text → BoundaryError
  out_of_range : Text → BoundaryError
  corner_count : ℕ → BoundaryError
  too_wide : BoundaryError

abbrev pub max_length : ℕ
max_length = 1200

abbrev pub max_span : ℤ
max_span = pos 2000000

-- the first piece grows by a character
cons_first : ℕ → List Text → List Text
cons_first c [] = (c ∷ []) ∷ []
cons_first c (t ∷ ts) = (c ∷ t) ∷ ts

-- `text.split(separator)`
unfoldable pub split : ℕ → Text → List Text
unfolding cons_first
split separator [] = [] ∷ []
split separator (c ∷ cs) =
    let rest = split separator cs in if c == separator then [] ∷ rest else cons_first c rest

is_digit : ℕ → Bool
is_digit c = leb 48 c && leb c 57

-- The digits at the start of a text, and what follows them.
span_digits : Text → Text × Text
unfolding is_digit
span_digits [] = ([], [])
span_digits (c ∷ cs) =
    let (ds, rest) = span_digits cs in if is_digit c then (c ∷ ds, rest) else ([], c ∷ cs)

digits_value : ℕ → Text → ℕ
digits_value n [] = n
digits_value n (c ∷ cs) = digits_value (n * 10 + (c - 48)) cs

-- what may follow the whole degrees: the end, or a point and one to six digits
fraction : ℕ → Text → Option ℕ
unfolding digits_value is_digit
fraction whole [] = some (whole * 1000000)
fraction whole (c ∷ cs) =
    if c == 46 && leb 1 (length cs) && leb (length cs) 6 && all is_digit cs
    then some (whole * 1000000 + digits_value 0 cs * 10 ^ (6 - length cs))
    else none

unsigned : Text → Option ℕ
unfolding span_digits fraction digits_value
unsigned t =
    let (whole, rest) = span_digits t in
    if leb 1 (length whole) && leb (length whole) 3
    then fraction (digits_value 0 whole) rest
    else none

-- `-0` is 0
negated : ℕ → ℤ
negated zero = pos 0
negated (suc n) = negsuc n

-- `Decimal(text) + 0` if the pattern of a coordinate matches the whole text
unfoldable pub plain_decimal : Text → Option ℤ
unfolding unsigned negated
plain_decimal [] = none
plain_decimal (c ∷ cs) =
    if c == 45
    then elim (unsigned cs) [ none ↦ none | some n ↦ some (negated n) ]
    else elim (unsigned (c ∷ cs)) [ none ↦ none | some n ↦ some (pos n) ]

unfoldable pub within : Text → ℤ → ℤ → Option ℤ → Result BoundaryError ℤ
within t low high none = raise (not_plain t)
within t low high (some value) =
    if leb_ℤ low value && leb_ℤ value high then ok value else raise (out_of_range t)

unfoldable pub coordinate : Text → ℤ → ℤ → Result BoundaryError ℤ
unfolding within
coordinate t low high = within t low high (plain_decimal t)

abbrev pub latitude_of : Text → Result BoundaryError ℤ
latitude_of t = coordinate t (negsuc 89999999) (pos 90000000)

abbrev pub longitude_of : Text → Result BoundaryError ℤ
longitude_of t = coordinate t (negsuc 179999999) (pos 180000000)

unfoldable pub pair_corner : Text → List Text → Result BoundaryError Corner
pair_corner t (a ∷ b ∷ []) = do
  latitude ← latitude_of a
  longitude ← longitude_of b
  ok (record { latitude = latitude; longitude = longitude })
pair_corner t _ = raise (not_a_pair t)

-- the loop over `text.split(";")`
unfoldable pub parse_corners : List Text → Result BoundaryError (List Corner)
unfolding pair_corner
parse_corners [] = ok []
parse_corners (t ∷ ts) = do
  corner ← pair_corner t (split 44 t)
  corners ← parse_corners ts
  ok (corner ∷ corners)

same_corner : Corner → Corner → Bool
same_corner a b =
    leb_ℤ a.latitude b.latitude
    && leb_ℤ b.latitude a.latitude
    && leb_ℤ a.longitude b.longitude
    && leb_ℤ b.longitude a.longitude

-- all but the last of the corners behind a first one, with the first
without_last : Corner → List Corner → List Corner
without_last c [] = []
without_last c (d ∷ ds) = c ∷ without_last d ds

-- `if len(corners) > 1 and corners[-1] == corners[0]: corners.pop()`
unfoldable pub open_loop : List Corner → List Corner
unfolding same_corner without_last
open_loop [] = []
open_loop (c ∷ []) = c ∷ []
open_loop (c ∷ d ∷ ds) = if same_corner (last d ds) c then without_last c (d ∷ ds) else c ∷ d ∷ ds

-- `greatest - least > BOUNDARY_MAX_SPAN`
unfoldable pub exceeds_span : List ℤ → Bool
exceeds_span [] = false
exceeds_span (a ∷ rest) = ltb_ℤ max_span (greatest a rest -ℤ least a rest)

-- the tests after the loop
unfoldable pub check_corners : List Corner → Result BoundaryError (List Corner)
unfolding exceeds_span
check_corners corners =
    if not (leb 3 (length corners) && leb (length corners) 50)
    then raise (corner_count (length corners))
    else if exceeds_span (map (λ (c : Corner). c.latitude) corners)
        || exceeds_span (map (λ (c : Corner). c.longitude) corners)
    then raise too_wide
    else ok corners

unfoldable pub parse_boundary : Text → Result BoundaryError (List Corner)
parse_boundary t =
    if ltb max_length (length t)
    then raise too_long
    else (do corners ← parse_corners (split 59 t); check_corners (open_loop corners))
