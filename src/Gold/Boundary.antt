-- ===== src/Gold/Boundary.antt =====
-- A drawn area and the points inside it (`Boundary` of packages/helios_core/gold/price_index.py).
-- Coordinates are decimals with at most six places: integers of micro-degrees. The 64 digits of
-- the source's decimal context hold every difference and product of such numbers exactly.
pub mod Edges
pub mod Rectangle
pub mod Loop
use first_helios.Base.{Bool, true, false, List, [], ◌∷◌, ◌&&◌, ◌||◌, arith, ◌≡◌, not, if◌then◌else◌}
use first_helios.Base.Int.{ℤ, ◌-ℤ◌, ◌*ℤ◌, ltb_ℤ, leb_ℤ}

pub record Corner : Type 0 where
  pub latitude : ℤ
  pub longitude : ℤ

-- `a != b` of two tests
abbrev pub differ : Bool → Bool → Bool
differ true b = not b
differ false b = b

-- `min` and `max` over the corners
unfoldable pub least : ℤ → List ℤ → ℤ
least a [] = a
least a (b ∷ bs) = least (if ltb_ℤ b a then b else a) bs

unfoldable pub greatest : ℤ → List ℤ → ℤ
greatest a [] = a
greatest a (b ∷ bs) = greatest (if ltb_ℤ a b then b else a) bs

-- One edge, from `corner` to the corner before it, counts for the point.
unfoldable pub toggles : ℤ → ℤ → Corner → Corner → Bool
toggles latitude longitude corner previous =
    let left = (longitude -ℤ corner.longitude) *ℤ (previous.latitude -ℤ corner.latitude) in
    let right = (previous.longitude -ℤ corner.longitude) *ℤ (latitude -ℤ corner.latitude) in
    differ (ltb_ℤ latitude corner.latitude) (ltb_ℤ latitude previous.latitude)
    && (if ltb_ℤ corner.latitude previous.latitude then ltb_ℤ left right else ltb_ℤ right left)

-- the loop over the corners
unfoldable pub scan : ℤ → ℤ → Bool → Corner → List Corner → Bool
scan latitude longitude inside previous [] = inside
scan latitude longitude inside previous (corner ∷ corners) =
    scan latitude longitude
      (if toggles latitude longitude corner previous then not inside else inside) corner corners

-- `corners[-1]` of the corners behind a first one
unfoldable pub last : Corner → List Corner → Corner
last c [] = c
last c (d ∷ ds) = last d ds

-- `Boundary.contains`. A boundary has at least three corners, so the first case does not arise.
unfoldable pub contains : List Corner → ℤ → ℤ → Bool
unfolding scan last
contains [] latitude longitude = false
contains (c ∷ cs) latitude longitude = scan latitude longitude false (last c cs) (c ∷ cs)
