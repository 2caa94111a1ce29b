-- ===== src/Gold/Grid.antt =====
-- The grid cell of a point (`grid_cell` of packages/helios_core/gold/price_index.py), over integers
-- of micro-degrees: the steps 0.01 and 0.05 are 10000 and 50000. The text of the cell's key is not
-- modelled.
use Prim.Native.Nat.{◌/◌}
use native.Mathlib.Omega.{div_any}
use native.Mathlib.Nat.{mod-lt}
use first_helios.Base.{ℕ, ◌<◌, arith, ◌≡◌}
use first_helios.Base.Int.{ℤ, pos, negsuc, ◌*ℤ◌, ◌+ℤ◌, ◌≤ℤ◌, ◌<ℤ◌, *ℤ_parts, +ℤ_parts}
use first_helios.Gold.Boundary.{Corner}

abbrev pub grid_step : ℕ
grid_step = 10000

abbrev pub wide_step : ℕ
wide_step = 50000

-- `(value / step).to_integral_value(ROUND_FLOOR)`
unfoldable pub floor_div : ℤ → ℕ → ℤ
floor_div (pos n) step = pos (n / step)
floor_div (negsuc n) step = negsuc (n / step)

unfoldable pub floor_to : ℤ → ℕ → ℤ
unfolding floor_div
floor_to value step = floor_div value step *ℤ pos step

unfoldable pub grid_cell : ℤ → ℤ → ℕ → Corner
unfolding floor_to
grid_cell latitude longitude step = record {
  latitude = floor_to latitude step;
  longitude = floor_to longitude step;
}

-- A value lies between its multiple and the next one.
floor_holds :
    (v : ℤ) (step : ℕ) → 0 < step → (floor_to v step ≤ℤ v) × (v <ℤ floor_to v step +ℤ pos step)
unfolding floor_to
floor_holds (pos n) step h = (
  omega (arith, *ℤ_parts (pos (n / step)) (pos step), div_any n step),
  omega (
    arith,
    *ℤ_parts (pos (n / step)) (pos step),
    +ℤ_parts (pos (n / step) *ℤ pos step) (pos step),
    div_any n step,
    mod-lt n h,
  ),
)
floor_holds (negsuc n) step h = (
  omega (arith, *ℤ_parts (negsuc (n / step)) (pos step), div_any n step, mod-lt n h),
  omega (
    arith,
    *ℤ_parts (negsuc (n / step)) (pos step),
    +ℤ_parts (negsuc (n / step) *ℤ pos step) (pos step),
    div_any n step,
  ),
)

floor_nested : (v : ℤ) → floor_to (floor_to v grid_step) wide_step ≡ floor_to v wide_step
unfolding floor_to ◌*ℤ◌
floor_nested (pos n) = ground arith
floor_nested (negsuc n) = ground arith

-- The cell holds its point: in each coordinate the corner is at or below the point, by less than one step.
pub grid_cell-holds :
    (latitude longitude : ℤ) (step : ℕ)
    → 0 < step
    → ((grid_cell latitude longitude step).latitude ≤ℤ latitude)
      × (latitude <ℤ (grid_cell latitude longitude step).latitude +ℤ pos step)
      × ((grid_cell latitude longitude step).longitude ≤ℤ longitude)
      × (longitude <ℤ (grid_cell latitude longitude step).longitude +ℤ pos step)
unfolding grid_cell
grid_cell-holds latitude longitude step h =
    let (a, b) = floor_holds latitude step h in
    let (c, d) = floor_holds longitude step h in (a, b, c, d)

-- Each 0.01° cell lies in one 0.05° cell: the wide cell of a point is that of its narrow cell's corner.
pub grid_cell-nested :
    (latitude longitude : ℤ)
    → grid_cell
        (grid_cell latitude longitude grid_step).latitude
        (grid_cell latitude longitude grid_step).longitude
        wide_step
      ≡ grid_cell latitude longitude wide_step
unfolding grid_cell
grid_cell-nested latitude longitude = rw (floor_nested latitude, floor_nested longitude)
