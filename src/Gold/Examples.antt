-- ===== src/Gold/Examples.antt =====
-- A square degree and its text, and the theorems on areas applied to them.
use first_helios.Base.{ℕ, true, false, List, [], ◌∷◌, ◌++◌, ◌&&◌, arith, ◌≡◌, refl, all}
use first_helios.Base.Text.{Text, codes}
use first_helios.Base.Int.{pos, negsuc, ◌-ℤ◌, ◌*ℤ◌, ◌+ℤ◌, ◌≤ℤ◌, ◌<ℤ◌, ltb_ℤ, leb_ℤ}
use first_helios.Base.Results.{ok}
use first_helios.Gold.Boundary.{Corner, contains, least, greatest, toggles, scan, last}
use first_helios.Gold.Boundary.Rectangle.{contains-rectangle}
use first_helios.Gold.Boundary.Loop.{contains-rotated, contains-closed}
use first_helios.Gold.BoundaryText.{
  split, plain_decimal, within, coordinate, pair_corner, parse_corners, open_loop, exceeds_span,
  check_corners, parse_boundary,
}
use first_helios.Gold.BoundaryText.Limits.{KeepsLimits, parse_boundary-KeepsLimits}
use first_helios.Gold.Grid.{floor_div, floor_to, grid_cell, grid_cell-holds}

program : Unit {0}
unfolding ◌-ℤ◌ ◌*ℤ◌ ◌+ℤ◌ all toggles scan last contains least greatest split plain_decimal within
    coordinate pair_corner parse_corners open_loop exceeds_span check_corners parse_boundary
    floor_div floor_to grid_cell
program = tt

abbrev corner_at : ℕ → ℕ → Corner
corner_at a b = record { latitude = pos a; longitude = pos b }

-- one degree, from 30 to 31 and from 40 to 41
abbrev square : List Corner
square =
    corner_at 30000000 40000000
    ∷ corner_at 30000000 41000000
    ∷ corner_at 31000000 41000000
    ∷ corner_at 31000000 40000000
    ∷ []

abbrev square_text : Text
square_text = codes "30,40;30,41;31,41;31,40.0;30,40"

contains-rectangle_example : contains square (pos 30500000) (pos 40500000) ≡ (
    (leb_ℤ (pos 30000000) (pos 30500000) && ltb_ℤ (pos 30500000) (pos 31000000))
    && (leb_ℤ (pos 40000000) (pos 40500000) && ltb_ℤ (pos 40500000) (pos 41000000)))
contains-rectangle_example =
    contains-rectangle (pos 30000000) (pos 40000000) (pos 31000000) (pos 41000000) (pos 30500000)
      (pos 40500000) (omega arith) (omega arith)

contains-rotated_example :
    contains square (pos 30500000) (pos 40500000)
    ≡ contains
        (corner_at 30000000 41000000
          ∷ corner_at 31000000 41000000
          ∷ corner_at 31000000 40000000
          ∷ corner_at 30000000 40000000
          ∷ [])
        (pos 30500000)
        (pos 40500000)
contains-rotated_example =
    contains-rotated (pos 30500000) (pos 40500000) (corner_at 30000000 40000000)
      (corner_at 30000000 41000000) (corner_at 31000000 41000000 ∷ corner_at 31000000 40000000 ∷ [])

contains-closed_example :
    contains (square ++ corner_at 30000000 40000000 ∷ []) (pos 30500000) (pos 40500000)
    ≡ contains square (pos 30500000) (pos 40500000)
contains-closed_example =
    contains-closed (pos 30500000) (pos 40500000) (corner_at 30000000 40000000)
      (corner_at 30000000 41000000 ∷ corner_at 31000000 41000000 ∷ corner_at 31000000 40000000 ∷ [])

parse_boundary-KeepsLimits_example : KeepsLimits square
parse_boundary-KeepsLimits_example =
    parse_boundary-KeepsLimits square_text square (unfold program in refl)

grid_cell-holds_example :
    ((grid_cell (negsuc 12344) (pos 56789) 10000).latitude ≤ℤ negsuc 12344)
    × (negsuc 12344 <ℤ (grid_cell (negsuc 12344) (pos 56789) 10000).latitude +ℤ pos 10000)
    × ((grid_cell (negsuc 12344) (pos 56789) 10000).longitude ≤ℤ pos 56789)
    × (pos 56789 <ℤ (grid_cell (negsuc 12344) (pos 56789) 10000).longitude +ℤ pos 10000)
grid_cell-holds_example = grid_cell-holds (negsuc 12344) (pos 56789) 10000 (omega arith)

-- A point on the south-west corner is inside, one on the north-east corner is not.
corners_run :
    (contains square (pos 30000000) (pos 40000000) ≡ true)
    × (contains square (pos 31000000) (pos 41000000) ≡ false)
unfolding program
corners_run = (refl, refl)

-- Of two closing repeats only the last is dropped.
repeated_twice_run :
    parse_boundary (codes "30,40;30,41;31,41;30,40;30,40")
    ≡ ok (
        corner_at 30000000 40000000
        ∷ corner_at 30000000 41000000
        ∷ corner_at 31000000 41000000
        ∷ corner_at 30000000 40000000
        ∷ [])
unfolding program
repeated_twice_run = refl
