-- ===== src/Gold/Boundary/Edges.antt =====
-- One edge of an area, from both its ends (`Boundary.contains`).
use first_helios.Base.{ℕ, ◌+◌, ◌*◌, arith, ◌≡◌, ltb}
use first_helios.Base.Int.{ℤ, ◌-ℤ◌, ◌*ℤ◌, ltb_ℤ, pos_part, neg_part, -ℤ_parts, *ℤ_of_differences}
use first_helios.Gold.Boundary.{Corner, toggles}

-- The product of two differences.
pub product_parts :
    (a b c d : ℤ)
    → pos_part ((a -ℤ b) *ℤ (c -ℤ d))
        + ((pos_part a + neg_part b) * (neg_part c + pos_part d)
            + (neg_part a + pos_part b) * (pos_part c + neg_part d))
      ≡ neg_part ((a -ℤ b) *ℤ (c -ℤ d))
        + ((pos_part a + neg_part b) * (pos_part c + neg_part d)
            + (neg_part a + pos_part b) * (neg_part c + pos_part d))
product_parts a b c d =
    *ℤ_of_differences (a -ℤ b) (c -ℤ d) (pos_part a + neg_part b) (neg_part a + pos_part b)
      (pos_part c + neg_part d) (neg_part c + pos_part d) (omega (arith, -ℤ_parts a b))
      (omega (arith, -ℤ_parts c d))

ltb_shift : (a b c d : ℕ) → a + d ≡ b + c → ltb a b ≡ ltb c d
ltb_shift a b c d h = ground arith

-- Which side of the line through two corners the point is on, from either corner.
side_swaps :
    (y x yi xi yj xj : ℤ)
    → ltb_ℤ ((x -ℤ xi) *ℤ (yj -ℤ yi)) ((xj -ℤ xi) *ℤ (y -ℤ yi))
      ≡ ltb_ℤ ((xi -ℤ xj) *ℤ (y -ℤ yj)) ((x -ℤ xj) *ℤ (yi -ℤ yj))
side_swaps y x yi xi yj xj = ltb_shift _ _ _ _ (
    omega (
      arith,
      product_parts x xi yj yi,
      product_parts xj xi y yi,
      product_parts xi xj y yj,
      product_parts x xj yi yj,
    ))

pub toggles_swap : (y x : ℤ) (i j : Corner) → toggles y x i j ≡ toggles y x j i
unfolding toggles
toggles_swap y x i j = ground (
  arith,
  side_swaps y x i.latitude i.longitude j.latitude j.longitude,
  side_swaps y x j.latitude j.longitude i.latitude i.longitude,
)
