-- ===== src/Gold/Boundary/Rectangle.antt =====
-- The ray casting of `Boundary.contains` on an axis-aligned rectangle.
use first_helios.Base.{
  ℕ, ◌+◌, ◌*◌, ◌<◌, ◌≤◌, false, [], ◌∷◌, ◌&&◌, arith, ◌≡◌, ltb, suc, zero, ◌-◌, subst,
}
use first_helios.Base.Int.{ℤ, ◌-ℤ◌, ◌*ℤ◌, ◌<ℤ◌, ltb_ℤ, leb_ℤ, pos_part, neg_part}
use first_helios.Gold.Boundary.{toggles, scan, last, contains}
use first_helios.Gold.Boundary.Edges.{product_parts, toggles_swap}

mul_le : (x y k : ℕ) → x ≤ y → x * k ≤ y * k
mul_le x y zero h = omega arith
mul_le x y (suc k) h = omega (arith, mul_le x y k h)

-- A difference times a positive difference has its sign.
crossed :
    (p n e k l r : ℕ)
    → l + (p * e + n * (e + suc k)) ≡ r + (p * (e + suc k) + n * e)
    → ltb l r ≡ ltb p n
crossed p n e k l r h = ground (arith, mul_le p n k, mul_le n p k)

scaled : (p n d e l r : ℕ) → e < d → l + (p * e + n * d) ≡ r + (p * d + n * e) → ltb l r ≡ ltb p n
scaled p n d e l r h q =
    crossed p n e (d - suc e) l r (subst (λ x. l + (p * e + n * x) ≡ r + (p * x + n * e)) split q)
  where
    split : d ≡ e + suc (d - suc e)
    split = omega arith

-- On a vertical edge that rises from `a` to `b`, the crossing is west of `c` or not.
rises : (x c a b y : ℤ) → a <ℤ b → ltb_ℤ ((x -ℤ c) *ℤ (b -ℤ a)) ((c -ℤ c) *ℤ (y -ℤ a)) ≡ ltb_ℤ x c
rises x c a b y h =
    scaled (pos_part x + neg_part c) (pos_part c + neg_part x) (pos_part b + neg_part a)
      (pos_part a + neg_part b) _ _ (omega arith)
      (omega (arith, product_parts x c b a, product_parts c c y a))

-- a vertical edge, upwards and downwards
vertical :
    (y x c a b : ℤ)
    → a <ℤ b
    → toggles y x (record { latitude = a; longitude = c }) (record { latitude = b; longitude = c })
      ≡ (leb_ℤ a y && (ltb_ℤ y b && ltb_ℤ x c))
unfolding toggles
vertical y x c a b h = ground (arith, rises x c a b y h)

level :
    (y x a : ℤ) (i j : ℤ)
    → toggles y x (record { latitude = a; longitude = i }) (record { latitude = a; longitude = j })
      ≡ false
unfolding toggles
level y x a i j = ground arith

-- On the rectangle from the south-west corner (s, w) to the north-east corner (n, e), a point is inside exactly if its latitude is in [s, n) and its longitude is in [w, e).
pub contains-rectangle :
    (s w n e y x : ℤ)
    → s <ℤ n
    → w <ℤ e
    → contains
        (record { latitude = s; longitude = w }
          ∷ record { latitude = s; longitude = e }
          ∷ record { latitude = n; longitude = e }
          ∷ record { latitude = n; longitude = w }
          ∷ [])
        y
        x
      ≡ ((leb_ℤ s y && ltb_ℤ y n) && (leb_ℤ w x && ltb_ℤ x e))
unfolding contains scan last
contains-rectangle s w n e y x hs hw =
    rw
      (
        level y x s e w,
        level y x n w e,
        vertical y x w s n hs,
        toggles_swap y x (record { latitude = n; longitude = e })
            (record { latitude = s; longitude = e }),
        vertical y x e s n hs,
      )
      (ground arith)
