-- ===== src/Menu/Rank/KeyOrder.antt =====
-- Canonical provenance keys, nested sequences of strings, in the order that `_orderable` gives
-- them: at a position a string comes before a nested key.
use Prim.Native.Nat.{Ordering}
use first_helios.Base.{arith, ◌≡◌, refl}
use first_helios.Base.Order.{IsOrder, flip, then_by}
use first_helios.Base.Text.{Text, cmp_text, cmp_text-IsOrder}

mutual
  pub data KeyPart : Type 0 where
    text : Text → KeyPart
    nested : KeyParts → KeyPart

  pub data KeyParts : Type 0 where
    end : KeyParts
    part : KeyPart → KeyParts → KeyParts

unfoldable mutual
  cmp_part : KeyPart → KeyPart → Ordering
  cmp_part (text s) (text t) = cmp_text s t
  cmp_part (text s) (nested q) = Ordering.lt
  cmp_part (nested p) (text t) = Ordering.gt
  cmp_part (nested p) (nested q) = cmp_parts p q

  pub cmp_parts : KeyParts → KeyParts → Ordering
  cmp_parts end end = Ordering.eq
  cmp_parts end (part q qs) = Ordering.lt
  cmp_parts (part p ps) end = Ordering.gt
  cmp_parts (part p ps) (part q qs) = then_by (cmp_part p q) (cmp_parts ps qs)

mutual
  unfolding cmp_part cmp_parts

  part_same : (p q : KeyPart) → cmp_part p q ≡ Ordering.eq → p ≡ q
  part_same (text s) (text t) h = ground (arith, cmp_text-IsOrder.same s t)
  part_same (text s) (nested q) h = cc
  part_same (nested p) (text t) h = cc
  part_same (nested p) (nested q) h = ground (arith, parts_same p q)

  parts_same : (p q : KeyParts) → cmp_parts p q ≡ Ordering.eq → p ≡ q
  parts_same end end h = refl
  parts_same end (part q qs) h = cc
  parts_same (part p ps) end h = cc
  parts_same (part p ps) (part q qs) h = ground (arith, part_same p q, parts_same ps qs)

mutual
  unfolding cmp_part cmp_parts

  part_flips : (p q : KeyPart) → cmp_part q p ≡ flip (cmp_part p q)
  part_flips (text s) (text t) = cmp_text-IsOrder.flips s t
  part_flips (text s) (nested q) = refl
  part_flips (nested p) (text t) = refl
  part_flips (nested p) (nested q) = parts_flips p q

  parts_flips : (p q : KeyParts) → cmp_parts q p ≡ flip (cmp_parts p q)
  parts_flips end end = refl
  parts_flips end (part q qs) = refl
  parts_flips (part p ps) end = refl
  parts_flips (part p ps) (part q qs) = ground (arith, part_flips p q, parts_flips ps qs)

mutual
  unfolding cmp_part cmp_parts

  part_lt_trans :
      (p q r : KeyPart)
      → cmp_part p q ≡ Ordering.lt
      → cmp_part q r ≡ Ordering.lt
      → cmp_part p r ≡ Ordering.lt
  part_lt_trans (text s) (text t) (text u) h k = cmp_text-IsOrder.lt_trans s t u h k
  part_lt_trans (text s) (text t) (nested r) h k = refl
  part_lt_trans (text s) (nested q) (text u) h k = cc
  part_lt_trans (text s) (nested q) (nested r) h k = refl
  part_lt_trans (nested p) (text t) r h k = cc
  part_lt_trans (nested p) (nested q) (text u) h k = cc
  part_lt_trans (nested p) (nested q) (nested r) h k = parts_lt_trans p q r h k

  parts_lt_trans :
      (p q r : KeyParts)
      → cmp_parts p q ≡ Ordering.lt
      → cmp_parts q r ≡ Ordering.lt
      → cmp_parts p r ≡ Ordering.lt
  parts_lt_trans end end r h k = cc
  parts_lt_trans end (part q qs) end h k = cc
  parts_lt_trans end (part q qs) (part r rs) h k = refl
  parts_lt_trans (part p ps) end r h k = cc
  parts_lt_trans (part p ps) (part q qs) end h k = cc
  parts_lt_trans (part p ps) (part q qs) (part r rs) h k =
      ground (arith, part_same p q, part_same q r, part_lt_trans p q r, parts_lt_trans ps qs rs)

pub cmp_parts-IsOrder : IsOrder cmp_parts
cmp_parts-IsOrder = record { same = parts_same; flips = parts_flips; lt_trans = parts_lt_trans }
