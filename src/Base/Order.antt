-- ===== src/Base/Order.antt =====
-- Three-way comparisons that are linear orders, Python's order of tuples and strings, and a
-- stable sort (`sorted(..., key=...)`) with the laws of its first element.
use first_helios.Base.Tests.{if◌then◌else◌, Bool-cases}
use first_helios.Base.Lists.{In}
use Prim.Native.Nat.{ℕ, compare, Ordering}
use mathlib.Core.Path.{◌≡◌, refl, sym}
use mathlib.Core.Bool.{Bool, true, false}
use mathlib.Core.Logic.{inl, inr}
use mathlib.Core.List.{List, [], ◌∷◌}
use native.Mathlib.Omega.{arith}

abbrev pub flip : Ordering → Ordering
flip Ordering.lt = Ordering.gt
flip Ordering.eq = Ordering.eq
flip Ordering.gt = Ordering.lt

-- the later comparison decides where the earlier one finds no difference
abbrev pub then_by : Ordering → Ordering → Ordering
then_by Ordering.lt o = Ordering.lt
then_by Ordering.eq o = o
then_by Ordering.gt o = Ordering.gt

pub record IsOrder {ℓ} {A : Type ℓ} (cmp : A → A → Ordering) : Type ℓ where
  pub same : (a b : A) → cmp a b ≡ Ordering.eq → a ≡ b
  pub flips : (a b : A) → cmp b a ≡ flip (cmp a b)
  pub lt_trans : (a b c : A) → cmp a b ≡ Ordering.lt → cmp b c ≡ Ordering.lt → cmp a c ≡ Ordering.lt

abbrev pub cmp_ℕ : ℕ → ℕ → Ordering
cmp_ℕ a b = compare a b

pub cmp_ℕ-IsOrder : IsOrder cmp_ℕ
cmp_ℕ-IsOrder = record {
  same = λ a b h. ground arith;
  flips = λ a b. ground arith;
  lt_trans = λ a b c h k. ground arith;
}

-- The order reversed: a key that is negated.
abbrev pub desc {ℓ} : {A : Type ℓ} → (A → A → Ordering) → A → A → Ordering
desc cmp a b = cmp b a

pub desc-IsOrder {ℓ} : {A : Type ℓ} {cmp : A → A → Ordering} → IsOrder cmp → IsOrder (desc cmp)
desc-IsOrder o = record {
  same = λ a b h. sym (o.same b a h);
  flips = λ a b. o.flips b a;
  lt_trans = λ a b c h k. o.lt_trans c b a k h;
}

-- Python's order of pairs.
abbrev pub cmp_pair {ℓ κ} :
    {A : Type ℓ} {B : Type κ} → (A → A → Ordering) → (B → B → Ordering) → A × B → A × B → Ordering
cmp_pair ca cb (a, b) (a', b') = then_by (ca a a') (cb b b')

module _ {A B : Type 0} {ca : A → A → Ordering} {cb : B → B → Ordering} (oa : IsOrder ca)
    (ob : IsOrder cb) where
  pair_lt_trans :
      (p q r : A × B)
      → cmp_pair ca cb p q ≡ Ordering.lt
      → cmp_pair ca cb q r ≡ Ordering.lt
      → cmp_pair ca cb p r ≡ Ordering.lt
  pair_lt_trans (a, b) (a', b') (a2, b2) h k = ground (
    arith,
    oa.same a a',
    oa.same a' a2,
    oa.same a a2,
    oa.flips a a',
    oa.flips a' a2,
    oa.lt_trans a a' a2,
    ob.lt_trans b b' b2,
  )

  pub cmp_pair-IsOrder : IsOrder (cmp_pair ca cb)
  cmp_pair-IsOrder = record {
    same = λ p q h. pair_same p q h;
    flips = λ p q. pair_flips p q;
    lt_trans = pair_lt_trans;
  }
    where
      pair_same : (p q : A × B) → cmp_pair ca cb p q ≡ Ordering.eq → p ≡ q
      pair_same (a, b) (a', b') h = ground (arith, oa.same a a', ob.same b b')

      pair_flips : (p q : A × B) → cmp_pair ca cb q p ≡ flip (cmp_pair ca cb p q)
      pair_flips (a, b) (a', b') = ground (arith, oa.flips a a', ob.flips b b')

-- Python's order of sequences: the first difference decides, and a prefix comes first.
abbrev pub cmp_list {ℓ} : {A : Type ℓ} → (A → A → Ordering) → List A → List A → Ordering
cmp_list cmp [] [] = Ordering.eq
cmp_list cmp [] (y ∷ ys) = Ordering.lt
cmp_list cmp (x ∷ xs) [] = Ordering.gt
cmp_list cmp (x ∷ xs) (y ∷ ys) = then_by (cmp x y) (cmp_list cmp xs ys)

module _ {A : Type 0} {cmp : A → A → Ordering} (o : IsOrder cmp) where
  list_same : (xs ys : List A) → cmp_list cmp xs ys ≡ Ordering.eq → xs ≡ ys
  list_same [] [] h = refl
  list_same [] (y ∷ ys) h = cc
  list_same (x ∷ xs) [] h = cc
  list_same (x ∷ xs) (y ∷ ys) h = ground (arith, o.same x y, list_same xs ys)

  list_flips : (xs ys : List A) → cmp_list cmp ys xs ≡ flip (cmp_list cmp xs ys)
  list_flips [] [] = refl
  list_flips [] (y ∷ ys) = refl
  list_flips (x ∷ xs) [] = refl
  list_flips (x ∷ xs) (y ∷ ys) = ground (arith, o.flips x y, list_flips xs ys)

  list_lt_trans :
      (xs ys zs : List A)
      → cmp_list cmp xs ys ≡ Ordering.lt
      → cmp_list cmp ys zs ≡ Ordering.lt
      → cmp_list cmp xs zs ≡ Ordering.lt
  list_lt_trans [] [] zs h k = cc
  list_lt_trans [] (y ∷ ys) [] h k = cc
  list_lt_trans [] (y ∷ ys) (z ∷ zs) h k = refl
  list_lt_trans (x ∷ xs) [] zs h k = cc
  list_lt_trans (x ∷ xs) (y ∷ ys) [] h k = cc
  list_lt_trans (x ∷ xs) (y ∷ ys) (z ∷ zs) h k =
      ground (arith, o.same x y, o.same y z, o.lt_trans x y z, list_lt_trans xs ys zs)

  pub cmp_list-IsOrder : IsOrder (cmp_list cmp)
  cmp_list-IsOrder = record { same = list_same; flips = list_flips; lt_trans = list_lt_trans }

-- A key function orders its domain, up to the equality of keys.
module _ {A K : Type 0} (cmp : K → K → Ordering) (key : A → K) where
  -- `a` may stand before `b`: its key is not greater.
  abbrev pub not_after : A → A → Bool
  not_after a b = elim (cmp (key a) (key b)) [ Ordering.gt ↦ false | _ ↦ true ]

  -- Before the first element that it may precede, so that equal keys keep their order.
  unfoldable pub insert_sorted : A → List A → List A
  insert_sorted a [] = a ∷ []
  insert_sorted a (b ∷ bs) =
      let rest = insert_sorted a bs in if not_after a b then a ∷ b ∷ bs else b ∷ rest

  -- `sorted(xs, key=key)`
  unfoldable pub sort_by : List A → List A
  unfolding insert_sorted
  sort_by [] = []
  sort_by (x ∷ xs) = insert_sorted x (sort_by xs)

  In-insert_sorted : (c a : A) (bs : List A) → In c (insert_sorted a bs) → In c (a ∷ bs)
  unfolding insert_sorted
  In-insert_sorted c a [] m = m
  In-insert_sorted c a (b ∷ bs) m = ground (arith, In-insert_sorted c a bs)

  insert_sorted-In : (c a : A) (bs : List A) → In c (a ∷ bs) → In c (insert_sorted a bs)
  unfolding insert_sorted
  insert_sorted-In c a [] m = m
  insert_sorted-In c a (b ∷ bs) m = ground (arith, insert_sorted-In c a bs)

  -- Sorting keeps the elements.
  pub In-sort_by : (c : A) (xs : List A) → In c (sort_by xs) → In c xs
  unfolding sort_by
  In-sort_by c [] m = m
  In-sort_by c (x ∷ xs) m = ground (arith, In-insert_sorted c x (sort_by xs), In-sort_by c xs)

  pub sort_by-In : (c : A) (xs : List A) → In c xs → In c (sort_by xs)
  unfolding sort_by
  sort_by-In c [] m = m
  sort_by-In c (x ∷ xs) m = ground (arith, insert_sorted-In c x (sort_by xs), sort_by-In c xs)

  -- each element may precede all that follow it
  pub data IsSorted : List A → Type 0 where
    nil : IsSorted []
    cons :
        (a : A) (bs : List A)
        → ((b : A) → In b bs → not_after a b ≡ true)
        → IsSorted bs
        → IsSorted (a ∷ bs)

  module _ (o : IsOrder cmp) where
    not_after_trans :
        (a b c : A) → not_after a b ≡ true → not_after b c ≡ true → not_after a c ≡ true
    not_after_trans a b c h k =
        ground (
          arith,
          o.same (key a) (key b),
          o.same (key b) (key c),
          o.lt_trans (key a) (key b) (key c),
        )

    not_after_total : (a b : A) → not_after a b ≡ false → not_after b a ≡ true
    not_after_total a b h = ground (arith, o.flips (key a) (key b))

    insert_sorted-IsSorted : (a : A) (bs : List A) → IsSorted bs → IsSorted (insert_sorted a bs)
    unfolding insert_sorted
    insert_sorted-IsSorted a [] s = cons a [] (λ b m. elim m [ ]) nil
    insert_sorted-IsSorted a (b ∷ bs) (cons _ _ h s) = elim (Bool-cases (not_after a b)) [
      | inl e ↦ rw e (cons a (b ∷ bs) (λ c m. first e c m) (cons b bs h s))
      | inr e ↦ rw e (
          cons b (insert_sorted a bs) (λ c m. later e c (In-insert_sorted c a bs m))
            (insert_sorted-IsSorted a bs s))
    ]
      where
        first : not_after a b ≡ true → (c : A) → In c (b ∷ bs) → not_after a c ≡ true
        first e c (inl p) = rw p e
        first e c (inr m) = not_after_trans a b c e (h c m)

        later : not_after a b ≡ false → (c : A) → In c (a ∷ bs) → not_after b c ≡ true
        later e c (inl p) = rw p (not_after_total a b e)
        later e c (inr m) = h c m

    pub sort_by-IsSorted : (xs : List A) → IsSorted (sort_by xs)
    unfolding sort_by
    sort_by-IsSorted [] = nil
    sort_by-IsSorted (x ∷ xs) = insert_sorted-IsSorted x (sort_by xs) (sort_by-IsSorted xs)

    -- The first of the sorted list has a least key.
    pub sort_by-least :
        (xs : List A) {w : A} {ws : List A}
        → sort_by xs ≡ w ∷ ws
        → (b : A) → In b xs
        → not_after w b ≡ true
    sort_by-least xs {w} {ws} e b m =
        least (rw e at (sort_by-IsSorted xs)) (rw e at (sort_by-In b xs m))
      where
        least : IsSorted (w ∷ ws) → In b (w ∷ ws) → not_after w b ≡ true
        least (cons _ _ h s) (inl p) = rw p (ground (arith, o.flips (key w) (key w)))
        least (cons _ _ h s) (inr i) = h b i
