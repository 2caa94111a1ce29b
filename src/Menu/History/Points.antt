-- ===== src/Menu/History/Points.antt =====
-- What the points of a trail say (packages/helios_core/domains/menu/history.py).
use first_helios.Base.{&&-true}
use first_helios.Base.{
  ℕ, Bool, true, false, Option, none, some, List, [], ◌∷◌, ◌&&◌, not, leb, ◌<◌, ◌≤◌, ◌≡◌, refl, ap,
  ◌∙◌, sym, subst, arith, In, inl, inr, Bool-cases, if◌then◌else◌,
}
use first_helios.Base.Int.{ℤ}
use first_helios.Menu.Session.{Session, LocalState}
use first_helios.Menu.Price.{PriceResult}
use first_helios.Menu.History.{HistoryPoint, Claim, Family}
use first_helios.Menu.History.Trail.{
  PointKey, same_as_last, same_amount, state_number, point_key, point_of, answer_at, counts,
  trail_points,
}
use first_helios.Menu.History.Instants.{Ascending}

same_state_lem : (s t : LocalState) → state_number s ≡ state_number t → s ≡ t
unfolding state_number
same_state_lem s t h = ground arith

same_amount_lem : (a b : Option ℤ) → same_amount a b ≡ true → a ≡ b
unfolding same_amount
same_amount_lem a b h = ground arith

-- state and amount
abbrev pub Shown : Type 0
Shown = LocalState × Option ℤ

unfoldable pub shown : PriceResult → Shown
shown price = (price.state, price.amount_minor)

unfoldable pub shown_key : Option PointKey → Option Shown
shown_key none = none
shown_key (some (state, (amount, page))) = some (state, amount)

same_as_last-shown :
    (price : PriceResult) (last : Option PointKey)
    → same_as_last (point_key price) last ≡ true
    → shown_key last ≡ some (shown price)
unfolding same_as_last point_key shown shown_key
same_as_last-shown price none h = cc
same_as_last-shown price (some (s, (a, p))) h =
    ground (arith, same_state_lem price.state s, same_amount_lem price.amount_minor a)

-- What a trail says at an instant: the last point that is known by then.
unfoldable pub value_at : Option Shown → List HistoryPoint → ℕ → Option Shown
value_at last [] instant = last
value_at last (p ∷ ps) instant =
    let rest = value_at (some (p.state, p.amount_minor)) ps instant in
    if leb p.known_from instant then rest else last

value_at_point :
    (said : Option Shown) (i : ℕ) (price : PriceResult) (ps : List HistoryPoint) (k : ℕ)
    → i ≤ k
    → value_at said (point_of i price ∷ ps) k ≡ value_at (some (shown price)) ps k
unfolding value_at point_of shown
value_at_point said i price ps k h = ground arith

value_at_early :
    (said : Option Shown) (i : ℕ) (price : PriceResult) (ps : List HistoryPoint) (k : ℕ)
    → k < i
    → value_at said (point_of i price ∷ ps) k ≡ said
unfolding value_at point_of
value_at_early said i price ps k h = ground arith

module _ (session : Session) (family : Family) (claim : Claim) where
  unfoldable pub answer : ℕ → PriceResult
  answer i = answer_at session family claim i

  unfoldable pub points : List ℕ → Option PointKey → List HistoryPoint
  points is last = trail_points session family claim is last

  -- The trail has a point here.
  emits : ℕ → Option PointKey → Bool
  emits i last =
      counts session family claim i
      && not (same_as_last (point_key (answer_at session family claim i)) last)

  points_skip :
      (i : ℕ) (is : List ℕ) (last : Option PointKey)
      → emits i last ≡ false
      → points (i ∷ is) last ≡ points is last
  unfolding trail_points points emits answer
  points_skip i is last c =
      ap
        (λ b.
          if b
          then point_of i (answer i) ∷ points is (some (point_key (answer i)))
          else points is last)
        c

  points_emit :
      (i : ℕ) (is : List ℕ) (last : Option PointKey)
      → emits i last ≡ true
      → points (i ∷ is) last ≡ point_of i (answer i) ∷ points is (some (point_key (answer i)))
  unfolding trail_points points emits answer
  points_emit i is last c =
      ap
        (λ b.
          if b
          then point_of i (answer i) ∷ points is (some (point_key (answer i)))
          else points is last)
        c

  -- Before the first instant a trail says nothing new.
  points_before :
      (is : List ℕ) (last : Option PointKey) (said : Option Shown) (j : ℕ)
      → ((i : ℕ) → In i is → j < i)
      → value_at said (points is last) j ≡ said
  unfolding value_at trail_points points
  points_before [] last said j h = refl
  points_before (i ∷ is) last said j h = elim (Bool-cases (emits i last)) [
    | inl c ↦
        ap (λ ps. value_at said ps j) (points_emit i is last c)
        ∙ value_at_early said i (answer i) _ j (h i (inl refl))
    | inr c ↦
        ap (λ ps. value_at said ps j) (points_skip i is last c)
        ∙ points_before is last said j (λ k m. h k (inr m))
  ]

  -- A point that is not emitted at an own answer repeats the last.
  kept_key :
      (i : ℕ) (last : Option PointKey)
      → counts session family claim i ≡ true
      → emits i last ≡ false
      → shown_key last ≡ some (shown (answer i))
  unfolding emits answer
  kept_key i last own c = same_as_last-shown (answer_at session family claim i) last (ground arith)

  points_here :
      (i : ℕ) (is : List ℕ) (last : Option PointKey)
      → ((j : ℕ) → In j is → i < j)
      → counts session family claim i ≡ true
      → value_at (shown_key last) (points (i ∷ is) last) i ≡ some (shown (answer i))
  points_here i is last a own = elim (Bool-cases (emits i last)) [
    | inl c ↦
        ap (λ ps. value_at (shown_key last) ps i) (points_emit i is last c)
        ∙ value_at_point (shown_key last) i (answer i) _ i (omega arith)
        ∙ points_before is _ _ i a
    | inr c ↦
        ap (λ ps. value_at (shown_key last) ps i) (points_skip i is last c)
        ∙ points_before is last (shown_key last) i a
        ∙ kept_key i last own c
  ]

  key_shown : (price : PriceResult) → shown_key (some (point_key price)) ≡ some (shown price)
  unfolding shown_key point_key shown
  key_shown price = refl

  pub points_lem :
      (is : List ℕ) (last : Option PointKey) (k : ℕ)
      → Ascending is
      → In k is
      → counts session family claim k ≡ true
      → value_at (shown_key last) (points is last) k ≡ some (shown (answer k))
  points_lem [] last k a m own = elim m [ ]
  points_lem (i ∷ is) last k a (inl e) own =
      subst (λ x. value_at (shown_key last) (points (i ∷ is) last) x ≡ some (shown (answer x)))
        (sym e)
        (points_here i is last a.0 (subst (λ x. counts session family claim x ≡ true) e own))
  points_lem (i ∷ is) last k a (inr m) own = elim (Bool-cases (emits i last)) [
    | inl c ↦
        ap (λ ps. value_at (shown_key last) ps k) (points_emit i is last c)
        ∙ value_at_point (shown_key last) i (answer i) _ k (omega (arith, a.0 k m))
        ∙ ap (λ said. value_at said (points is (some (point_key (answer i)))) k)
            (sym (key_shown (answer i)))
        ∙ points_lem is (some (point_key (answer i))) k a.1 m own
    | inr c ↦
        ap (λ ps. value_at (shown_key last) ps k) (points_skip i is last c)
        ∙ points_lem is last k a.1 m own
  ]

  -- a point and the answer that it records
  unfoldable pub IsAnswer : List ℕ → HistoryPoint → Type 0
  IsAnswer is p =
      In p.known_from is
      × (counts session family claim p.known_from ≡ true)
      × (p ≡ point_of p.known_from (answer_at session family claim p.known_from))

  pub In-points :
      (is : List ℕ) (last : Option PointKey) (p : HistoryPoint)
      → In p (points is last)
      → IsAnswer is p
  unfolding trail_points points IsAnswer
  In-points [] last p m = elim m [ ]
  In-points (i ∷ is) last p m = elim (Bool-cases (emits i last)) [
    | inl c ↦ elim (subst (In p) (points_emit i is last c) m) [
      | inl e ↦ first p e c
      | inr n ↦ weaker p (In-points is _ p n)
    ]
    | inr c ↦ weaker p (In-points is last p (subst (In p) (points_skip i is last c) m))
  ]
    where
      weaker : (p : HistoryPoint) → IsAnswer is p → IsAnswer (i ∷ is) p
      weaker p (m, c, e) = (inr m, c, e)

      first :
          (p : HistoryPoint) → p ≡ point_of i (answer i) → emits i last ≡ true → IsAnswer (i ∷ is) p
      first p e c =
          subst (IsAnswer (i ∷ is)) (sym e)
            (unfold IsAnswer point_of answer emits in (inl refl, (&&-true _ _ c).0, refl))
