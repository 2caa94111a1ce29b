-- ===== src/Menu/History/Instants.antt =====
-- The instants of acceptance are ascending (packages/helios_core/domains/menu/history.py).
use first_helios.Base.{
  ℕ, true, false, List, [], ◌∷◌, ◌==◌, ltb, ◌<◌, ◌≡◌, arith, In, inl, inr, ◌⊎◌, Bool-cases,
}
use first_helios.Menu.Model.{MenuPage}
use first_helios.Menu.History.{instants_of, insert_instant}

-- each instant before all that follow
abbrev pub Ascending : List ℕ → Type 0
Ascending [] = Unit
Ascending (i ∷ is) = ((j : ℕ) → In j is → i < j) × Ascending is

In-insert_instant : (k i : ℕ) (is : List ℕ) → In k (insert_instant i is) → (k ≡ i) ⊎ In k is
unfolding insert_instant
In-insert_instant k i [] m = m
In-insert_instant k i (j ∷ js) m = ground (arith, In-insert_instant k i js)

insert_instant-Ascending : (i : ℕ) (is : List ℕ) → Ascending is → Ascending (insert_instant i is)
unfolding insert_instant
insert_instant-Ascending i [] a = (λ j m. elim m [ ], tt)
insert_instant-Ascending i (j ∷ js) a = elim (Bool-cases (ltb i j)) [
  | inl c ↦ rw c ((λ k m. before c k m), a)
  | inr c ↦ elim (Bool-cases (i == j)) [
    | inl d ↦ rw (c, d) a
    | inr d ↦
        rw (c, d)
          ((λ k m. after c d k (In-insert_instant k i js m)), insert_instant-Ascending i js a.1)
  ]
]
  where
    before : ltb i j ≡ true → (k : ℕ) → In k (j ∷ js) → i < k
    before c k (inl e) = ground arith
    before c k (inr m) = ground (arith, a.0 k m)

    after : ltb i j ≡ false → (i == j) ≡ false → (k : ℕ) → (k ≡ i) ⊎ In k js → j < k
    after c d k (inl e) = ground arith
    after c d k (inr m) = a.0 k m

pub instants_of-Ascending : (pages : List MenuPage) → Ascending (instants_of pages)
unfolding instants_of
instants_of-Ascending [] = tt
instants_of-Ascending (p ∷ pages) =
    insert_instant-Ascending p.accepted_at (instants_of pages) (instants_of-Ascending pages)
