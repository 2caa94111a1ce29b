-- ===== src/Identity/Change/Currentness.antt =====
-- Which Subjects are current after a Subject change (packages/helios_core/identity/commands.py).
use first_helios.Base.{
  ℕ, Bool, true, false, List, [], ◌∷◌, ◌++◌, ◌==◌, ◌&&◌, not, any, all, all-In, map, if◌then◌else◌,
  ◌≡◌, refl, ap, Bool-cases, ◌∙◌, subst, arith, In, inl, inr,
}
use first_helios.Base.Results.{ok}
use first_helios.Identity.Resolution.{Subject, is_current_subject}
use first_helios.Identity.Lineage.{member, member_iff}
use first_helios.Identity.Change.{
  change_tests, shape_tests, member_tests, apply_tests, ChangeOperation, ChangeWorld, retire_inputs,
  apply_change, record_subject_change, member_not_current,
}
use first_helios.Identity.Change.Acyclic.{checked_change-ok, first_error-none, unfailed}

-- An input that is no output is retired.
unfoldable pub is_retired : List ℕ → List ℕ → ℕ → Bool
is_retired inputs outputs i = member i inputs && not (member i outputs)

retired_row : (inputs outputs : List ℕ) (s : Subject) → Subject
retired_row inputs outputs s =
    if member s.id inputs && not (member s.id outputs) then record s { is_current = false } else s

row_id : (inputs outputs : List ℕ) (s : Subject) → (retired_row inputs outputs s).id ≡ s.id
unfolding retired_row
row_id inputs outputs s = choose_id _
  where
    choose_id : (b : Bool) → (if b then record s { is_current = false } else s).id ≡ s.id
    choose_id true = refl
    choose_id false = refl

row_flag :
    (inputs outputs : List ℕ) (s : Subject)
    → (retired_row inputs outputs s).is_current
      ≡ (s.is_current && not (is_retired inputs outputs s.id))
unfolding retired_row is_retired
row_flag inputs outputs s = choose_flag _
  where
    choose_flag :
        (b : Bool)
        → (if b then record s { is_current = false } else s).is_current ≡ (s.is_current && not b)
    choose_flag true = ground arith
    choose_flag false = ground arith

row_current :
    (inputs outputs : List ℕ) (i : ℕ) (s : Subject)
    → ((retired_row inputs outputs s).id == i && (retired_row inputs outputs s).is_current)
      ≡ ((s.id == i && s.is_current) && not (is_retired inputs outputs i))
row_current inputs outputs i s =
    at_id (retired_row inputs outputs s).id s.id (retired_row inputs outputs s).is_current
      s.is_current (row_id inputs outputs s) (row_flag inputs outputs s)
  where
    at_id :
        (a b : ℕ) (now before : Bool)
        → a ≡ b
        → now ≡ (before && not (is_retired inputs outputs b))
        → (a == i && now) ≡ ((b == i && before) && not (is_retired inputs outputs i))
    at_id a b now before h k = elim (Bool-cases (b == i)) [
      | inl c ↦ ground (arith, ap (is_retired inputs outputs) (equal b c))
      | inr c ↦ ground arith
    ]
      where
        equal : (b : ℕ) → (b == i) ≡ true → b ≡ i
        equal b c = ground arith

retire_inputs-is_current_subject :
    (inputs outputs : List ℕ) (i : ℕ) (subjects : List Subject)
    → any
        (λ (s : Subject). s.id == i && s.is_current)
        (map (λ s. retired_row inputs outputs s) subjects)
      ≡ (any (λ (s : Subject). s.id == i && s.is_current) subjects
          && not (is_retired inputs outputs i))
unfolding any
retire_inputs-is_current_subject inputs outputs i [] = refl
retire_inputs-is_current_subject inputs outputs i (s ∷ subjects) = ground (
  arith,
  row_current inputs outputs i s,
  retire_inputs-is_current_subject inputs outputs i subjects,
)

current_after :
    (w : ChangeWorld) (change_id : ℕ) (inputs outputs : List ℕ) (i : ℕ)
    → is_current_subject (apply_change w change_id inputs outputs).db i
      ≡ (is_current_subject w.db i && not (is_retired inputs outputs i))
unfolding is_current_subject apply_change retire_inputs retired_row
current_after w change_id inputs outputs i =
    retire_inputs-is_current_subject inputs outputs i w.db.subjects

output_stays :
    (inputs outputs : List ℕ) (i : ℕ) (current : Bool)
    → In i outputs
    → current ≡ true
    → (current && not (is_retired inputs outputs i)) ≡ true
unfolding is_retired
output_stays inputs outputs i current m h = ground (arith, (member_iff i outputs).1 m)

all_++ : (test : ℕ → Bool) (xs ys : List ℕ) → all test (xs ++ ys) ≡ true → all test ys ≡ true
unfolding all
all_++ test [] ys h = h
all_++ test (x ∷ xs) ys h = all_++ test xs ys (ground arith)

-- A merge, split or retirement that succeeds retires exactly the inputs that are no outputs: every
-- other Subject is current afterwards if and only if it was before; and every output is current.
pub record_subject_change-is_current_subject :
    (w after : ChangeWorld) (operation : ChangeOperation) (inputs outputs : List ℕ) (evidence : ℕ)
    (has_adjudication : Bool)
    → record_subject_change w operation inputs outputs evidence has_adjudication ≡ ok after
    → ((i : ℕ)
        → is_current_subject after.db i
          ≡ (is_current_subject w.db i && not (is_retired inputs outputs i)))
      × ((i : ℕ) → In i outputs → is_current_subject after.db i ≡ true)
unfolding record_subject_change change_tests shape_tests member_tests apply_tests
record_subject_change-is_current_subject w after operation inputs outputs evidence has_adjudication
      h =
    let (none_failed, same) = checked_change-ok _ _ after h in
    let all_current = unfailed (all (is_current_subject w.db) (inputs ++ outputs)) (
      first_error-none (change_tests w operation inputs outputs evidence has_adjudication)
        (not (all (is_current_subject w.db) (inputs ++ outputs))) member_not_current none_failed
        (inr (inr (inr (inr (inr (inr (inr (inl refl))))))))) in
    (
      (λ i.
          subst
            (λ (x : ChangeWorld).
              is_current_subject x.db i
              ≡ (is_current_subject w.db i && not (is_retired inputs outputs i)))
            same (current_after w w.next_change_id inputs outputs i)),
      (λ i m.
          subst (λ (x : ChangeWorld). is_current_subject x.db i ≡ true) same
            (current_after w w.next_change_id inputs outputs i
              ∙ output_stays inputs outputs i (is_current_subject w.db i) m (
                  all-In (is_current_subject w.db) i outputs
                    (all_++ (is_current_subject w.db) inputs outputs all_current) m))),
    )
