-- ===== src/Identity/ChangeExamples.antt =====
-- Two Subjects merged into one of them, and the theorems on Subject changes applied to it.
use first_helios.Base.{
  inl, inr, ap, arith, ℕ, Bool, true, false, [], ◌∷◌, ◌≡◌, ◌&&◌, not, refl, any, all, find_first,
  select, In,
}
use first_helios.Identity.Scope.{establishment}
use first_helios.Identity.Resolution.{Subject, is_current_subject}
use first_helios.Identity.Lineage.{
  Edge, member, direct_successors, expand, repeated, lineage_successors, Reached, direct, onward,
}
use first_helios.Identity.Change.{
  merge, ChangeWorld, has_repeats, overlap, cardinality_ok, is_split, is_merge, first_error,
  shape_tests, is_known, kind_code, kinds_of, one_kind, member_tests, edges_from, new_edges,
  closes_cycle, split_output_bad, merge_output_bad, apply_tests, retire_inputs, apply_change,
  checked_change, change_tests, record_subject_change,
}
use first_helios.Identity.Change.Acyclic.{IsAcyclic, record_subject_change-IsAcyclic}
use first_helios.Identity.Change.Currentness.{is_retired, record_subject_change-is_current_subject}

program : Unit {0}
unfolding any all find_first select is_current_subject member direct_successors expand repeated
    lineage_successors has_repeats overlap cardinality_ok is_split is_merge first_error shape_tests
    is_known kind_code kinds_of one_kind member_tests edges_from new_edges closes_cycle
    split_output_bad merge_output_bad apply_tests retire_inputs apply_change checked_change
    change_tests record_subject_change
program = tt

abbrev cafe : ℕ → Bool → Subject
cafe i current = record { id = i; kind = establishment; is_eligible = false; is_current = current }

-- Subject 1 was retired in favour of 2; now 2 and 3 are merged into 3.
abbrev before : ChangeWorld
before = record {
  db = record {
    source_records = [];
    rejected_only = [];
    subjects = cafe 1 false ∷ cafe 2 true ∷ cafe 3 true ∷ [];
    events = [];
    evidence = [];
    current = [];
    next_event_id = 1;
  };
  lineage = (1, 2) ∷ [];
  members =
      record { subject_change_id = 1; subject_id = 1 }
      ∷ record { subject_change_id = 1; subject_id = 2 }
      ∷ [];
  created_now = [];
  next_change_id = 2;
}

abbrev after : ChangeWorld
after = record {
  db = record before.db { subjects = cafe 1 false ∷ cafe 2 false ∷ cafe 3 true ∷ [] };
  lineage = (2, 3) ∷ (1, 2) ∷ [];
  members =
      record { subject_change_id = 2; subject_id = 2 }
      ∷ record { subject_change_id = 2; subject_id = 3 }
      ∷ record { subject_change_id = 2; subject_id = 3 }
      ∷ before.members;
  created_now = [];
  next_change_id = 3;
}

-- the only row leads from 1 to 2
the_row : (a b : ℕ) → In (a, b) before.lineage → (a ≡ 1) × (b ≡ 2)
the_row a b (inl e) = (ap (λ (e : Edge). e.0) e, ap (λ (e : Edge). e.1) e)
the_row a b (inr m) = elim m [ ]

ends_at : (a b : ℕ) → Reached before.lineage a b → (b ≡ 2) × (a ≡ 1)
ends_at a b (direct _ i) = let (x, y) = the_row a b i in (y, x)
ends_at a b (onward p _ r i) = let (x, y) = the_row p b i in (y, (ends_at a p r).1)

before-IsAcyclic : IsAcyclic before.lineage
unfolding IsAcyclic
before-IsAcyclic a r = let (x, y) = ends_at a a r in clash a x y
  where
    clash : (a : ℕ) → a ≡ 2 → a ≡ 1 → ⊥
    clash a x y = omega arith

record_subject_change-IsAcyclic_example : IsAcyclic after.lineage
record_subject_change-IsAcyclic_example =
    record_subject_change-IsAcyclic before after merge (2 ∷ 3 ∷ []) (3 ∷ []) 1 false
      before-IsAcyclic (unfold program in refl)

record_subject_change-is_current_subject_example :
    ((i : ℕ)
      → is_current_subject after.db i
        ≡ (is_current_subject before.db i && not (is_retired (2 ∷ 3 ∷ []) (3 ∷ []) i)))
    × ((i : ℕ) → In i (3 ∷ []) → is_current_subject after.db i ≡ true)
record_subject_change-is_current_subject_example =
    record_subject_change-is_current_subject before after merge (2 ∷ 3 ∷ []) (3 ∷ []) 1 false
      (unfold program in refl)
