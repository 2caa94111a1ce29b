-- ===== src/Identity/Change.antt =====
-- Merges, splits and retirements of Subjects: `record_subject_change` of
-- packages/helios_core/identity/commands.py, with the trigger function `apply_subject_change` of
-- alembic/versions/3f8b2c1d9a74. The words of an operation are a data type, so the error on an unknown word is not
-- modelled; nor are the rows of the change itself and of its Evidence.

pub mod Acyclic
pub mod Currentness
use first_helios.Base.{
  ℕ, suc, Bool, true, false, Option, none, some, List, [], ◌∷◌, ◌++◌, ◌==◌, ◌&&◌, ◌||◌, not,
  is_none, any, all, select, map, length, leb, ltb, find_first, if◌then◌else◌,
}
use first_helios.Base.Results.{Result, raise, ok}
use first_helios.Identity.Scope.{SubjectKind, organization, establishment, place}
use first_helios.Identity.Resolution.{Db, Subject, is_current_subject}
use first_helios.Identity.Lineage.{Edge, member, lineage_successors}

pub data ChangeOperation : Type 0 where
  merge split retire : ChangeOperation

pub data ChangeError : Type 0 where
  no_support members_repeat split_overlap bad_cardinality unknown_member mixed_kinds : ChangeError
  input_not_current member_not_current output_not_new lineage_cycle : ChangeError

-- a row of `subject_change_member`: its change and its Subject
pub record ChangeMember : Type 0 where
  pub subject_change_id : ℕ
  pub subject_id : ℕ

-- The identity tables in a transaction; `created_now` holds the Subjects that it has created.
pub record ChangeWorld : Type 0 where
  pub db : Db
  pub lineage : List Edge
  pub members : List ChangeMember
  pub created_now : List ℕ
  pub next_change_id : ℕ

-- `len(set(ids)) != len(ids)`
unfoldable pub has_repeats : List ℕ → Bool
unfolding member
has_repeats [] = false
has_repeats (i ∷ ids) = member i ids || has_repeats ids

unfoldable pub overlap : List ℕ → List ℕ → Bool
unfolding any member
overlap inputs outputs = any (λ i. member i outputs) inputs

unfoldable pub cardinality_ok : ChangeOperation → ℕ → ℕ → Bool
cardinality_ok merge inputs outputs = leb 2 inputs && outputs == 1
cardinality_ok split inputs outputs = inputs == 1 && leb 2 outputs
cardinality_ok retire inputs outputs = inputs == 1 && outputs == 0

unfoldable pub is_split : ChangeOperation → Bool
is_split split = true
is_split _ = false

unfoldable pub is_merge : ChangeOperation → Bool
is_merge merge = true
is_merge _ = false

-- the first test that fails
unfoldable pub first_error : List (Bool × ChangeError) → Option ChangeError
first_error [] = none
first_error ((failed, e) ∷ tests) = let rest = first_error tests in if failed then some e else rest

-- `_validate_subject_change_shape`
unfoldable pub shape_tests : ChangeOperation → List ℕ → List ℕ → List (Bool × ChangeError)
unfolding has_repeats overlap cardinality_ok is_split
shape_tests operation inputs outputs =
    (has_repeats inputs || has_repeats outputs, members_repeat)
    ∷ (is_split operation && overlap inputs outputs, split_overlap)
    ∷ (not (cardinality_ok operation (length inputs) (length outputs)), bad_cardinality)
    ∷ []

unfoldable pub is_known : Db → ℕ → Bool
unfolding any
is_known db i = any (λ (s : Subject). s.id == i) db.subjects

unfoldable pub kind_code : SubjectKind → ℕ
kind_code organization = 0
kind_code establishment = 1
kind_code place = 2

-- the kinds of the members that there are
unfoldable pub kinds_of : Db → List ℕ → List ℕ
unfolding kind_code select member
kinds_of db ids =
    map (λ (s : Subject). kind_code s.kind) (select (λ (s : Subject). member s.id ids) db.subjects)

-- `len({...}) != 1`
unfoldable pub one_kind : List ℕ → Bool
unfolding all
one_kind [] = false
one_kind (k ∷ kinds) = all (λ j. j == k) kinds

-- the checks of `record_subject_change` on the members
unfoldable pub member_tests : Db → List ℕ → List ℕ → List (Bool × ChangeError)
unfolding is_known all any kinds_of one_kind is_current_subject
member_tests db inputs outputs =
    (not (all (is_known db) (inputs ++ outputs)), unknown_member)
    ∷ (not (one_kind (kinds_of db (inputs ++ outputs))), mixed_kinds)
    ∷ (not (all (is_current_subject db) inputs), input_not_current)
    ∷ (not (all (is_current_subject db) (inputs ++ outputs)), member_not_current)
    ∷ []

-- the pairs of an input and a different output
unfoldable pub edges_from : ℕ → List ℕ → List Edge
edges_from p [] = []
edges_from p (s ∷ outputs) =
    let rest = edges_from p outputs in if p == s then rest else (p, s) ∷ rest

unfoldable pub new_edges : List ℕ → List ℕ → List Edge
unfolding edges_from
new_edges [] outputs = []
new_edges (p ∷ inputs) outputs = edges_from p outputs ++ new_edges inputs outputs

-- The predecessor is the successor, or a successor of it.
unfoldable pub closes_cycle : List Edge → Edge → Bool
unfolding member lineage_successors
closes_cycle lineage (p, s) = member p (s ∷ lineage_successors lineage s)

-- an output of a split that is an input, or is not new
unfoldable pub split_output_bad : ChangeWorld → ℕ → List ℕ → ℕ → Bool
unfolding any member
split_output_bad w change_id inputs output =
    member output inputs
    || any (λ (m : ChangeMember). m.subject_id == output && not (m.subject_change_id == change_id))
        w.members
    || not (member output w.created_now)

-- an output of a merge that is no input, and is not new
unfoldable pub merge_output_bad : ChangeWorld → ℕ → List ℕ → ℕ → Bool
unfolding any member
merge_output_bad w change_id inputs output =
    not (member output inputs)
    && (not (member output w.created_now)
        || any (λ (m : ChangeMember). m.subject_id == output && ltb m.subject_change_id change_id)
            w.members)

-- the checks of `apply_subject_change`
unfoldable pub apply_tests :
    ChangeWorld → ℕ → ChangeOperation → List ℕ → List ℕ → List (Bool × ChangeError)
unfolding cardinality_ok is_split is_merge split_output_bad merge_output_bad closes_cycle new_edges
    kinds_of one_kind all any is_current_subject
apply_tests w change_id operation inputs outputs =
    (not (one_kind (kinds_of w.db (inputs ++ outputs))), mixed_kinds)
    ∷ (not (cardinality_ok operation (length inputs) (length outputs)), bad_cardinality)
    ∷ (is_split operation && any (split_output_bad w change_id inputs) outputs, output_not_new)
    ∷ (is_merge operation && any (merge_output_bad w change_id inputs) outputs, output_not_new)
    ∷ (any (closes_cycle w.lineage) (new_edges inputs outputs), lineage_cycle)
    ∷ (not (all (is_current_subject w.db) inputs), input_not_current)
    ∷ (not (all (is_current_subject w.db) (inputs ++ outputs)), member_not_current)
    ∷ []

-- an input that is no output is retired
unfoldable pub retire_inputs : List ℕ → List ℕ → Db → Db
unfolding member
retire_inputs inputs outputs db = record db {
  subjects =
      map
        (λ (s : Subject).
          if member s.id inputs && not (member s.id outputs)
          then record s { is_current = false }
          else s)
        db.subjects;
}

-- what `apply_subject_change` writes
unfoldable pub apply_change : ChangeWorld → ℕ → List ℕ → List ℕ → ChangeWorld
unfolding retire_inputs new_edges
apply_change w change_id inputs outputs = record w {
  db = retire_inputs inputs outputs w.db;
  lineage = new_edges inputs outputs ++ w.lineage;
  members =
      map (λ i. record { subject_change_id = change_id; subject_id = i }) (inputs ++ outputs)
      ++ w.members;
  next_change_id = suc change_id;
}

unfoldable pub checked_change : Option ChangeError → ChangeWorld → Result ChangeError ChangeWorld
checked_change none w = ok w
checked_change (some e) w = raise e

-- every check, in the order of `record_subject_change`, whose last step runs the trigger; `evidence`
-- counts the Evidence rows
unfoldable pub change_tests :
    ChangeWorld → ChangeOperation → List ℕ → List ℕ → ℕ → Bool → List (Bool × ChangeError)
unfolding shape_tests member_tests apply_tests
change_tests w operation inputs outputs evidence has_adjudication =
    (evidence == 0 && not has_adjudication, no_support) ∷ shape_tests operation inputs outputs
    ++ member_tests w.db inputs outputs
    ++ apply_tests w w.next_change_id operation inputs outputs

unfoldable pub record_subject_change :
    ChangeWorld → ChangeOperation → List ℕ → List ℕ → ℕ → Bool → Result ChangeError ChangeWorld
unfolding first_error change_tests apply_change checked_change
record_subject_change w operation inputs outputs evidence has_adjudication =
    checked_change (first_error (change_tests w operation inputs outputs evidence has_adjudication))
      (apply_change w w.next_change_id inputs outputs)
