-- ===== src/Identity/Resolution.antt =====
-- Resolution of source records to subjects: the event history, its projection and the transition
-- checks (packages/helios_core/identity/commands.py and models.py, with the triggers
-- `validate_resolution_transition` and `project_resolution_event` of alembic/versions/3f8b2c1d9a74).
-- The locks order concurrent writers: a command is one step here. What Provenance and the readiness
-- policy say are data of the database and a parameter.
pub mod Commands
pub mod Projection
pub mod History
pub mod Steps
pub mod Transitions
use first_helios.Base.{
  ℕ, suc, Bool, true, false, Option, none, some, List, [], ◌∷◌, ◌==◌, ◌&&◌, ◌||◌, not, is_none,
  option_eq, leb, ltb, map, any, find_first, if◌then◌else◌,
}
use first_helios.Base.Text.{Text}
use first_helios.Identity.Scope.{SubjectKind}

pub data Operation : Type 0 where
  open_record assign remap unassign : Operation

pub data ResolutionState : Type 0 where
  unresolved needs_review resolved : ResolutionState

pub data ActorClass : Type 0 where
  rule model migration human : ActorClass

pub record DecisionMetadata : Type 0 where
  pub confidence : ℕ
  pub method : Text
  pub method_version : Text
  pub actor_class : ActorClass
  pub decided_at : ℕ
  pub effective_at : ℕ

pub record Subject : Type 0 where
  pub id : ℕ
  pub kind : SubjectKind
  pub is_eligible : Bool
  pub is_current : Bool

pub record ResolutionEvent : Type 0 where
  pub id : ℕ
  pub source_record_id : ℕ
  pub sequence_no : ℕ
  pub operation : Operation
  pub from_subject_id : Option ℕ
  pub to_subject_id : Option ℕ
  pub adjudication_id : Option ℕ
  pub decision : DecisionMetadata

pub record CurrentResolution : Type 0 where
  pub source_record_id : ℕ
  pub subject_id : Option ℕ
  pub last_event_id : ℕ
  pub state : ResolutionState

-- The tables. A subject's row carries its row of `subject_currentness`.
pub record Db : Type 0 where
  pub source_records : List ℕ
  pub rejected_only : List ℕ
  pub subjects : List Subject
  pub events : List ResolutionEvent
  pub evidence : List (ℕ × ℕ)
  pub current : List CurrentResolution
  pub next_event_id : ℕ

pub data ResolutionError : Type 0 where
  no_support : ResolutionError
  rejected_only : ℕ → ResolutionError
  no_source_record : ℕ → ResolutionError
  target_not_current : ℕ → ResolutionError
  already_in_resolution : ℕ → ResolutionError
  not_assignable : ResolutionError
  not_the_current_subject : Operation → ResolutionError
  same_subject : ResolutionError

-- the row of a record, `WHERE source_record_id = ...`
unfoldable pub get_current : ℕ → List CurrentResolution → Option CurrentResolution
get_current record_id rows =
    find_first (λ (r : CurrentResolution). r.source_record_id == record_id) rows

unfoldable pub is_resolved : ResolutionState → Bool
is_resolved resolved = true
is_resolved _ = false

-- The CHECK on a projected row, `ck_current_resolution_state_subject`.
unfoldable pub row_ok : CurrentResolution → Bool
unfolding is_resolved
row_ok row = if is_resolved row.state then not (is_none row.subject_id) else is_none row.subject_id

-- `target_is_current` of a subject
unfoldable pub is_current_subject : Db → ℕ → Bool
is_current_subject db subject_id =
    any (λ (s : Subject). s.id == subject_id && s.is_current) db.subjects

unfoldable pub target_error : Db → Option ℕ → Option ResolutionError
target_error db none = none
target_error db (some subject_id) =
    if is_current_subject db subject_id then none else some (target_not_current subject_id)

-- The tests on the current row for each operation.
unfoldable pub assign_error : Option CurrentResolution → Option ResolutionError
assign_error none = some not_assignable
assign_error (some row) =
    if not (is_resolved row.state) && is_none row.subject_id then none else some not_assignable

unfoldable pub moved_error :
    Operation → Option ℕ → Option CurrentResolution → Option ResolutionError
moved_error operation from_id none = some (not_the_current_subject operation)
moved_error operation from_id (some row) =
    if is_resolved row.state && option_eq row.subject_id from_id
    then none
    else some (not_the_current_subject operation)

open_error : ℕ → Option CurrentResolution → Option ResolutionError
open_error record_id none = none
open_error record_id (some row) = some (already_in_resolution record_id)

-- the first error of two tests
unfoldable pub or_else : Option ResolutionError → Option ResolutionError → Option ResolutionError
or_else (some e) rest = some e
or_else none rest = rest

unfoldable pub transition_error :
    ℕ → Operation → Option ℕ → Option ℕ → Option CurrentResolution → Option ResolutionError
unfolding open_error assign_error moved_error
transition_error record_id open_record from_id to_id row = open_error record_id row
transition_error record_id assign from_id to_id row = assign_error row
transition_error record_id remap from_id to_id row =
    or_else (moved_error remap from_id row)
      (if option_eq from_id to_id then some same_subject else none)
transition_error record_id unassign from_id to_id row = moved_error unassign from_id row

-- `_validate_resolution_transition`: nothing, or what it raises.
unfoldable pub validate_resolution_transition :
    Db → ℕ → Operation → Option ℕ → Option ℕ → Option ResolutionError
unfolding target_error transition_error
validate_resolution_transition db record_id operation from_id to_id =
    or_else (target_error db to_id)
      (transition_error record_id operation from_id to_id (get_current record_id db.current))

-- The CHECK on an event's subjects, `ck_resolution_event_operation_shape`.
unfoldable pub well_shaped : ResolutionEvent → Bool
well_shaped event = elim event.operation [
  | open_record ↦ is_none event.from_subject_id && is_none event.to_subject_id
  | assign ↦ is_none event.from_subject_id && not (is_none event.to_subject_id)
  | remap ↦
      not (is_none event.from_subject_id)
      && not (is_none event.to_subject_id)
      && not (option_eq event.from_subject_id event.to_subject_id)
  | unassign ↦ not (is_none event.from_subject_id) && is_none event.to_subject_id
]

-- The trigger's own tests, before the insert. Without a row its columns are NULL.
unfoldable pub trigger_allows : Db → ResolutionEvent → Bool
unfolding is_resolved
trigger_allows db event =
    elim event.to_subject_id [ none ↦ true | some i ↦ is_current_subject db i ]
    && elim event.operation [
      | open_record ↦ is_none (get_current event.source_record_id db.current)
      | assign ↦ elim (get_current event.source_record_id db.current) [
        | none ↦ false
        | some row ↦ not (is_resolved row.state) && is_none row.subject_id
      ]
      | _ ↦ elim (get_current event.source_record_id db.current) [
        | none ↦ is_none event.from_subject_id
        | some row ↦ is_resolved row.state && option_eq row.subject_id event.from_subject_id
      ]
    ]

-- `coalesce(max(sequence_no), 0)` of the record's events
unfoldable pub last_sequence : ℕ → List ResolutionEvent → ℕ
last_sequence record_id [] = 0
last_sequence record_id (e ∷ es) =
    let rest = last_sequence record_id es in
    if e.source_record_id == record_id && ltb rest e.sequence_no then e.sequence_no else rest

-- The projected row of an event.
unfoldable pub row_of : ResolutionEvent → CurrentResolution
row_of event = record {
  source_record_id = event.source_record_id;
  subject_id = elim event.operation [
    | assign ↦ event.to_subject_id
    | remap ↦ event.to_subject_id
    | _ ↦ none
  ];
  last_event_id = event.id;
  state = elim event.operation [
    | open_record ↦ unresolved
    | unassign ↦ needs_review
    | _ ↦ resolved
  ];
}

-- `UPDATE ... WHERE source_record_id = ...`
unfoldable pub update_row : CurrentResolution → List CurrentResolution → List CurrentResolution
update_row row rows =
    map (λ (r : CurrentResolution). if r.source_record_id == row.source_record_id then row else r)
      rows

-- `project_resolution_event`, after the insert
unfoldable pub project_resolution_event :
    ResolutionEvent → List CurrentResolution → List CurrentResolution
unfolding row_of update_row
project_resolution_event event rows = elim event.operation [
  | open_record ↦ row_of event ∷ rows
  | _ ↦ update_row (row_of event) rows
]
