-- ===== src/Identity/Resolution/Commands.antt =====
-- The commands on a source record: admit, assign, remap, unassign (`_record_resolution` and its
-- callers). `policy` is the readiness policy over the database after the event.
use first_helios.Base.{
  ℕ, suc, Bool, true, false, Option, none, some, List, [], ◌∷◌, ◌++◌, ◌==◌, ◌&&◌, not, is_none, map,
  any, ltb, if◌then◌else◌,
}
use first_helios.Base.Results.{Result, raise, ok}
use first_helios.Identity.Scope.{SubjectKind, organization}
use first_helios.Identity.Resolution.{
  Operation, open_record, assign, remap, unassign, DecisionMetadata, Subject, ResolutionEvent, Db,
  ResolutionError, no_support, no_source_record, rejected_only, validate_resolution_transition,
  last_sequence, project_resolution_event,
}

abbrev pub Policy : Type 0
Policy = Db → ℕ → Bool

is_organization : SubjectKind → Bool
is_organization organization = true
is_organization _ = false

-- `_refresh_subject_readiness`
unfoldable pub refresh_subject_readiness : Policy → Db → ℕ → Db
unfolding is_organization
refresh_subject_readiness policy db subject_id =
    let ready = policy db subject_id in
    record db {
      subjects =
          map
            (λ (s : Subject).
              if s.id == subject_id && is_organization s.kind
              then record s { is_eligible = ready }
              else s)
            db.subjects;
    }

unfoldable pub refresh_all : Policy → Db → List ℕ → Db
refresh_all policy db [] = db
refresh_all policy db (i ∷ is) = refresh_all policy (refresh_subject_readiness policy db i) is

-- `sorted(subject_id for subject_id in {from_subject_id, to_subject_id} if subject_id is not None)`
unfoldable pub named_subjects : Option ℕ → Option ℕ → List ℕ
named_subjects none none = []
named_subjects (some a) none = a ∷ []
named_subjects none (some b) = b ∷ []
named_subjects (some a) (some b) =
    if a == b then a ∷ [] else if ltb a b then a ∷ b ∷ [] else b ∷ a ∷ []

-- `dict.fromkeys(evidence_ids)`: each id once, at its first place
first_seen : List ℕ → List ℕ → List ℕ
first_seen seen [] = []
first_seen seen (i ∷ is) =
    let fresh = first_seen (i ∷ seen) is in
    let again = first_seen seen is in if any (λ j. j == i) seen then again else i ∷ fresh

unfoldable pub new_event :
    Db → ℕ → Operation → Option ℕ → Option ℕ → DecisionMetadata → Option ℕ → ResolutionEvent
new_event db record_id operation from_id to_id decision adjudication_id = record {
  id = db.next_event_id;
  source_record_id = record_id;
  sequence_no = suc (last_sequence record_id db.events);
  operation = operation;
  from_subject_id = from_id;
  to_subject_id = to_id;
  adjudication_id = adjudication_id;
  decision = decision;
}

-- The insert, with the triggers and the Evidence rows.
unfoldable pub insert_event : Db → ResolutionEvent → List ℕ → Db
unfolding first_seen
insert_event db event evidence_ids = record db {
  events = event ∷ db.events;
  evidence = map (λ i. (event.id, i)) (first_seen [] evidence_ids) ++ db.evidence;
  current = project_resolution_event event db.current;
  next_event_id = suc db.next_event_id;
}

is_empty : List ℕ → Bool
is_empty [] = true
is_empty (i ∷ is) = false

-- what stands below the checks
unfoldable pub recorded :
    Option ResolutionError
    → Policy
    → Db
    → ResolutionEvent
    → List ℕ
    → Result ResolutionError (ResolutionEvent × Db)
unfolding named_subjects
recorded (some e) policy db event evidence_ids = raise e
recorded none policy db event evidence_ids = ok (
  event,
  refresh_all policy (insert_event db event evidence_ids)
      (named_subjects event.from_subject_id event.to_subject_id),
)

unfoldable pub record_resolution :
    Policy
    → Db
    → ℕ
    → Operation
    → Option ℕ
    → Option ℕ
    → DecisionMetadata
    → List ℕ
    → Option ℕ
    → Result ResolutionError (ResolutionEvent × Db)
unfolding is_empty recorded
record_resolution policy db record_id operation from_id to_id decision evidence_ids
      adjudication_id =
    if is_empty evidence_ids && is_none adjudication_id
    then raise no_support
    else if not (any (λ i. i == record_id) db.source_records)
    then raise (no_source_record record_id)
    else recorded (validate_resolution_transition db record_id operation from_id to_id) policy db
        (new_event db record_id operation from_id to_id decision adjudication_id) evidence_ids

unfoldable pub admit_source_record :
    Policy
    → Db
    → ℕ
    → DecisionMetadata
    → List ℕ
    → Option ℕ
    → Result ResolutionError (ResolutionEvent × Db)
admit_source_record policy db record_id decision evidence_ids adjudication_id =
    if any (λ i. i == record_id) db.rejected_only
    then raise (rejected_only record_id)
    else record_resolution policy db record_id open_record none none decision evidence_ids
        adjudication_id

unfoldable pub assign_source_record :
    Policy
    → Db
    → ℕ
    → ℕ
    → DecisionMetadata
    → List ℕ
    → Option ℕ
    → Result ResolutionError (ResolutionEvent × Db)
assign_source_record policy db record_id to_id decision evidence_ids adjudication_id =
    record_resolution policy db record_id assign none (some to_id) decision evidence_ids
      adjudication_id

unfoldable pub remap_source_record :
    Policy
    → Db
    → ℕ
    → ℕ
    → ℕ
    → DecisionMetadata
    → List ℕ
    → Option ℕ
    → Result ResolutionError (ResolutionEvent × Db)
remap_source_record policy db record_id from_id to_id decision evidence_ids adjudication_id =
    record_resolution policy db record_id remap (some from_id) (some to_id) decision evidence_ids
      adjudication_id

unfoldable pub unassign_source_record :
    Policy
    → Db
    → ℕ
    → ℕ
    → DecisionMetadata
    → List ℕ
    → Option ℕ
    → Result ResolutionError (ResolutionEvent × Db)
unassign_source_record policy db record_id from_id decision evidence_ids adjudication_id =
    record_resolution policy db record_id unassign (some from_id) none decision evidence_ids
      adjudication_id
