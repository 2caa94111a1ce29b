-- ===== src/Identity/Observe.antt =====
-- Resolution of a re-observed record: `resolve_source_record_observation` of
-- packages/helios_core/identity/commands.py. What Provenance does (finding a record by its key,
-- the records at one URL, persisting the observation) is the interface `Bronze`; an error of
-- Provenance, which ends the attempt with no result, is not modelled. The locks are not
-- modelled, but what they are for is: other transactions may change the database between the read
-- of a plan and the moment the locks are held.
pub mod Attempt
pub mod Holds
pub mod Reports
pub mod Attempts
pub mod Exact
use first_helios.Base.{
  ℕ, Bool, true, false, Option, none, some, List, [], ◌∷◌, ◌==◌, ◌&&◌, not, option_eq, select,
  if◌then◌else◌, find_first,
}
use first_helios.Base.Text.{Text, codes}
use first_helios.Base.Order.{sort_by, cmp_ℕ}
use first_helios.Identity.Resolution.{
  Db, Subject, CurrentResolution, DecisionMetadata, ResolutionState, unresolved, resolved,
  ResolutionError, rule, get_current, is_resolved, is_current_subject,
}
use first_helios.Identity.Lineage.{Edge, member, current_lineage_successor_ids}

-- the fields of PersistedBronzeObservation that Identity reads
pub record Persisted : Type 0 where
  pub source_record_id : ℕ
  pub evidence_id : ℕ
  pub source_record_created : Bool

-- What Identity asks of Provenance. An observation is one to persist, of one source.
pub record Bronze (Observation : Type 0) : Type 0 where
  pub succeeded : Observation → Bool
  pub observed_at : Observation → ℕ
  pub has_canonical_url : Observation → Bool
  pub find_source_record_id : Db → Observation → Option ℕ
  pub source_record_ids_for_identity_match_url : Db → Observation → List ℕ
  pub persist_source_record_observation : Db → Observation → Persisted × Db

pub record ResolutionPlan : Type 0 where
  pub prior_state : Option ResolutionState
  pub prior_subject_id : Option ℕ
  pub prior_is_current : Option Bool
  pub successor_ids : List ℕ
  pub url_source_record_ids : List ℕ
  pub url_target_id : Option ℕ

pub data MatchBasis : Type 0 where
  external_key external_key_lineage canonical_url : MatchBasis

pub record DeterministicResolutionResult : Type 0 where
  pub source_record_id : ℕ
  pub state : ResolutionState
  pub subject_id : Option ℕ
  pub match_basis : Option MatchBasis
  pub appended_event_ids : List ℕ

pub data ObservationError : Type 0 where
  rejected_observation : ObservationError
  stale_plan : ObservationError
  resolution_conflict : ObservationError
  no_subject : ObservationError
  refused : ResolutionError → ObservationError

-- `_deterministic_decision`: the confidence is in hundred-thousandths.
unfoldable pub deterministic_decision : Text → ℕ → ℕ → DecisionMetadata
deterministic_decision method decided_at effective_at = record {
  confidence = 100000;
  method = method;
  method_version = codes "1";
  actor_class = rule;
  decided_at = decided_at;
  effective_at = effective_at;
}

-- `DISTINCT`
unfoldable pub distinct_ids : List ℕ → List ℕ
unfolding member
distinct_ids [] = []
distinct_ids (i ∷ ids) = let rest = distinct_ids ids in if member i rest then rest else i ∷ rest

unfoldable pub add_current : Db → Bool → Option ℕ → List ℕ → List ℕ
unfolding is_current_subject
add_current db b none rest = rest
add_current db b (some i) rest = if b && is_current_subject db i then i ∷ rest else rest

-- the Subjects of rows that are resolved to a current one
unfoldable pub resolved_subjects : Db → List ℕ → List CurrentResolution → List ℕ
unfolding member is_resolved add_current
resolved_subjects db record_ids [] = []
resolved_subjects db record_ids (row ∷ rows) =
    add_current db (member row.source_record_id record_ids && is_resolved row.state) row.subject_id
      (resolved_subjects db record_ids rows)

unfoldable pub current_subject_ids_for_source_records : Db → List ℕ → List ℕ
unfolding distinct_ids resolved_subjects sort_by
current_subject_ids_for_source_records db record_ids =
    sort_by cmp_ℕ (λ i. i) (distinct_ids (resolved_subjects db record_ids db.current))

-- The identity tables that other transactions share: `lineage` holds the rows of
-- `subject_lineage`.
pub record World : Type 0 where
  pub db : Db
  pub lineage : List Edge

unfoldable pub row_state : Option CurrentResolution → Option ResolutionState
row_state none = none
row_state (some row) = some row.state

unfoldable pub row_subject : Option CurrentResolution → Option ℕ
row_subject none = none
row_subject (some row) = row.subject_id

unfoldable pub currentness : Option Subject → Option Bool
currentness none = none
currentness (some s) = some s.is_current

-- `is_current` of the Subject that a row is resolved to
unfoldable pub prior_currentness : Db → Option ResolutionState → Option ℕ → Option Bool
unfolding find_first currentness
prior_currentness db (some resolved) (some i) =
    currentness (find_first (λ (s : Subject). s.id == i) db.subjects)
prior_currentness db _ _ = none

-- the successors of a retired Subject, and none of any other
unfoldable pub prior_successors : World → Option ℕ → Option Bool → List ℕ
unfolding current_lineage_successor_ids
prior_successors w (some i) (some false) = current_lineage_successor_ids w.db w.lineage i
prior_successors w _ _ = []

-- `prior_state in {None, "unresolved"}`
unfoldable pub takes_url : Option ResolutionState → Bool
takes_url none = true
takes_url (some unresolved) = true
takes_url _ = false

-- the only element of a list
unfoldable pub only_one : List ℕ → Option ℕ
only_one (i ∷ []) = some i
only_one _ = none

unfoldable pub row_at : Db → Option ℕ → Option CurrentResolution
unfolding get_current
row_at db none = none
row_at db (some record_id) = get_current record_id db.current

module _ {Observation : Type 0} (bronze : Bronze Observation) where
  unfoldable pub url_records : Db → Option ℕ → Observation → Option ResolutionState → List ℕ
  unfolding select takes_url
  url_records db record_id observation prior_state =
      if bronze.has_canonical_url observation && takes_url prior_state
      then select (λ i. not (option_eq (some i) record_id))
          (bronze.source_record_ids_for_identity_match_url db observation)
      else []

  unfoldable pub plan_of :
      World → Option ℕ → Observation → Option CurrentResolution → ResolutionPlan
  unfolding row_state row_subject prior_currentness prior_successors url_records only_one
      current_subject_ids_for_source_records
  plan_of w record_id observation row =
      let state = row_state row in
      let subject = row_subject row in
      let is_current = prior_currentness w.db state subject in
      let records = url_records w.db record_id observation state in
      record {
        prior_state = state;
        prior_subject_id = subject;
        prior_is_current = is_current;
        successor_ids = prior_successors w subject is_current;
        url_source_record_ids = records;
        url_target_id = only_one (current_subject_ids_for_source_records w.db records);
      }

  unfoldable pub read_resolution_plan : World → Option ℕ → Observation → ResolutionPlan
  unfolding plan_of row_at
  read_resolution_plan w record_id observation =
      plan_of w record_id observation (row_at w.db record_id)
