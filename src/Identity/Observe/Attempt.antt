-- ===== src/Identity/Observe/Attempt.antt =====
-- One attempt to resolve an observation, and the two of `resolve_source_record_observation`
-- (packages/helios_core/identity/commands.py).
use first_helios.Base.{
  ℕ, Bool, true, false, Option, none, some, List, [], ◌∷◌, ◌++◌, ◌&&◌, not, is_none, option_eq,
  if◌then◌else◌,
}
use first_helios.Base.Text.{codes, text_eq}
use first_helios.Base.Results.{Result, raise, ok}
use first_helios.Identity.Resolution.{
  Db, ResolutionEvent, ResolutionState, unresolved, needs_review, resolved, ResolutionError,
}
use first_helios.Identity.Resolution.Commands.{
  Policy, refresh_subject_readiness, admit_source_record, assign_source_record, remap_source_record,
  unassign_source_record,
}
use first_helios.Identity.Observe.{
  Bronze, Persisted, ResolutionPlan, MatchBasis, external_key, external_key_lineage, canonical_url,
  DeterministicResolutionResult, ObservationError, rejected_observation, stale_plan,
  resolution_conflict, no_subject, refused, deterministic_decision, World, read_resolution_plan,
}

unfoldable pub same_state : Option ResolutionState → Option ResolutionState → Bool
same_state none none = true
same_state (some unresolved) (some unresolved) = true
same_state (some needs_review) (some needs_review) = true
same_state (some resolved) (some resolved) = true
same_state _ _ = false

unfoldable pub same_flag : Option Bool → Option Bool → Bool
same_flag none none = true
same_flag (some true) (some true) = true
same_flag (some false) (some false) = true
same_flag _ _ = false

-- `==` of two plans
unfoldable pub same_plan : ResolutionPlan → ResolutionPlan → Bool
unfolding same_state same_flag text_eq
same_plan p q =
    same_state p.prior_state q.prior_state
    && option_eq p.prior_subject_id q.prior_subject_id
    && same_flag p.prior_is_current q.prior_is_current
    && text_eq p.successor_ids q.successor_ids
    && text_eq p.url_source_record_ids q.url_source_record_ids
    && option_eq p.url_target_id q.url_target_id

abbrev pub Outcome : Type 0
Outcome = Result ObservationError (DeterministicResolutionResult × Db)

-- what a command gives, reported with the id of its event
unfoldable pub reported :
    (ℕ → DeterministicResolutionResult) → Result ResolutionError (ResolutionEvent × Db) → Outcome
reported report (raise e) = raise (refused e)
reported report (ok (event, db)) = ok (report event.id, db)

-- `_resolution_result`, of a record
unfoldable pub resolution_result :
    ℕ → ResolutionState → Option ℕ → Option MatchBasis → List ℕ → DeterministicResolutionResult
resolution_result record_id state subject_id basis events = record {
  source_record_id = record_id;
  state = state;
  subject_id = subject_id;
  match_basis = basis;
  appended_event_ids = events;
}

module _ (policy : Policy) (decided_at effective_at : ℕ) (persisted : Persisted) where
  -- the record is resolved to a Subject that is current, has successors, or neither
  unfoldable pub keep_or_move : Db → ℕ → Option Bool → List ℕ → Outcome
  unfolding reported resolution_result deterministic_decision refresh_subject_readiness
      remap_source_record unassign_source_record
  keep_or_move db subject_id (some true) successors = ok (
    resolution_result persisted.source_record_id resolved (some subject_id) (some external_key) [],
    refresh_subject_readiness policy db subject_id,
  )
  keep_or_move db subject_id _ (successor_id ∷ []) =
      reported
        (λ event_id.
          resolution_result persisted.source_record_id resolved (some successor_id)
            (some external_key_lineage) (event_id ∷ []))
        (remap_source_record policy db persisted.source_record_id subject_id successor_id
          (deterministic_decision (codes "exact-key-lineage-successor") decided_at effective_at)
          (persisted.evidence_id ∷ []) none)
  keep_or_move db subject_id _ _ =
      reported
        (λ event_id.
          resolution_result persisted.source_record_id needs_review none none (event_id ∷ []))
        (unassign_source_record policy db persisted.source_record_id subject_id
          (deterministic_decision (codes "exact-key-retired-subject") decided_at effective_at)
          (persisted.evidence_id ∷ []) none)

  -- an open record, after the events that opened it
  unfoldable pub match_url : Db → List ℕ → Option ℕ → Outcome
  unfolding reported resolution_result deterministic_decision assign_source_record
  match_url db events none =
      ok (resolution_result persisted.source_record_id unresolved none none events, db)
  match_url db events (some target_id) =
      reported
        (λ event_id.
          resolution_result persisted.source_record_id resolved (some target_id)
            (some canonical_url) (events ++ event_id ∷ []))
        (assign_source_record policy db persisted.source_record_id target_id
          (deterministic_decision (codes "exact-canonical-url") decided_at effective_at)
          (persisted.evidence_id ∷ []) none)

  unfoldable pub after_admission :
      Option ℕ → Result ResolutionError (ResolutionEvent × Db) → Outcome
  unfolding match_url
  after_admission target (raise e) = raise (refused e)
  after_admission target (ok (opened, db)) = match_url db (opened.id ∷ []) target

  -- the branches, on the state, Subject, currentness, successors and URL target of the plan
  unfoldable pub branch :
      Db → Option ResolutionState → Option ℕ → Option Bool → List ℕ → Option ℕ → Outcome
  unfolding keep_or_move match_url after_admission admit_source_record resolution_result
      deterministic_decision
  branch db (some resolved) none is_current successors target = raise no_subject
  branch db (some resolved) (some i) is_current successors target =
      keep_or_move db i is_current successors
  branch db (some needs_review) subject is_current successors target =
      ok (resolution_result persisted.source_record_id needs_review none none [], db)
  branch db (some unresolved) subject is_current successors target = match_url db [] target
  branch db none subject is_current successors target = after_admission target (
      admit_source_record policy db persisted.source_record_id
        (deterministic_decision (codes "deterministic-admission") decided_at effective_at)
        (persisted.evidence_id ∷ []) none)

  -- what stands below the check of the plan
  unfoldable pub decide : Db → ResolutionPlan → Outcome
  unfolding branch
  decide db plan =
      branch db plan.prior_state plan.prior_subject_id plan.prior_is_current plan.successor_ids
        plan.url_target_id

module _ {Observation : Type 0} (bronze : Bronze Observation) (policy : Policy) where
  -- below the locks: the persisted observation, and the plan read again
  unfoldable pub under_locks :
      ℕ → Observation → Option ℕ → ResolutionPlan → List (ℕ × ℕ) → Persisted × Db → Outcome
  unfolding decide same_plan read_resolution_plan
  under_locks decided_at observation record_id plan lineage (persisted, db) =
      if is_none record_id && not persisted.source_record_created
      then raise stale_plan
      else if not (
          same_plan
            (read_resolution_plan bronze (record { db = db; lineage = lineage })
              (some persisted.source_record_id) observation)
            plan)
      then raise stale_plan
      else decide policy decided_at (bronze.observed_at observation) persisted db plan

  -- `_resolve_observation_once`: the plan is read in the first world, and the locks are held in the
  -- second, with what other transactions have committed since.
  unfoldable pub resolve_observation_once : ℕ → Observation → World → World → Outcome
  unfolding under_locks
  resolve_observation_once decided_at observation planned held =
      let record_id = bronze.find_source_record_id planned.db observation in
      under_locks decided_at observation record_id
        (read_resolution_plan bronze planned record_id observation) held.lineage
        (bronze.persist_source_record_observation held.db observation)

  -- the second attempt, and the error that it leaves
  unfoldable pub last_attempt : Outcome → Outcome
  last_attempt (raise stale_plan) = raise resolution_conflict
  last_attempt r = r

  unfoldable pub first_attempt : Outcome → Outcome → Outcome
  first_attempt second (raise stale_plan) = second
  first_attempt second r = r

  -- A stale attempt is rolled back, and the next one starts from what the others have committed.
  unfoldable pub resolve_source_record_observation :
      ℕ → Observation → World → World → World → World → Outcome
  unfolding resolve_observation_once last_attempt first_attempt
  resolve_source_record_observation decided_at observation planned held planned_again held_again =
      if bronze.succeeded observation
      then first_attempt
          (last_attempt (resolve_observation_once decided_at observation planned_again held_again))
          (resolve_observation_once decided_at observation planned held)
      else raise rejected_observation
