-- ===== src/Identity/Observe/Attempts.antt =====
-- The attempts of `resolve_source_record_observation`, whatever other transactions commit before
-- the locks are held (packages/helios_core/identity/commands.py).
use first_helios.Base.{◌⊎◌}
use first_helios.Identity.Observe.{Edge}
use first_helios.Base.{In}
use first_helios.Base.{
  ℕ, Bool, true, false, Option, none, some, List, In, ◌≡◌, refl, sym, ap, ◌∙◌, subst, arith, not,
  &&-true, inl, inr, option_eq_iff, option_eq, if◌then◌else◌,
}
use first_helios.Base.Text.{text_eq}
use first_helios.Base.Results.{raise, ok}
use first_helios.Identity.Resolution.{Db, ResolutionState, CurrentResolution, get_current}
use first_helios.Identity.Resolution.Commands.{Policy}
use first_helios.Identity.Resolution.Projection.{IsProjected, rebuilt_row}
use first_helios.Identity.Resolution.Steps.{IsSound}
use first_helios.Identity.Observe.{
  Bronze, Persisted, ResolutionPlan, DeterministicResolutionResult, rejected_observation,
  stale_plan, World, read_resolution_plan, row_state, row_subject, row_at, plan_of,
}
use first_helios.Identity.Observe.Attempt.{
  same_state, same_flag, same_plan, Outcome, decide, under_locks, resolve_observation_once,
  last_attempt, first_attempt, resolve_source_record_observation,
}
use first_helios.Identity.Observe.Holds.{Holds, Reports}
use first_helios.Identity.Observe.Reports.{branch-Reports}

-- Persisting an observation writes no table of Identity.
pub record KeepsIdentity {Observation : Type 0} (bronze : Bronze Observation) : Type 0 where
  pub events_kept :
      (db : Db) (o : Observation)
      → (bronze.persist_source_record_observation db o).1.events ≡ db.events
  pub current_kept :
      (db : Db) (o : Observation)
      → (bronze.persist_source_record_observation db o).1.current ≡ db.current

same_tables :
    (db after : Db)
    → after.events ≡ db.events
    → after.current ≡ db.current
    → IsSound db
    → IsSound after
unfolding IsProjected
same_tables db after e c k = record {
  projected = λ r. ap (get_current r) c ∙ k.projected r ∙ ap (rebuilt_row r) (sym e);
  shaped = λ x m. k.shaped x (subst (λ es. In x es) e m);
}

same_state_lem : (a b : Option ResolutionState) → same_state a b ≡ true → a ≡ b
unfolding same_state
same_state_lem none none h = refl
same_state_lem (some a) (some b) h = ground arith
same_state_lem none (some b) h = cc
same_state_lem (some a) none h = ground arith

same_flag_lem : (a b : Option Bool) → same_flag a b ≡ true → a ≡ b
unfolding same_flag
same_flag_lem none none h = refl
same_flag_lem (some a) (some b) h = ground arith
same_flag_lem none (some b) h = cc
same_flag_lem (some a) none h = ground arith

-- What two equal plans agree on about the record's own row.
pub record SamePrior (p q : ResolutionPlan) : Type 0 where
  pub state : p.prior_state ≡ q.prior_state
  pub subject : p.prior_subject_id ≡ q.prior_subject_id
  pub is_current : p.prior_is_current ≡ q.prior_is_current

same_plan-SamePrior : (p q : ResolutionPlan) → same_plan p q ≡ true → SamePrior p q
unfolding same_plan
same_plan-SamePrior p q h =
    let (h1, targets) = &&-true _ (option_eq p.url_target_id q.url_target_id) h in
    let (h2, records) = &&-true _ (text_eq p.url_source_record_ids q.url_source_record_ids) h1 in
    let (h3, successors) = &&-true _ (text_eq p.successor_ids q.successor_ids) h2 in
    let (h4, flag) = &&-true _ (same_flag p.prior_is_current q.prior_is_current) h3 in
    let (state, subject) =
      &&-true (same_state p.prior_state q.prior_state)
        (option_eq p.prior_subject_id q.prior_subject_id) h4 in
    record {
      state = same_state_lem _ _ state;
      subject = (option_eq_iff _ _).0 subject;
      is_current = same_flag_lem _ _ flag;
    }

two_tests-ok :
    (a b : Bool) (r : Outcome) (result : DeterministicResolutionResult) (after : Db)
    → (if a then raise stale_plan else if not b then raise stale_plan else r) ≡ ok (result, after)
    → (b ≡ true) × (r ≡ ok (result, after))
two_tests-ok true b r result after h = cc
two_tests-ok false true r result after h = (refl, h)
two_tests-ok false false r result after h = cc

read_Holds :
    (db : Db) (record_id : ℕ) (o : Option CurrentResolution) (s : ResolutionState) (i : Option ℕ)
    → get_current record_id db.current ≡ o
    → row_state o ≡ some s
    → row_subject o ≡ i
    → Holds db record_id s i
unfolding row_state row_subject
read_Holds db record_id none s i h k l = cc
read_Holds db record_id (some row) s i h k l = record {
  row = row;
  found = h;
  state_is = some_same row.state s k;
  subject_is = l;
}
  where
    some_same : (x y : ResolutionState) → some x ≡ some y → x ≡ y
    some_same x y h = cc

module _ {Observation : Type 0} (bronze : Bronze Observation) (policy : Policy) where
  pub under_locks-ok :
      (decided_at : ℕ) (o : Observation) (record_id : Option ℕ) (plan : ResolutionPlan)
      (lineage : List Edge) (persisted : Persisted) (db : Db)
      (result : DeterministicResolutionResult) (after : Db)
      → under_locks bronze policy decided_at o record_id plan lineage (persisted, db)
        ≡ ok (result, after)
      → SamePrior
          (read_resolution_plan bronze
            (record { db = db; lineage = lineage })
            (some persisted.source_record_id)
            o)
          plan
        × (decide policy decided_at (bronze.observed_at o) persisted db plan ≡ ok (result, after))
  unfolding under_locks
  under_locks-ok decided_at o record_id plan lineage persisted db result after h =
      let (same, decided) = two_tests-ok _ _ _ result after h in
      (same_plan-SamePrior _ plan same, decided)

  under_locks-Reports :
      (decided_at : ℕ) (o : Observation) (record_id : Option ℕ) (plan : ResolutionPlan)
      (lineage : List Edge) (persisted : Persisted) (db : Db)
      (result : DeterministicResolutionResult) (after : Db)
      → IsSound db
      → under_locks bronze policy decided_at o record_id plan lineage (persisted, db)
        ≡ ok (result, after)
      → Reports result after
  unfolding decide read_resolution_plan plan_of row_at
  under_locks-Reports decided_at o record_id plan lineage persisted db result after k h =
      let (prior, decided) =
        under_locks-ok decided_at o record_id plan lineage persisted db result after h in
      branch-Reports policy decided_at (bronze.observed_at o) persisted db plan.prior_state
        plan.prior_subject_id plan.prior_is_current plan.successor_ids plan.url_target_id result
        after k
        (λ s e.
          read_Holds db persisted.source_record_id _ s plan.prior_subject_id refl (prior.state ∙ e)
            prior.subject)
        decided

  resolve_observation_once-Reports :
      (decided_at : ℕ) (o : Observation) (planned held : World)
      (result : DeterministicResolutionResult) (after : Db)
      → KeepsIdentity bronze
      → IsSound held.db
      → resolve_observation_once bronze policy decided_at o planned held ≡ ok (result, after)
      → Reports result after
  unfolding resolve_observation_once
  resolve_observation_once-Reports decided_at o planned held result after keeps k h =
      under_locks-Reports decided_at o (bronze.find_source_record_id planned.db o)
        (read_resolution_plan bronze planned (bronze.find_source_record_id planned.db o) o)
        held.lineage (bronze.persist_source_record_observation held.db o).0
        (bronze.persist_source_record_observation held.db o).1 result after
        (same_tables held.db (bronze.persist_source_record_observation held.db o).1
          (keeps.events_kept held.db o) (keeps.current_kept held.db o) k)
        h

  first_or_last :
      (first second : Outcome) (result : DeterministicResolutionResult) (after : Db)
      → first_attempt bronze policy (last_attempt bronze policy second) first ≡ ok (result, after)
      → (first ≡ ok (result, after)) ⊎ (second ≡ ok (result, after))
  unfolding first_attempt last_attempt
  first_or_last (ok x) second result after h = inl h
  first_or_last (raise stale_plan) (ok y) result after h = inr h
  first_or_last (raise stale_plan) (raise e) result after h = inr (ground arith)
  first_or_last (raise e) second result after h = inl (ground arith)

  -- Whatever other transactions commit before the locks are held, as long as they leave the
  -- database sound, and where persisting an observation writes no table of Identity: when an
  -- observation is resolved, by the first attempt or the second, the reported state and Subject are
  -- those of the record's row, and the database is sound.
  pub resolve_source_record_observation-Reports :
      (decided_at : ℕ) (o : Observation) (planned held planned_again held_again : World)
      (result : DeterministicResolutionResult) (after : Db)
      → KeepsIdentity bronze
      → IsSound held.db
      → IsSound held_again.db
      → resolve_source_record_observation bronze policy decided_at o planned held planned_again
          held_again
        ≡ ok (result, after)
      → Reports result after
  unfolding resolve_source_record_observation
  resolve_source_record_observation-Reports decided_at o planned held planned_again held_again
        result after keeps k l h =
      elim (first_or_last _ _ result after (succeeded_only (bronze.succeeded o) _ h)) [
        | inl e ↦ resolve_observation_once-Reports decided_at o planned held result after keeps k e
        | inr e ↦
            resolve_observation_once-Reports decided_at o planned_again held_again result after
              keeps l e
      ]
    where
      succeeded_only :
          (b : Bool) (r : Outcome)
          → (if b then r else raise rejected_observation) ≡ ok (result, after)
          → r ≡ ok (result, after)
      succeeded_only b r h = ground arith
