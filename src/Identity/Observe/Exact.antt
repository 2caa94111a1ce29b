-- ===== src/Identity/Observe/Exact.antt =====
-- A record that is already resolved, or that waits for a review
-- (`_resolve_observation_once` of packages/helios_core/identity/commands.py).
use first_helios.Base.{ℕ, true, none, some, [], ◌≡◌, refl, sym, ap, ◌∙◌}
use first_helios.Base.Results.{ok}
use first_helios.Identity.Resolution.{Db, needs_review, resolved, CurrentResolution, get_current}
use first_helios.Identity.Resolution.Commands.{Policy, refresh_subject_readiness}
use first_helios.Identity.Observe.{
  Bronze, Persisted, ResolutionPlan, external_key, DeterministicResolutionResult, World,
  read_resolution_plan, row_state, row_subject, row_at, plan_of, prior_currentness,
}
use first_helios.Identity.Observe.Attempt.{
  Outcome, resolution_result, keep_or_move, branch, decide, under_locks, resolve_observation_once,
}
use first_helios.Identity.Observe.Attempts.{SamePrior, under_locks-ok}

outcome_same :
    {a c : DeterministicResolutionResult} {b d : Db}
    → Path Outcome (ok (a, b)) (ok (c, d))
    → (c ≡ a) × (d ≡ b)
outcome_same h = (cc, cc)

module _ {Observation : Type 0} (bronze : Bronze Observation) (policy : Policy) (decided_at : ℕ)
    (o : Observation) (planned held : World) (persisted : Persisted) (db : Db)
    (row : CurrentResolution) (result : DeterministicResolutionResult) (after : Db)
    (written : bronze.persist_source_record_observation held.db o ≡ (persisted, db))
    (found : get_current persisted.source_record_id db.current ≡ some row)
    (done : resolve_observation_once bronze policy decided_at o planned held
      ≡ ok (result, after)) where
  plan : ResolutionPlan
  plan = read_resolution_plan bronze planned (bronze.find_source_record_id planned.db o) o

  decided :
      SamePrior
        (read_resolution_plan bronze
          (record { db = db; lineage = held.lineage })
          (some persisted.source_record_id)
          o)
        plan
      × (decide policy decided_at (bronze.observed_at o) persisted db plan ≡ ok (result, after))
  unfolding resolve_observation_once plan
  decided =
      under_locks-ok bronze policy decided_at o (bronze.find_source_record_id planned.db o) plan
        held.lineage persisted db result after
        (ap
            (under_locks bronze policy decided_at o (bronze.find_source_record_id planned.db o)
              (read_resolution_plan bronze planned (bronze.find_source_record_id planned.db o) o)
              held.lineage)
            (sym written)
          ∙ done)

  review_kept :
      (p : ResolutionPlan)
      → p.prior_state ≡ some needs_review
      → decide policy decided_at (bronze.observed_at o) persisted db p ≡ ok (result, after)
      → (result ≡ resolution_result persisted.source_record_id needs_review none none [])
        × (after ≡ db)
  unfolding decide branch
  review_kept p s h = outcome_same (
      ap
        (λ x.
          branch policy decided_at (bronze.observed_at o) persisted db x p.prior_subject_id
            p.prior_is_current p.successor_ids p.url_target_id)
        (sym s)
      ∙ h)

  kept_branch :
      (p : ResolutionPlan) (i : ℕ)
      → p.prior_state ≡ some resolved
      → p.prior_subject_id ≡ some i
      → p.prior_is_current ≡ some true
      → branch policy decided_at
          (bronze.observed_at o)
          persisted
          db
          p.prior_state
          p.prior_subject_id
          p.prior_is_current
          p.successor_ids
          p.url_target_id
        ≡ keep_or_move policy decided_at
            (bronze.observed_at o)
            persisted
            db
            i
            (some true)
            p.successor_ids
  unfolding branch
  kept_branch p i s t u = rw (s, t, u) refl

  exact_kept :
      (p : ResolutionPlan) (i : ℕ)
      → p.prior_state ≡ some resolved
      → p.prior_subject_id ≡ some i
      → p.prior_is_current ≡ some true
      → decide policy decided_at (bronze.observed_at o) persisted db p ≡ ok (result, after)
      → (result
          ≡ resolution_result persisted.source_record_id resolved (some i) (some external_key) [])
        × (after ≡ refresh_subject_readiness policy db i)
  unfolding decide branch keep_or_move
  exact_kept p i s t u h = outcome_same (sym (kept_branch p i s t u) ∙ h)

  -- A record that waits for a review when the locks are held keeps waiting: the result says so, and
  -- no event is recorded, whatever the URL matches.
  pub resolve_observation_once_review :
      row.state ≡ needs_review
      → (result ≡ resolution_result persisted.source_record_id needs_review none none [])
        × (after ≡ db)
  unfolding read_resolution_plan plan_of row_at row_state
  resolve_observation_once_review h =
      review_kept plan (sym decided.0.state ∙ ap row_state found ∙ ap some h) decided.1

  -- The resolution of an exact key always wins: a record that is resolved to a current Subject when
  -- the locks are held stays with it, whatever the URL matches, and only the readiness of the Subject is read again.
  pub resolve_observation_once_exact :
      (i : ℕ)
      → row.state ≡ resolved
      → row.subject_id ≡ some i
      → prior_currentness db (some resolved) (some i) ≡ some true
      → (result
          ≡ resolution_result persisted.source_record_id resolved (some i) (some external_key) [])
        × (after ≡ refresh_subject_readiness policy db i)
  unfolding read_resolution_plan plan_of row_at row_state row_subject
  resolve_observation_once_exact i h k c =
      exact_kept plan i (sym decided.0.state ∙ ap row_state found ∙ ap some h)
        (sym decided.0.subject ∙ ap row_subject found ∙ k)
        (sym decided.0.is_current
          ∙ ap (λ x. prior_currentness db (row_state x) (row_subject x)) found
          ∙ ap (λ x. prior_currentness db (some x) row.subject_id) h
          ∙ ap (prior_currentness db (some resolved)) k
          ∙ c)
        decided.1
