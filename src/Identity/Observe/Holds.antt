-- ===== src/Identity/Observe/Holds.antt =====
-- A result and the row of its record: what the reports of an attempt are measured by
-- (packages/helios_core/identity/commands.py).
use first_helios.Base.{ℕ, Option, none, some, ◌≡◌, ap, ◌∙◌, subst, arith}
use first_helios.Base.Results.{Result, raise, ok}
use first_helios.Identity.Resolution.{
  Db, ResolutionEvent, ResolutionState, unresolved, needs_review, resolved, ResolutionError,
  Operation, open_record, assign, remap, unassign, CurrentResolution, get_current, row_of,
}
use first_helios.Identity.Resolution.Commands.{Policy, refresh_subject_readiness}
use first_helios.Identity.Resolution.History.{Recorded, Recorded-current}
use first_helios.Identity.Resolution.Projection.{IsProjected}
use first_helios.Identity.Resolution.Steps.{IsSound, Reaches-IsSound, Step, start_of, then_step}
use first_helios.Identity.Observe.{DeterministicResolutionResult}
use first_helios.Identity.Observe.Attempt.{Outcome, reported}

-- The projection holds this state and Subject for the record.
pub record Holds (db : Db) (record_id : ℕ) (state : ResolutionState) (subject_id : Option ℕ)
    : Type 0 where
  pub row : CurrentResolution
  pub found : get_current record_id db.current ≡ some row
  pub state_is : row.state ≡ state
  pub subject_is : row.subject_id ≡ subject_id

-- The result is what the projection holds, and the database is sound.
pub record Reports (result : DeterministicResolutionResult) (after : Db) : Type 0 where
  pub holds : Holds after result.source_record_id result.state result.subject_id
  pub sound : IsSound after

unfoldable pub state_after : Operation → ResolutionState
state_after open_record = unresolved
state_after unassign = needs_review
state_after _ = resolved

unfoldable pub subject_after : Operation → Option ℕ → Option ℕ
subject_after assign to_id = to_id
subject_after remap to_id = to_id
subject_after _ to_id = none

row_of-state : (event : ResolutionEvent) → (row_of event).state ≡ state_after event.operation
unfolding row_of state_after
row_of-state event = ground arith

row_of-subject :
    (event : ResolutionEvent)
    → (row_of event).subject_id ≡ subject_after event.operation event.to_subject_id
unfolding row_of subject_after
row_of-subject event = ground arith

pub Recorded-Holds :
    {db : Db} {record_id : ℕ} {op : Operation} {from_id to_id : Option ℕ} {event : ResolutionEvent}
    {after : Db}
    → Recorded db record_id op from_id to_id event after
    → Holds after record_id (state_after op) (subject_after op to_id)
Recorded-Holds {db} {record_id} {op} {from_id} {to_id} {event} h = record {
  row = row_of event;
  found = Recorded-current h;
  state_is = row_of-state event ∙ ap state_after h.operation_of;
  subject_is =
      row_of-subject event
      ∙ ap (λ o. subject_after o event.to_subject_id) h.operation_of
      ∙ ap (subject_after op) h.to_of;
}

pub reported-ok :
    (report : ℕ → DeterministicResolutionResult) (r : Result ResolutionError (ResolutionEvent × Db))
    (result : DeterministicResolutionResult) (after : Db)
    → reported report r ≡ ok (result, after)
    → (event : ResolutionEvent) × (r ≡ ok (event, after)) × (report event.id ≡ result)
unfolding reported
reported-ok report (raise e) result after h = cc
reported-ok report (ok (event, db)) result after h = (event, cc, cc)

pub outcome_pair :
    {a c : DeterministicResolutionResult} {b d : Db}
    → Path Outcome (ok (a, b)) (ok (c, d))
    → (a ≡ c) × (b ≡ d)
outcome_pair h = (cc, cc)

pub refresh-IsSound :
    (policy : Policy) (db : Db) (i : ℕ)
    → IsSound db
    → IsSound (refresh_subject_readiness policy db i)
unfolding refresh_subject_readiness IsProjected
refresh-IsSound policy db i k = record { projected = k.projected; shaped = k.shaped }

pub Reports_lem :
    {result result' : DeterministicResolutionResult} {after : Db}
    → result ≡ result'
    → Holds after result.source_record_id result.state result.subject_id
    → IsSound after
    → Reports result' after
Reports_lem {result} {result'} {after} same now k =
    subst (λ r. Reports r after) same record { holds = now; sound = k }

pub Step-IsSound_lem :
    (policy : Policy) {db after : Db} → IsSound db → Step policy db after → IsSound after
Step-IsSound_lem policy {db} {after} k s = Reaches-IsSound policy db after k (then_step start_of s)
