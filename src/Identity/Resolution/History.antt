-- ===== src/Identity/Resolution/History.antt =====
-- One command, the history and the projection.
use first_helios.Identity.Resolution.Commands.{
  named_subjects, Policy, refresh_subject_readiness, refresh_all, new_event, insert_event, recorded,
  record_resolution,
}
use first_helios.Base.{
  ℕ, suc, false, Option, none, some, List, [], ◌∷◌, ◌==◌, arith, ◌≡◌, ◌≢◌, refl, sym, subst,
  Bool-cases, inl, inr, ◌⊎◌, ◌∙◌, ap,
}
use first_helios.Base.Results.{Result, ok}
use first_helios.Identity.Resolution.{
  Operation, ResolutionEvent, ResolutionError, CurrentResolution, DecisionMetadata, Db, open_record,
  get_current, last_sequence, row_of, project_resolution_event, validate_resolution_transition,
  target_error, transition_error, or_else,
}
use first_helios.Identity.Resolution.Projection.{
  latest_event, row_of_latest, rebuilt_row, IsProjected, latest_event-new, latest_event-other,
  project-other, project-own, moves_row,
}

-- What a recorded event is, and which tables it leaves.
pub record Recorded (db : Db) (record_id : ℕ) (op : Operation) (from_id to_id : Option ℕ)
    (event : ResolutionEvent) (after : Db) : Type 0 where
  pub passed : validate_resolution_transition db record_id op from_id to_id ≡ none
  pub record_of : event.source_record_id ≡ record_id
  pub operation_of : event.operation ≡ op
  pub from_of : event.from_subject_id ≡ from_id
  pub to_of : event.to_subject_id ≡ to_id
  pub next : event.sequence_no ≡ suc (last_sequence record_id db.events)
  pub appended : after.events ≡ event ∷ db.events
  pub projected : after.current ≡ project_resolution_event event db.current

refresh_all-tables :
    (policy : Policy) (db : Db) (ids : List ℕ)
    → ((refresh_all policy db ids).events ≡ db.events)
      × ((refresh_all policy db ids).current ≡ db.current)
unfolding refresh_all refresh_subject_readiness
refresh_all-tables policy db [] = (refl, refl)
refresh_all-tables policy db (i ∷ rest) =
    refresh_all-tables policy (refresh_subject_readiness policy db i) rest

ok_pair :
    {a c : ResolutionEvent} {b d : Db}
    → ◌≡◌ {A = Result ResolutionError (ResolutionEvent × Db)} (ok (a, b)) (ok (c, d))
    → (a ≡ c) × (b ≡ d)
ok_pair h = (cc, cc)

recorded-Recorded :
    (o : Option ResolutionError) (policy : Policy) (db : Db) (record_id : ℕ) (op : Operation)
    (from_id to_id : Option ℕ) (decision : DecisionMetadata) (evidence_ids : List ℕ)
    (adjudication_id : Option ℕ) {event : ResolutionEvent} {after : Db}
    → validate_resolution_transition db record_id op from_id to_id ≡ o
    → recorded o policy db
        (new_event db record_id op from_id to_id decision adjudication_id)
        evidence_ids
      ≡ ok (event, after)
    → Recorded db record_id op from_id to_id event after
unfolding recorded new_event insert_event
recorded-Recorded (some x) policy db record_id op from_id to_id decision evidence_ids
      adjudication_id v h =
    cc
recorded-Recorded none policy db record_id op from_id to_id decision evidence_ids adjudication_id
      {event} {after} v h =
    let (p, q) = ok_pair h in
    let (es, cs) = refresh_all-tables policy (insert_event db made evidence_ids) ids in
    record {
      passed = v;
      record_of = ap (λ (e : ResolutionEvent). e.source_record_id) (sym p);
      operation_of = ap (λ (e : ResolutionEvent). e.operation) (sym p);
      from_of = ap (λ (e : ResolutionEvent). e.from_subject_id) (sym p);
      to_of = ap (λ (e : ResolutionEvent). e.to_subject_id) (sym p);
      next = ap (λ (e : ResolutionEvent). e.sequence_no) (sym p);
      appended =
          ap (λ (d : Db). d.events) (sym q) ∙ es ∙ ap (λ (e : ResolutionEvent). e ∷ db.events) p;
      projected =
          ap (λ (d : Db). d.current) (sym q)
          ∙ cs
          ∙ ap (λ e. project_resolution_event e db.current) p;
    }
  where
    made : ResolutionEvent
    made = new_event db record_id op from_id to_id decision adjudication_id

    ids : List ℕ
    ids = named_subjects from_id to_id

-- A command that succeeds was checked, appends one event and projects it.
pub record_resolution-Recorded :
    (policy : Policy) (db : Db) (record_id : ℕ) (op : Operation) (from_id to_id : Option ℕ)
    (decision : DecisionMetadata) (evidence_ids : List ℕ) (adjudication_id : Option ℕ)
    {event : ResolutionEvent} {after : Db}
    → record_resolution policy db record_id op from_id to_id decision evidence_ids adjudication_id
      ≡ ok (event, after)
    → Recorded db record_id op from_id to_id event after
unfolding record_resolution
record_resolution-Recorded policy db record_id op from_id to_id decision evidence_ids
      adjudication_id h =
    recorded-Recorded (validate_resolution_transition db record_id op from_id to_id) policy db
      record_id op from_id to_id decision evidence_ids adjudication_id refl (ground arith)

or_else-none : (o rest : Option ResolutionError) → or_else o rest ≡ none → rest ≡ none
unfolding or_else
or_else-none o rest h = ground arith

-- The row that the command's checks have found, or none for an open.
Recorded-moves :
    {db : Db} {record_id : ℕ} {op : Operation} {from_id to_id : Option ℕ} {event : ResolutionEvent}
    {after : Db}
    → Recorded db record_id op from_id to_id event after
    → (event.operation ≡ open_record)
      ⊎ ((old : CurrentResolution) × (get_current record_id db.current ≡ some old))
unfolding validate_resolution_transition
Recorded-moves {db} {record_id} {op} {from_id} {to_id} {event} h = ground (
  arith,
  moves_row record_id op from_id to_id (get_current record_id db.current),
  or_else-none (target_error db to_id)
      (transition_error record_id op from_id to_id (get_current record_id db.current)) h.passed,
  h.operation_of,
)

-- The projected row after a command is that of its event.
pub Recorded-current :
    {db : Db} {record_id : ℕ} {op : Operation} {from_id to_id : Option ℕ} {event : ResolutionEvent}
    {after : Db}
    → Recorded db record_id op from_id to_id event after
    → get_current record_id after.current ≡ some (row_of event)
Recorded-current {db} {record_id} {op} {from_id} {to_id} {event} h =
    ap (get_current record_id) h.projected
    ∙ project-own record_id event db.current h.record_of (Recorded-moves h)

pub Recorded-other :
    {db : Db} {record_id : ℕ} {op : Operation} {from_id to_id : Option ℕ} {event : ResolutionEvent}
    {after : Db} (r : ℕ)
    → Recorded db record_id op from_id to_id event after
    → record_id ≢ r
    → get_current r after.current ≡ get_current r db.current
Recorded-other {db} {record_id} {op} {from_id} {to_id} {event} r h ne =
    ap (get_current r) h.projected
    ∙ project-other r event db.current (λ e. ne (sym h.record_of ∙ e))

pub Recorded-IsProjected :
    {db : Db} {record_id : ℕ} {op : Operation} {from_id to_id : Option ℕ} {event : ResolutionEvent}
    {after : Db}
    → Recorded db record_id op from_id to_id event after
    → IsProjected db
    → IsProjected after
unfolding IsProjected rebuilt_row row_of_latest
Recorded-IsProjected {db} {record_id} {op} {from_id} {to_id} {event} {after} h kept r =
    elim (Bool-cases (record_id == r)) [
      | inl e ↦ own (ground arith)
      | inr e ↦
          Recorded-other r h (other e)
          ∙ kept r
          ∙ sym (
              ap row_of_latest (
                ap (latest_event r) h.appended
                ∙ latest_event-other r event db.events (λ p. other e (sym h.record_of ∙ p))))
    ]
  where
    other : (record_id == r) ≡ false → record_id ≢ r
    other e = ground arith

    own : record_id ≡ r → get_current r after.current ≡ row_of_latest (latest_event r after.events)
    own p =
        subst (λ q. get_current q after.current ≡ row_of_latest (latest_event q after.events)) p
          (Recorded-current h
            ∙ sym (
                ap row_of_latest (
                  ap (latest_event record_id) h.appended
                  ∙ latest_event-new record_id event db.events h.record_of h.next)))

-- If the projection holds for every record the row that a rebuild would write, it does so after every command that succeeds.
pub record_resolution-IsProjected :
    (policy : Policy) (db : Db) (record_id : ℕ) (op : Operation) (from_id to_id : Option ℕ)
    (decision : DecisionMetadata) (evidence_ids : List ℕ) (adjudication_id : Option ℕ)
    (event : ResolutionEvent) (after : Db)
    → IsProjected db
    → record_resolution policy db record_id op from_id to_id decision evidence_ids adjudication_id
      ≡ ok (event, after)
    → IsProjected after
record_resolution-IsProjected policy db record_id op from_id to_id decision evidence_ids
      adjudication_id event after kept h =
    Recorded-IsProjected
      (record_resolution-Recorded policy db record_id op from_id to_id decision evidence_ids
        adjudication_id h)
      kept

-- After a command that succeeds the record's row is that of the new event, and every other record's row is what it was.
pub record_resolution-rows :
    (policy : Policy) (db : Db) (record_id : ℕ) (op : Operation) (from_id to_id : Option ℕ)
    (decision : DecisionMetadata) (evidence_ids : List ℕ) (adjudication_id : Option ℕ)
    (event : ResolutionEvent) (after : Db)
    → record_resolution policy db record_id op from_id to_id decision evidence_ids adjudication_id
      ≡ ok (event, after)
    → (get_current record_id after.current ≡ some (row_of event))
      × ((r : ℕ) → record_id ≢ r → get_current r after.current ≡ get_current r db.current)
record_resolution-rows policy db record_id op from_id to_id decision evidence_ids adjudication_id
      event after h =
    let done =
      record_resolution-Recorded policy db record_id op from_id to_id decision evidence_ids
        adjudication_id h in
    (Recorded-current done, λ r. Recorded-other r done)
