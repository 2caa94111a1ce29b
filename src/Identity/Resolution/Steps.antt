-- ===== src/Identity/Resolution/Steps.antt =====
-- The commands as a step relation, and soundness of a database.
use first_helios.Base.{
  ℕ, true, false, Option, none, some, List, [], ◌∷◌, ◌==◌, arith, ◌≡◌, refl, sym, subst, inl, inr,
  In, Option-cases, ◌∙◌,
}
use first_helios.Base.Results.{ok}
use first_helios.Identity.Resolution.{
  Db, Operation, open_record, assign, remap, unassign, ResolutionEvent, CurrentResolution,
  DecisionMetadata, get_current, row_ok, is_resolved, well_shaped, row_of,
  validate_resolution_transition, transition_error, or_else,
}
use first_helios.Identity.Resolution.Commands.{
  Policy, admit_source_record, assign_source_record, remap_source_record, unassign_source_record,
  record_resolution,
}
use first_helios.Identity.Resolution.Projection.{
  IsProjected, latest_event, rebuilt_row, row_of_latest, later_event,
}
use first_helios.Identity.Resolution.History.{
  Recorded, record_resolution-Recorded, Recorded-IsProjected,
}

module _ (policy : Policy) where
  -- One command that succeeds.
  pub data Step (db : Db) (after : Db) : Type 0 where
    admitted :
        (r : ℕ) (d : DecisionMetadata) (e : List ℕ) (a : Option ℕ) (event : ResolutionEvent)
        → admit_source_record policy db r d e a ≡ ok (event, after)
        → Step db after
    assigned :
        (r t : ℕ) (d : DecisionMetadata) (e : List ℕ) (a : Option ℕ) (event : ResolutionEvent)
        → assign_source_record policy db r t d e a ≡ ok (event, after)
        → Step db after
    remapped :
        (r f t : ℕ) (d : DecisionMetadata) (e : List ℕ) (a : Option ℕ) (event : ResolutionEvent)
        → remap_source_record policy db r f t d e a ≡ ok (event, after)
        → Step db after
    unassigned :
        (r f : ℕ) (d : DecisionMetadata) (e : List ℕ) (a : Option ℕ) (event : ResolutionEvent)
        → unassign_source_record policy db r f d e a ≡ ok (event, after)
        → Step db after

  pub data Reaches (start : Db) : Db → Type 0 where
    start_of : Reaches start start
    then_step : {db after : Db} → Reaches start db → Step db after → Reaches start after

-- The projection is the rebuilt one and every event has the shape of its operation.
pub record IsSound (db : Db) : Type 0 where
  pub projected : IsProjected db
  pub shaped : (e : ResolutionEvent) → In e db.events → well_shaped e ≡ true

shape_of :
    {db : Db} {record_id : ℕ} {op : Operation} {from_id to_id : Option ℕ} {event : ResolutionEvent}
    {after : Db}
    → Recorded db record_id op from_id to_id event after
    → (validate_resolution_transition db record_id op from_id to_id ≡ none
        → well_shaped
            (record event { operation = op; from_subject_id = from_id; to_subject_id = to_id })
          ≡ true)
    → well_shaped event ≡ true
unfolding well_shaped
shape_of {db} {record_id} {op} {from_id} {to_id} {event} h k =
    ground (arith, k h.passed, h.operation_of, h.from_of, h.to_of)

Recorded-IsSound :
    {db : Db} {record_id : ℕ} {op : Operation} {from_id to_id : Option ℕ} {event : ResolutionEvent}
    {after : Db}
    → Recorded db record_id op from_id to_id event after
    → well_shaped event ≡ true
    → IsSound db
    → IsSound after
Recorded-IsSound {db} {record_id} {op} {from_id} {to_id} {event} {after} h s k = record {
  projected = Recorded-IsProjected h k.projected;
  shaped = λ e m. elim (subst (In e) h.appended m) [
    | inl p ↦ subst (λ x. well_shaped x ≡ true) (sym p) s
    | inr i ↦ k.shaped e i
  ];
}

remap_differs :
    (db : Db) (record_id f t : ℕ)
    → validate_resolution_transition db record_id remap (some f) (some t) ≡ none
    → (f == t) ≡ false
unfolding validate_resolution_transition transition_error or_else
remap_differs db record_id f t h = ground arith

pub admitted_record :
    (policy : Policy) (db : Db) (r : ℕ) (d : DecisionMetadata) (e : List ℕ) (a : Option ℕ)
    {event : ResolutionEvent} {after : Db}
    → admit_source_record policy db r d e a ≡ ok (event, after)
    → record_resolution policy db r open_record none none d e a ≡ ok (event, after)
unfolding admit_source_record
admitted_record policy db r d e a h = ground arith

Step-IsSound : (policy : Policy) {db after : Db} → Step policy db after → IsSound db → IsSound after
unfolding well_shaped admit_source_record assign_source_record remap_source_record
    unassign_source_record
Step-IsSound policy {db} (admitted r d e a event h) k =
    let done =
      record_resolution-Recorded policy db r open_record none none d e a
        (admitted_record policy db r d e a h) in
    Recorded-IsSound done (shape_of done (λ v. refl)) k
Step-IsSound policy {db} (assigned r t d e a event h) k =
    let done = record_resolution-Recorded policy db r assign none (some t) d e a h in
    Recorded-IsSound done (shape_of done (λ v. refl)) k
Step-IsSound policy {db} (remapped r f t d e a event h) k =
    let done = record_resolution-Recorded policy db r remap (some f) (some t) d e a h in
    Recorded-IsSound done (shape_of done (λ v. ground (arith, remap_differs db r f t v))) k
Step-IsSound policy {db} (unassigned r f d e a event h) k =
    let done = record_resolution-Recorded policy db r unassign (some f) none d e a h in
    Recorded-IsSound done (shape_of done (λ v. refl)) k

-- The four commands keep a database sound: in every database that they reach from a sound one, the projection is what a rebuild would write, and every event has the subjects of its operation.
pub Reaches-IsSound :
    (policy : Policy) (start db : Db) → IsSound start → Reaches policy start db → IsSound db
Reaches-IsSound policy start db k start_of = k
Reaches-IsSound policy start db k (then_step r s) =
    Step-IsSound policy s (Reaches-IsSound policy start _ k r)

latest_event-In :
    (r : ℕ) (es : List ResolutionEvent) (k : ResolutionEvent) → latest_event r es ≡ some k → In k es
unfolding latest_event later_event
latest_event-In r [] k h = cc
latest_event-In r (e ∷ es) k h = elim (Option-cases (latest_event r es)) [
  | inl n ↦ ground arith
  | inr (j, s) ↦ ground (arith, latest_event-In r es j s)
]

row_of-row_ok : (e : ResolutionEvent) → well_shaped e ≡ true → row_ok (row_of e) ≡ true
unfolding well_shaped row_ok row_of is_resolved
row_of-row_ok e h = ground arith

row_of_latest-some :
    (o : Option ResolutionEvent) (row : CurrentResolution)
    → row_of_latest o ≡ some row
    → (e : ResolutionEvent) × (o ≡ some e) × (row_of e ≡ row)
unfolding row_of_latest
row_of_latest-some none row h = cc
row_of_latest-some (some e) row h = (e, refl, some_value h)
  where
    some_value : {a b : CurrentResolution} → some a ≡ some b → a ≡ b
    some_value q = cc

-- In a sound database every projected row satisfies the CHECK of its table: it names a subject exactly if its state is `resolved`.
pub IsSound-row_ok :
    (db : Db) (record_id : ℕ) (row : CurrentResolution)
    → IsSound db
    → get_current record_id db.current ≡ some row
    → row_ok row ≡ true
unfolding IsProjected rebuilt_row
IsSound-row_ok db record_id row k h =
    let (e, l, s) =
      row_of_latest-some (latest_event record_id db.events) row (sym (k.projected record_id) ∙ h) in
    subst (λ x. row_ok x ≡ true) s
      (row_of-row_ok e (k.shaped e (latest_event-In record_id db.events e l)))
