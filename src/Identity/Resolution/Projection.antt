-- ===== src/Identity/Resolution/Projection.antt =====
-- The projection and the history (`rebuild_identity_projections` of
-- alembic/versions/3f8b2c1d9a74, its part on resolutions).
use first_helios.Identity.Resolution.{
  moved_error, assign_error, or_else, Operation, open_record, transition_error, ResolutionEvent,
  CurrentResolution, Db, get_current, last_sequence, row_of, update_row, project_resolution_event,
}
use first_helios.Base.{
  ◌⊎◌, ℕ, suc, ◌≤◌, Option, none, some, List, [], ◌∷◌, ◌==◌, ltb, arith, ◌≡◌, ◌≢◌, refl, find_first,
  if◌then◌else◌, Option-cases, inl, inr,
}

-- the later of an event and what has been read
unfoldable pub later_event : ResolutionEvent → Option ResolutionEvent → ResolutionEvent
later_event e none = e
later_event e (some k) = if ltb e.sequence_no k.sequence_no then k else e

-- `DISTINCT ON (source_record_id) ... ORDER BY source_record_id, sequence_no DESC`
unfoldable pub latest_event : ℕ → List ResolutionEvent → Option ResolutionEvent
unfolding later_event
latest_event record_id [] = none
latest_event record_id (e ∷ es) =
    let rest = latest_event record_id es in
    if e.source_record_id == record_id then some (later_event e rest) else rest

unfoldable pub row_of_latest : Option ResolutionEvent → Option CurrentResolution
row_of_latest none = none
row_of_latest (some e) = some (row_of e)

-- The row that a rebuild writes for a record.
unfoldable pub rebuilt_row : ℕ → List ResolutionEvent → Option CurrentResolution
unfolding row_of_latest
rebuilt_row record_id events = row_of_latest (latest_event record_id events)

-- The table holds for every record the row that a rebuild would write.
unfoldable pub IsProjected : Db → Type 0
IsProjected db =
    (record_id : ℕ) → get_current record_id db.current ≡ rebuilt_row record_id db.events

latest_event-sequence :
    (r : ℕ) (es : List ResolutionEvent) (k : ResolutionEvent)
    → latest_event r es ≡ some k
    → k.sequence_no ≤ last_sequence r es
unfolding latest_event last_sequence later_event
latest_event-sequence r [] k h = cc
latest_event-sequence r (e ∷ es) k h = elim (Option-cases (latest_event r es)) [
  | inl n ↦ ground arith
  | inr (j, s) ↦ ground (arith, latest_event-sequence r es j s)
]

pub latest_event-new :
    (r : ℕ) (e : ResolutionEvent) (es : List ResolutionEvent)
    → e.source_record_id ≡ r
    → e.sequence_no ≡ suc (last_sequence r es)
    → latest_event r (e ∷ es) ≡ some e
unfolding latest_event later_event
latest_event-new r e es h s = elim (Option-cases (latest_event r es)) [
  | inl n ↦ ground arith
  | inr (j, q) ↦ ground (arith, latest_event-sequence r es j q)
]

pub latest_event-other :
    (r : ℕ) (e : ResolutionEvent) (es : List ResolutionEvent)
    → e.source_record_id ≢ r
    → latest_event r (e ∷ es) ≡ latest_event r es
unfolding latest_event
latest_event-other r e es h = ground arith

get_current-update_row-other :
    (r : ℕ) (row : CurrentResolution) (rows : List CurrentResolution)
    → row.source_record_id ≢ r
    → get_current r (update_row row rows) ≡ get_current r rows
unfolding get_current update_row find_first
get_current-update_row-other r row [] h = refl
get_current-update_row-other r row (x ∷ rows) h =
    ground (arith, get_current-update_row-other r row rows h)

get_current-update_row :
    (r : ℕ) (row old : CurrentResolution) (rows : List CurrentResolution)
    → row.source_record_id ≡ r
    → get_current r rows ≡ some old
    → get_current r (update_row row rows) ≡ some row
unfolding get_current update_row find_first
get_current-update_row r row old [] h s = cc
get_current-update_row r row old (x ∷ rows) h s =
    ground (arith, get_current-update_row r row old rows h)

pub project-other :
    (r : ℕ) (e : ResolutionEvent) (rows : List CurrentResolution)
    → e.source_record_id ≢ r
    → get_current r (project_resolution_event e rows) ≡ get_current r rows
unfolding project_resolution_event get_current row_of find_first
project-other r e rows h = ground (arith, get_current-update_row-other r (row_of e) rows)

-- A check that passes finds the row that the operation moves.
pub moves_row :
    (r : ℕ) (op : Operation) (from_id to_id : Option ℕ) (o : Option CurrentResolution)
    → transition_error r op from_id to_id o ≡ none
    → (op ≡ open_record) ⊎ ((old : CurrentResolution) × (o ≡ some old))
unfolding transition_error or_else assign_error moved_error
moves_row r op from_id to_id none h = ground arith
moves_row r op from_id to_id (some old) h = inr (old, refl)

pub project-own :
    (r : ℕ) (e : ResolutionEvent) (rows : List CurrentResolution)
    → e.source_record_id ≡ r
    → (e.operation ≡ open_record) ⊎ ((old : CurrentResolution) × (get_current r rows ≡ some old))
    → get_current r (project_resolution_event e rows) ≡ some (row_of e)
unfolding project_resolution_event get_current row_of find_first
project-own r e rows h (inl p) = ground arith
project-own r e rows h (inr (old, q)) =
    ground (arith, get_current-update_row r (row_of e) old rows h q)
