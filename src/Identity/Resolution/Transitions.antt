-- ===== src/Identity/Resolution/Transitions.antt =====
-- The check in Python beside the check in the database.
use first_helios.Base.{none, true, arith, ◌≡◌, ◌↔◌}
use first_helios.Identity.Resolution.{
  ResolutionEvent, Db, well_shaped, trigger_allows, validate_resolution_transition, target_error,
  transition_error, or_else, assign_error, moved_error,
}

-- For an event whose subjects have the shape that its operation asks for, the Python check passes exactly when the trigger lets the event in.
pub validate_resolution_transition-trigger_allows :
    (db : Db) (event : ResolutionEvent)
    → well_shaped event ≡ true
    → (validate_resolution_transition db event.source_record_id event.operation
          event.from_subject_id event.to_subject_id
        ≡ none)
      ↔ (trigger_allows db event ≡ true)
unfolding validate_resolution_transition trigger_allows well_shaped target_error transition_error
    or_else assign_error moved_error
validate_resolution_transition-trigger_allows db event h = ground arith
