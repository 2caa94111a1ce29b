-- ===== src/Identity/Examples.antt =====
-- A record that is admitted and assigned, and the theorems on resolution applied to it.
use first_helios.Base.{ℕ, true, false, none, some, [], ◌∷◌, ◌≡◌, ◌≢◌, ◌↔◌, refl, any, find_first}
use first_helios.Base.Text.{codes}
use first_helios.Base.Results.{ok, raise}
use first_helios.Identity.Scope.{organization}
use first_helios.Identity.Resolution.{
  Db, DecisionMetadata, ResolutionEvent, CurrentResolution, ActorClass, open_record, assign,
  unresolved, resolved, get_current, is_resolved, is_current_subject, target_error, assign_error,
  moved_error, or_else, transition_error, validate_resolution_transition, well_shaped,
  trigger_allows, last_sequence, row_of, row_ok, update_row, project_resolution_event, same_subject,
}
use first_helios.Identity.Resolution.Commands.{
  Policy, refresh_subject_readiness, refresh_all, named_subjects, new_event, insert_event, recorded,
  record_resolution, admit_source_record, assign_source_record, remap_source_record,
}
use first_helios.Identity.Resolution.Projection.{
  IsProjected, latest_event, rebuilt_row, row_of_latest,
}
use first_helios.Identity.Resolution.History.{record_resolution-IsProjected, record_resolution-rows}
use first_helios.Identity.Resolution.Transitions.{validate_resolution_transition-trigger_allows}
use first_helios.Identity.Resolution.Steps.{
  Reaches, admitted, assigned, start_of, then_step, IsSound, Reaches-IsSound, IsSound-row_ok,
}

program : Unit {0}
unfolding any find_first get_current is_resolved is_current_subject target_error assign_error
    moved_error or_else transition_error validate_resolution_transition well_shaped trigger_allows
    last_sequence row_of row_ok update_row project_resolution_event refresh_subject_readiness
    refresh_all named_subjects new_event insert_event recorded record_resolution admit_source_record
    assign_source_record remap_source_record
program = tt

abbrev pub policy : Policy
policy = λ db i. true

abbrev pub rule_decision : DecisionMetadata
rule_decision = record {
  confidence = 100000;
  method = codes "exact";
  method_version = codes "1";
  actor_class = ActorClass.rule;
  decided_at = 10;
  effective_at = 10;
}

abbrev empty : Db
empty = record {
  source_records = 5 ∷ 6 ∷ [];
  rejected_only = [];
  subjects = record { id = 7; kind = organization; is_eligible = false; is_current = true } ∷ [];
  events = [];
  evidence = [];
  current = [];
  next_event_id = 1;
}

abbrev opened_event : ResolutionEvent
opened_event = record {
  id = 1;
  source_record_id = 5;
  sequence_no = 1;
  operation = open_record;
  from_subject_id = none;
  to_subject_id = none;
  adjudication_id = none;
  decision = rule_decision;
}

abbrev opened_row : CurrentResolution
opened_row = record {
  source_record_id = 5;
  subject_id = none;
  last_event_id = 1;
  state = unresolved;
}

abbrev pub opened : Db
opened = record empty {
  events = opened_event ∷ [];
  evidence = (1, 90) ∷ [];
  current = opened_row ∷ [];
  next_event_id = 2;
}

abbrev mapped_event : ResolutionEvent
mapped_event = record opened_event {
  id = 2;
  sequence_no = 2;
  operation = assign;
  to_subject_id = some 7;
}

abbrev pub mapped_row : CurrentResolution
mapped_row = record opened_row { subject_id = some 7; last_event_id = 2; state = resolved }

abbrev pub mapped : Db
mapped = record opened {
  subjects = record { id = 7; kind = organization; is_eligible = true; is_current = true } ∷ [];
  events = mapped_event ∷ opened_event ∷ [];
  evidence = (2, 91) ∷ (1, 90) ∷ [];
  current = mapped_row ∷ [];
  next_event_id = 3;
}

admit_run :
    admit_source_record policy empty 5 rule_decision (90 ∷ 90 ∷ []) none ≡ ok (opened_event, opened)
unfolding program
admit_run = refl

assign_run :
    assign_source_record policy opened 5 7 rule_decision (91 ∷ []) none ≡ ok (mapped_event, mapped)
unfolding program
assign_run = refl

remap_to_itself_run :
    remap_source_record policy mapped 5 7 7 rule_decision (92 ∷ []) none ≡ raise same_subject
unfolding program
remap_to_itself_run = refl

empty-IsSound : IsSound empty
unfolding IsProjected rebuilt_row row_of_latest latest_event get_current find_first
empty-IsSound = record { projected = λ r. refl; shaped = λ e m. absurd m }

opened-IsSound : IsSound opened
opened-IsSound =
    Reaches-IsSound policy empty opened empty-IsSound
      (then_step start_of (admitted 5 rule_decision (90 ∷ 90 ∷ []) none opened_event admit_run))

two_commands : Reaches policy empty mapped
two_commands =
    then_step
      (then_step start_of (admitted 5 rule_decision (90 ∷ 90 ∷ []) none opened_event admit_run))
      (assigned 5 7 rule_decision (91 ∷ []) none mapped_event assign_run)

pub mapped-IsSound : IsSound mapped
mapped-IsSound = Reaches-IsSound policy empty mapped empty-IsSound two_commands

validate_resolution_transition-trigger_allows_example :
    (validate_resolution_transition opened 5 assign none (some 7) ≡ none)
    ↔ (trigger_allows opened mapped_event ≡ true)
validate_resolution_transition-trigger_allows_example =
    validate_resolution_transition-trigger_allows opened mapped_event (unfold program in refl)

record_resolution-IsProjected_example : IsProjected mapped
record_resolution-IsProjected_example =
    record_resolution-IsProjected policy opened 5 assign none (some 7) rule_decision (91 ∷ []) none
      mapped_event mapped opened-IsSound.projected (unfold program in refl)

record_resolution-rows_example :
    (get_current 5 mapped.current ≡ some (row_of mapped_event))
    × ((r : ℕ) → 5 ≢ r → get_current r mapped.current ≡ get_current r opened.current)
record_resolution-rows_example =
    record_resolution-rows policy opened 5 assign none (some 7) rule_decision (91 ∷ []) none
      mapped_event mapped (unfold program in refl)

Reaches-IsSound_example : IsSound mapped
Reaches-IsSound_example = Reaches-IsSound policy empty mapped empty-IsSound two_commands

IsSound-row_ok_example : row_ok opened_row ≡ true
IsSound-row_ok_example = IsSound-row_ok opened 5 opened_row opened-IsSound (unfold program in refl)
