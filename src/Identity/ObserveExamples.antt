-- ===== src/Identity/ObserveExamples.antt =====
-- Records that are observed again, and the theorems on their resolution applied to them.
use first_helios.Base.{
  ℕ, true, false, none, some, [], ◌∷◌, ◌≡◌, ◌↔◌, refl, any, find_first, select, In,
}
use first_helios.Base.Text.{text_eq}
use first_helios.Base.Order.{sort_by}
use first_helios.Identity.Resolution.{
  Db, CurrentResolution, needs_review, resolved, get_current, is_resolved, is_current_subject,
}
use first_helios.Identity.Resolution.Commands.{refresh_subject_readiness}
use first_helios.Identity.Lineage.{
  member, direct_successors, expand, repeated, lineage_successors, current_lineage_successor_ids,
  Reached,
}
use first_helios.Identity.Lineage.Successors.{current_lineage_successor_ids_iff}
use first_helios.Identity.Observe.{
  Bronze, Persisted, DeterministicResolutionResult, external_key, World, distinct_ids, add_current,
  resolved_subjects, current_subject_ids_for_source_records, row_state, row_subject, currentness,
  prior_currentness, prior_successors, takes_url, only_one, row_at, url_records, plan_of,
  read_resolution_plan,
}
use first_helios.Identity.Observe.Attempt.{
  same_state, same_flag, same_plan, resolution_result, keep_or_move, match_url, branch, decide,
  under_locks, resolve_observation_once, last_attempt, first_attempt,
  resolve_source_record_observation,
}
use first_helios.Identity.Observe.Holds.{Reports}
use first_helios.Identity.Observe.Attempts.{
  KeepsIdentity, resolve_source_record_observation-Reports,
}
use first_helios.Identity.Observe.Exact.{
  resolve_observation_once_review, resolve_observation_once_exact,
}
use first_helios.Identity.Examples.{policy, opened, mapped, mapped_row, mapped-IsSound}

program : Unit {0}
unfolding any find_first select text_eq sort_by get_current is_resolved is_current_subject
    refresh_subject_readiness member direct_successors expand repeated lineage_successors
    current_lineage_successor_ids distinct_ids add_current resolved_subjects
    current_subject_ids_for_source_records row_state row_subject currentness prior_currentness
    prior_successors takes_url only_one row_at url_records plan_of read_resolution_plan same_state
    same_flag same_plan resolution_result keep_or_move match_url branch decide under_locks
    resolve_observation_once last_attempt first_attempt resolve_source_record_observation
program = tt

-- An observation is the id of its record, which is always found.
abbrev bronze : Bronze ℕ
bronze = record {
  succeeded = λ o. true;
  observed_at = λ o. 100;
  has_canonical_url = λ o. true;
  find_source_record_id = λ db o. some o;
  source_record_ids_for_identity_match_url = λ db o. 5 ∷ 6 ∷ [];
  persist_source_record_observation = λ db o.
      (record { source_record_id = o; evidence_id = 95; source_record_created = false }, db);
}

bronze-KeepsIdentity : KeepsIdentity bronze
bronze-KeepsIdentity = record { events_kept = λ db o. refl; current_kept = λ db o. refl }

abbrev persisted : Persisted
persisted = record { source_record_id = 5; evidence_id = 95; source_record_created = false }

abbrev world : Db → World
world db = record { db = db; lineage = (1, 2) ∷ (2, 7) ∷ (2, 1) ∷ [] }

abbrev kept : DeterministicResolutionResult
kept = record {
  source_record_id = 5;
  state = resolved;
  subject_id = some 7;
  match_basis = some external_key;
  appended_event_ids = [];
}

-- Another transaction assigns the record between the first plan and its locks.
resolve_source_record_observation-Reports_example :
    Reports kept (refresh_subject_readiness policy mapped 7)
resolve_source_record_observation-Reports_example =
    resolve_source_record_observation-Reports bronze policy 200 5 (world opened) (world mapped)
      (world mapped) (world mapped) kept (refresh_subject_readiness policy mapped 7)
      bronze-KeepsIdentity mapped-IsSound mapped-IsSound (unfold program in refl)

resolve_observation_once_exact_example :
    (kept ≡ resolution_result 5 resolved (some 7) (some external_key) [])
    × (refresh_subject_readiness policy mapped 7 ≡ refresh_subject_readiness policy mapped 7)
resolve_observation_once_exact_example =
    resolve_observation_once_exact bronze policy 200 5 (world mapped) (world mapped) persisted
      mapped mapped_row kept (refresh_subject_readiness policy mapped 7) refl
      (unfold program in refl) (unfold program in refl) 7 refl refl (unfold program in refl)

abbrev waiting_row : CurrentResolution
waiting_row = record mapped_row { subject_id = none; state = needs_review }

abbrev waiting : Db
waiting = record mapped { current = waiting_row ∷ [] }

abbrev still_waiting : DeterministicResolutionResult
still_waiting = record kept { state = needs_review; subject_id = none; match_basis = none }

resolve_observation_once_review_example :
    (still_waiting ≡ resolution_result 5 needs_review none none []) × (waiting ≡ waiting)
resolve_observation_once_review_example =
    resolve_observation_once_review bronze policy 200 5 (world waiting) (world waiting) persisted
      waiting waiting_row still_waiting waiting refl (unfold program in refl)
      (unfold program in refl) refl

current_lineage_successor_ids_iff_example :
    In 7 (current_lineage_successor_ids mapped (world mapped).lineage 1)
    ↔ ((is_current_subject mapped 7 ≡ true) × Reached (world mapped).lineage 1 7)
current_lineage_successor_ids_iff_example =
    current_lineage_successor_ids_iff mapped (world mapped).lineage 1 7
