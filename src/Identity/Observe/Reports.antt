-- ===== src/Identity/Observe/Reports.antt =====
-- What an attempt reports is what the projection holds after it
-- (packages/helios_core/identity/commands.py).
use first_helios.Base.{
  ℕ, Bool, true, false, Option, none, some, List, [], ◌∷◌, ◌≡◌, refl, ap, ◌∙◌, subst, arith,
}
use first_helios.Base.Results.{Result, raise, ok}
use first_helios.Identity.Resolution.{
  Db, DecisionMetadata, ResolutionEvent, ResolutionState, unresolved, needs_review, resolved,
  ResolutionError, open_record, assign, remap, unassign, CurrentResolution, row_ok, is_resolved,
}
use first_helios.Identity.Resolution.Commands.{
  Policy, refresh_subject_readiness, admit_source_record, assign_source_record, remap_source_record,
  unassign_source_record,
}
use first_helios.Identity.Resolution.History.{record_resolution-Recorded}
use first_helios.Identity.Resolution.Steps.{
  IsSound, admitted, assigned, remapped, unassigned, IsSound-row_ok, admitted_record,
}
use first_helios.Identity.Observe.{Persisted, external_key_lineage, DeterministicResolutionResult}
use first_helios.Identity.Observe.Attempt.{
  reported, resolution_result, keep_or_move, match_url, after_admission, branch,
}
use first_helios.Identity.Observe.Holds.{
  Holds, Reports, state_after, subject_after, Recorded-Holds, reported-ok, outcome_pair,
  refresh-IsSound, Reports_lem, Step-IsSound_lem,
}

module _ (policy : Policy) (decided_at effective_at : ℕ) (persisted : Persisted) where
  match_url-Reports :
      (db : Db) (events : List ℕ) (target : Option ℕ) (result : DeterministicResolutionResult)
      (after : Db)
      → IsSound db
      → Holds db persisted.source_record_id unresolved none
      → match_url policy decided_at effective_at persisted db events target ≡ ok (result, after)
      → Reports result after
  unfolding match_url resolution_result assign_source_record state_after subject_after
  match_url-Reports db events none result after k now h =
      let (same, kept) = outcome_pair h in
      Reports_lem same (subst (λ d. Holds d persisted.source_record_id unresolved none) kept now)
        (subst IsSound kept k)
  match_url-Reports db events (some t) result after k now h =
      let (event, run, same) = reported-ok _ _ result after h in
      Reports_lem same
        (Recorded-Holds (record_resolution-Recorded policy db _ assign none (some t) _ _ _ run))
        (Step-IsSound_lem policy k (assigned _ t _ _ _ event run))

  remapped-Reports :
      (db : Db) (i t : ℕ) (decision : DecisionMetadata) (result : DeterministicResolutionResult)
      (after : Db)
      → IsSound db
      → reported
          (λ event_id.
            resolution_result persisted.source_record_id resolved
              (some t)
              (some external_key_lineage)
              (event_id ∷ []))
          (remap_source_record policy db persisted.source_record_id i t decision
            (persisted.evidence_id ∷ [])
            none)
        ≡ ok (result, after)
      → Reports result after
  unfolding resolution_result remap_source_record state_after subject_after
  remapped-Reports db i t decision result after k h =
      let (event, run, same) = reported-ok _ _ result after h in
      Reports_lem same
        (Recorded-Holds (record_resolution-Recorded policy db _ remap (some i) (some t) _ _ _ run))
        (Step-IsSound_lem policy k (remapped _ i t _ _ _ event run))

  unassigned-Reports :
      (db : Db) (i : ℕ) (decision : DecisionMetadata) (result : DeterministicResolutionResult)
      (after : Db)
      → IsSound db
      → reported
          (λ event_id.
            resolution_result persisted.source_record_id needs_review none none (event_id ∷ []))
          (unassign_source_record policy db persisted.source_record_id i decision
            (persisted.evidence_id ∷ [])
            none)
        ≡ ok (result, after)
      → Reports result after
  unfolding resolution_result unassign_source_record state_after subject_after
  unassigned-Reports db i decision result after k h =
      let (event, run, same) = reported-ok _ _ result after h in
      Reports_lem same
        (Recorded-Holds (record_resolution-Recorded policy db _ unassign (some i) none _ _ _ run))
        (Step-IsSound_lem policy k (unassigned _ i _ _ _ event run))

  keep_or_move-Reports :
      (db : Db) (i : ℕ) (is_current : Option Bool) (successors : List ℕ)
      (result : DeterministicResolutionResult) (after : Db)
      → IsSound db
      → Holds db persisted.source_record_id resolved (some i)
      → keep_or_move policy decided_at effective_at persisted db i is_current successors
        ≡ ok (result, after)
      → Reports result after
  unfolding keep_or_move resolution_result refresh_subject_readiness
  keep_or_move-Reports db i (some true) successors result after k now h =
      let (same, kept) = outcome_pair h in
      subst (Reports result) kept (
        Reports_lem same
          record {
            row = now.row;
            found = now.found;
            state_is = now.state_is;
            subject_is = now.subject_is;
          }
          (refresh-IsSound policy db i k))
  keep_or_move-Reports db i none (t ∷ []) result after k now h =
      remapped-Reports db i t _ result after k h
  keep_or_move-Reports db i (some false) (t ∷ []) result after k now h =
      remapped-Reports db i t _ result after k h
  keep_or_move-Reports db i none [] result after k now h =
      unassigned-Reports db i _ result after k h
  keep_or_move-Reports db i (some false) [] result after k now h =
      unassigned-Reports db i _ result after k h
  keep_or_move-Reports db i none (t ∷ u ∷ more) result after k now h =
      unassigned-Reports db i _ result after k h
  keep_or_move-Reports db i (some false) (t ∷ u ∷ more) result after k now h =
      unassigned-Reports db i _ result after k h

  open-Holds :
      (db : Db) (state : ResolutionState) (subject : Option ℕ)
      → IsSound db
      → Holds db persisted.source_record_id state subject
      → is_resolved state ≡ false
      → Holds db persisted.source_record_id state none
  open-Holds db state subject k now u = record {
    row = now.row;
    found = now.found;
    state_is = now.state_is;
    subject_is =
        open_row now.row (IsSound-row_ok db persisted.source_record_id now.row k now.found)
          (ap is_resolved now.state_is ∙ u);
  }
    where
      open_row :
          (row : CurrentResolution)
          → row_ok row ≡ true
          → is_resolved row.state ≡ false
          → row.subject_id ≡ none
      open_row row c u = unfold row_ok in ground arith

  after_admission-Reports :
      (db : Db) (target : Option ℕ) (decision : DecisionMetadata)
      (result : DeterministicResolutionResult) (after : Db)
      (r : Result ResolutionError (ResolutionEvent × Db))
      → IsSound db
      → admit_source_record policy db persisted.source_record_id decision
          (persisted.evidence_id ∷ [])
          none
        ≡ r
      → after_admission policy decided_at effective_at persisted target r ≡ ok (result, after)
      → Reports result after
  unfolding after_admission state_after subject_after
  after_admission-Reports db target decision result after (raise e) k run h = cc
  after_admission-Reports db target decision result after (ok (opened, db')) k run h =
      match_url-Reports db' (opened.id ∷ []) target result after
        (Step-IsSound_lem policy k (admitted _ _ _ _ opened run))
        (Recorded-Holds (
          record_resolution-Recorded policy db _ open_record none none _ _ _
            (admitted_record policy db _ _ _ _ run)))
        h

  pub branch-Reports :
      (db : Db) (state : Option ResolutionState) (subject : Option ℕ) (is_current : Option Bool)
      (successors : List ℕ) (target : Option ℕ) (result : DeterministicResolutionResult)
      (after : Db)
      → IsSound db
      → ((s : ResolutionState) → state ≡ some s → Holds db persisted.source_record_id s subject)
      → branch policy decided_at effective_at persisted db state subject is_current successors
          target
        ≡ ok (result, after)
      → Reports result after
  unfolding branch resolution_result is_resolved
  branch-Reports db (some resolved) none is_current successors target result after k now h = cc
  branch-Reports db (some resolved) (some i) is_current successors target result after k now h =
      keep_or_move-Reports db i is_current successors result after k (now resolved refl) h
  branch-Reports db (some needs_review) subject is_current successors target result after k now h =
      let (same, kept) = outcome_pair h in
      subst (Reports result) kept
        (Reports_lem same (open-Holds db needs_review subject k (now needs_review refl) refl) k)
  branch-Reports db (some unresolved) subject is_current successors target result after k now h =
      match_url-Reports db [] target result after k
        (open-Holds db unresolved subject k (now unresolved refl) refl) h
  branch-Reports db none subject is_current successors target result after k now h =
      after_admission-Reports db target _ result after _ k refl h
