-- ===== src/Discovery/Closure.antt =====
-- When a venue that the surveys no longer show is closed (`_closure_window` and the loop body of
-- `_close_missing` in apps/discovery/lifecycle.py, rows of apps/discovery/models.py). The count floor
-- of 0.9 is written in whole numbers: the source's product is a float, exact for counts this side
-- of 2^49. Endpoints are in the canonical form that the rows hold.
pub mod Window
pub mod Missing
use first_helios.Base.{
  ℕ, Bool, true, false, Option, none, some, List, [], ◌∷◌, ◌++◌, ◌==◌, ◌&&◌, ◌||◌, ◌*◌, not,
  is_none, leb, ltb, any, all, select, length, if◌then◌else◌,
}
use first_helios.Base.Order.{cmp_ℕ, desc, sort_by}
use first_helios.Base.Text.{Text, text_eq, option_text_eq}
use first_helios.Base.Results.{Result, raise, ok, ◌>>=◌}

pub record ReleaseCompletion : Type 0 where
  pub id : ℕ
  pub release_endpoint : Text
  pub release_at : ℕ
  pub coverage_key : Text
  pub poi_count : ℕ
  pub predecessor : Option Text

-- the reason that the report gets
pub data Veto : Type 0 where
  absent_or_old conflicting_claims conflicting_baseline too_few anomaly : Veto

-- the completions of the coverage, the newest first
unfoldable pub completions : Text → List ReleaseCompletion → List ReleaseCompletion
completions key rows =
    sort_by (desc cmp_ℕ) (λ (r : ReleaseCompletion). r.release_at)
      (select (λ (r : ReleaseCompletion). text_eq r.coverage_key key) rows)

-- `sum(r.release_at == instant for r in rows)`
unfoldable pub claims_at : ℕ → List ReleaseCompletion → ℕ
claims_at instant rows = length (select (λ (r : ReleaseCompletion). r.release_at == instant) rows)

-- `window and row.release_at == window[-1].release_at`, where `last` is the window's last row
unfoldable pub repeats : Option ReleaseCompletion → ReleaseCompletion → Bool
repeats none row = false
repeats (some last) row = row.release_at == last.release_at

-- The loop over the rows: the window so far and its last row.
unfoldable pub collect :
    List ReleaseCompletion
    → List ReleaseCompletion
    → Option ReleaseCompletion
    → List ReleaseCompletion
    → Result Veto (List ReleaseCompletion)
unfolding repeats
collect all_rows window last [] = ok window
collect all_rows window last (row ∷ rows) =
    let further = collect all_rows (window ++ row ∷ []) (some row) rows in
    if repeats last row
    then raise conflicting_claims
    else if length (window ++ row ∷ []) == 3
    then (if claims_at row.release_at all_rows == 1
        then ok (window ++ row ∷ [])
        else raise conflicting_baseline)
    else further

-- one step of the chain is sound
unfoldable pub follows : ReleaseCompletion → ReleaseCompletion → Bool
follows newer older =
    option_text_eq newer.predecessor (some older.release_endpoint)
    && leb (older.poi_count * 9) (newer.poi_count * 10)

unfoldable pub chain_ok : List ReleaseCompletion → Bool
unfolding follows
chain_ok (a ∷ b ∷ rest) = follows a b && chain_ok (b ∷ rest)
chain_ok _ = true

-- the tests below the loop
unfoldable pub check_window : List ReleaseCompletion → Result Veto (List ReleaseCompletion)
check_window window =
    if not (length window == 3)
    then raise too_few
    else if chain_ok window
    then ok window
    else raise anomaly

unfoldable pub window_of : Text → List ReleaseCompletion → Result Veto (List ReleaseCompletion)
unfolding check_window
window_of endpoint [] = raise absent_or_old
window_of endpoint (row ∷ rows) =
    if text_eq row.release_endpoint endpoint
    then collect (row ∷ rows) [] none (row ∷ rows) >>= check_window
    else raise absent_or_old

unfoldable pub closure_window :
    Text → Text → List ReleaseCompletion → Result Veto (List ReleaseCompletion)
closure_window key endpoint rows = window_of endpoint (completions key rows)

pub record Establishment : Type 0 where
  pub subject_id : ℕ
  pub is_current : Bool
  pub is_closed : Bool
  pub valid_from : ℕ
  pub valid_to : Option ℕ

-- An observation of one of the venue's records, and the endpoint of its capture.
pub record Observation : Type 0 where
  pub observed_at : ℕ
  pub canonical_uri : Text

-- What the loop body does with one venue: `some t` is a closure at `t`. A venue without records has
-- no observation either.
unfoldable pub close_venue :
    ReleaseCompletion → ReleaseCompletion → Establishment → List Observation → Option ℕ
close_venue first_missing baseline est versions =
    if not est.is_current || est.is_closed || not (is_none est.valid_to)
    then none
    else if leb first_missing.release_at est.valid_from
    then none
    else if any (λ (v : Observation). leb first_missing.release_at v.observed_at) versions
    then none
    else if any
        (λ (v : Observation).
          v.observed_at == baseline.release_at && text_eq v.canonical_uri baseline.release_endpoint)
        versions
    then some first_missing.release_at
    else none
