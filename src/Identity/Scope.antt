-- ===== src/Identity/Scope.antt =====
-- The read-only scope check that Identity publishes to Menu (packages/helios_core/identity/contracts.py):
-- `current_resolved_scopes` answers each request of a batch on its own.
use first_helios.Base.{ℕ, Option, List, map}

pub data SubjectKind : Type 0 where
  place organization establishment : SubjectKind

pub data OperatingStatus : Type 0 where
  unknown open_status closed : OperatingStatus

pub record ResolvedScopeRequest : Type 0 where
  pub subject_id : ℕ
  pub source_record_id : ℕ
  pub resolution_event_id : ℕ

pub record ResolvedScope : Type 0 where
  pub subject_id : ℕ
  pub kind : SubjectKind
  pub source_record_id : ℕ
  pub resolution_event_id : ℕ
  pub organization_subject_id : Option ℕ
  pub place_subject_id : Option ℕ
  pub valid_from : Option ℕ
  pub valid_to : Option ℕ
  pub operating_status : Option OperatingStatus

-- What one request of the batch is answered.
abbrev pub ScopeCheck : Type 0
ScopeCheck = ResolvedScopeRequest → Option ResolvedScope

unfoldable pub current_resolved_scopes :
    ScopeCheck → List ResolvedScopeRequest → List (Option ResolvedScope)
current_resolved_scopes check requests = map check requests
