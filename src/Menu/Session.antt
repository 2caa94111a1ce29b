-- ===== src/Menu/Session.antt =====
-- One read transaction and the checks on live scopes and on pinned bases (`_link_evidence`,
-- `_base_withdrawn`, `_live_scope`, `_base_valid`, `_pin_valid`, `_operating_ok`, `_current_gate`).
pub mod Gate
use Prim.Native.Nat.{Ordering}
use first_helios.Base.{
  length, ℕ, Bool, true, false, Option, none, some, List, [], ◌∷◌, ◌==◌, ◌&&◌, ◌||◌, ltb, not, map,
  select, any, all, is_none, if◌then◌else◌,
}
use first_helios.Base.Order.{cmp_ℕ, cmp_pair, sort_by}
use first_helios.Base.Text.{Text, text_eq}
use first_helios.Identity.Scope.{
  ScopeCheck, ResolvedScope, ResolvedScopeRequest, current_resolved_scopes, SubjectKind,
  OperatingStatus, closed,
}
use first_helios.Menu.Model.{
  MenuPage, Tables, EvidenceLink, LinkTarget, page, node, price, applicability, same_kind,
  same_source_kind, is_withdrawal, is_published,
}
use first_helios.Menu.Graph.{get_page}
use first_helios.Menu.Heads.{Heads, values, by_cutoff}
use first_helios.Menu.Paths.{TargetRef}
use first_helios.Menu.Context.{ContextRef}
use first_helios.Menu.Rank.KeyOrder.{KeyParts}

-- The tables, Identity's check and Provenance's keys, as they stand during the read.
pub record Session : Type 0 where
  pub tables : Tables
  pub check : ScopeCheck
  pub canonical_key : ℕ → KeyParts

pub record SelectionRequest : Type 0 where
  pub subject_id : ℕ
  pub source_record_id : ℕ
  pub root_key : Text
  pub target : TargetRef
  pub context : ContextRef
  pub currency_code : Text
  pub effective_instant : ℕ
  pub knowledge_cutoff : Option ℕ
  pub observation_cutoff : Option ℕ

unfoldable pub same_target : LinkTarget → LinkTarget → Bool
same_target page page = true
same_target (node k i) (node j m) = same_kind k j && i == m
same_target (applicability i) (applicability m) = i == m
same_target (price i) (price m) = i == m
same_target _ _ = false

-- `tuple(sorted(...))` of the Evidence that the page's links give the target
unfoldable pub link_evidence : Session → ℕ → LinkTarget → List ℕ
unfolding same_target
link_evidence session page_id target =
    sort_by cmp_ℕ (λ i. i)
      (map (λ (l : EvidenceLink). l.evidence_id)
        (select (λ (l : EvidenceLink). l.page_id == page_id && same_target l.target target)
          session.tables.links))

-- `request.observation_cutoff is not None and page.observed_at > request.observation_cutoff` does not hold
unfoldable pub observed_ok : SelectionRequest → MenuPage → Bool
observed_ok request p = by_cutoff request.observation_cutoff p.observed_at

withdraws : MenuPage → Option ℕ → MenuPage → Bool
withdraws base cutoff p =
    p.source_record_id == base.source_record_id
    && text_eq p.root_key base.root_key
    && same_source_kind p.source_kind base.source_kind
    && is_withdrawal p.operation
    && ltb base.stream_revision p.stream_revision
    && by_cutoff cutoff p.accepted_at

unfoldable pub base_withdrawn : Session → MenuPage → Option ℕ → Bool
unfolding withdraws
base_withdrawn session base cutoff = any (withdraws base cutoff) session.tables.pages

unfoldable pub scope_request : MenuPage → ResolvedScopeRequest
scope_request p = record {
  subject_id = p.subject_id;
  source_record_id = p.source_record_id;
  resolution_event_id = p.resolution_event_id;
}

first_scope : List (Option ResolvedScope) → Option ResolvedScope
first_scope [] = none
first_scope (s ∷ ss) = s

unfoldable pub live_scope : Session → MenuPage → Option ResolvedScope
unfolding first_scope
live_scope session p = first_scope (current_resolved_scopes session.check (scope_request p ∷ []))

unfoldable pub base_valid : Session → SelectionRequest → MenuPage → Bool
base_valid session request base =
    if not (is_published base.state) || is_withdrawal base.operation
    then false
    else if not (observed_ok request base)
    then false
    else if base_withdrawn session base request.knowledge_cutoff
    then false
    else if is_none request.knowledge_cutoff
    then not (is_none (live_scope session base))
    else true

unfoldable pub pin_valid : Session → SelectionRequest → MenuPage → Bool
pin_valid session request p = elim p.base_organization_page_id [
  | none ↦ false
  | some base_id ↦ elim (get_page session.tables base_id) [
    | none ↦ false
    | some base ↦ base_valid session request base
  ]
]

is_establishment : SubjectKind → Bool
is_establishment SubjectKind.establishment = true
is_establishment _ = false

is_closed : Option OperatingStatus → Bool
is_closed (some closed) = true
is_closed _ = false

-- `scope.valid_from is not None and scope.valid_from > instant`
starts_after : Option ℕ → ℕ → Bool
starts_after none instant = false
starts_after (some start) instant = ltb instant start

ends_after : Option ℕ → ℕ → Bool
ends_after none instant = true
ends_after (some stop) instant = ltb instant stop

unfoldable pub operating_ok : ResolvedScope → ℕ → Bool
unfolding is_establishment is_closed starts_after ends_after
operating_ok scope instant =
    if not (is_establishment scope.kind)
    then true
    else if is_closed scope.operating_status
    then false
    else if starts_after scope.valid_from instant
    then false
    else ends_after scope.valid_to instant

-- `LocalState`
pub data LocalState : Type 0 where
  priced unknown unavailable absent withdrawn unresolved_base unresolved_scope not_operating :
      LocalState

request_key : ResolvedScopeRequest → ℕ × (ℕ × ℕ)
request_key r = (r.subject_id, (r.source_record_id, r.resolution_event_id))

abbrev cmp_request : ℕ × (ℕ × ℕ) → ℕ × (ℕ × ℕ) → Ordering
cmp_request = cmp_pair cmp_ℕ (cmp_pair cmp_ℕ cmp_ℕ)

same_request : ResolvedScopeRequest → ResolvedScopeRequest → Bool
same_request a b =
    a.subject_id == b.subject_id
    && a.source_record_id == b.source_record_id
    && a.resolution_event_id == b.resolution_event_id

-- the elements of a set that is built in this order
distinct : List ResolvedScopeRequest → List ResolvedScopeRequest
unfolding same_request
distinct [] = []
distinct (r ∷ rs) = let rest = distinct rs in if any (same_request r) rs then rest else r ∷ rest

-- `sorted({_scope_request(page) for page in heads.values()}, key=...)`
unfoldable pub scope_requests : Heads → List ResolvedScopeRequest
unfolding request_key distinct
scope_requests heads = sort_by cmp_request request_key (distinct (map scope_request (values heads)))

-- `[scope for scope in scopes if scope is not None]`
live_scopes : List (Option ResolvedScope) → List ResolvedScope
live_scopes [] = []
live_scopes (none ∷ ss) = live_scopes ss
live_scopes (some s ∷ ss) = s ∷ live_scopes ss

unfoldable pub gate_of : List (Option ResolvedScope) → ℕ → Option LocalState
unfolding live_scopes
gate_of scopes instant =
    if not (length (live_scopes scopes) == length scopes)
    then some unresolved_scope
    else if not (all (λ s. operating_ok s instant) (live_scopes scopes))
    then some not_operating
    else none

unfoldable pub current_gate : Session → Heads → ℕ → Option LocalState
current_gate session heads instant =
    gate_of (current_resolved_scopes session.check (scope_requests heads)) instant
