-- ===== src/Menu/Organization.antt =====
-- Shared prices of the pinned Organization page and of its stream head, apart from the local value
-- (`_org_claim`, `_organization_claims`, `_head_claimable`).
pub mod Scopes
use first_helios.Base.{
  ℕ, Bool, false, Option, none, some, List, [], ◌∷◌, ◌++◌, ◌==◌, ◌&&◌, ◌||◌, ◌>>=◌, not, is_none,
  select, find_first, if◌then◌else◌,
}
use first_helios.Base.Text.{Text}
use first_helios.Base.Int.{ℤ}
use first_helios.Menu.Model.{
  MenuPage, SourceKind, PriceObservation, PriceState, LinkTarget, is_suppress, is_inherit,
}
use first_helios.Menu.Graph.{get_page}
use first_helios.Menu.Heads.{get_head, stream_heads}
use first_helios.Menu.Paths.{NativePath, TargetRef, base, same_path, target_node}
use first_helios.Menu.Session.{Session, SelectionRequest, observed_ok, live_scope, link_evidence}
use first_helios.Menu.Content.{ContentResult, organization, local}
use first_helios.Menu.Price.{price_ok}

pub data Origin : Type 0 where
  pinned head : Origin

pub record OrganizationClaim : Type 0 where
  pub origin : Origin
  pub page_id : ℕ
  pub subject_id : ℕ
  pub price_state : PriceState
  pub amount_minor : Option ℤ
  pub currency_code : Text
  pub observed_at : ℕ
  pub source_kind : SourceKind
  pub confidence : ℕ
  pub evidence_ids : List ℕ

unfoldable pub claim_of : Session → MenuPage → Origin → PriceObservation → OrganizationClaim
claim_of session page origin price = record {
  origin = origin;
  page_id = page.id;
  subject_id = page.subject_id;
  price_state = price.price_state;
  amount_minor = price.amount_minor;
  currency_code = price.currency_code;
  observed_at = page.observed_at;
  source_kind = page.source_kind;
  confidence = price.confidence;
  evidence_ids = link_evidence session page.id (LinkTarget.price price.id);
}

-- The statement has no `ORDER BY`; the rows are taken in the table's order.
unfoldable pub org_claim :
    Session → SelectionRequest → MenuPage → TargetRef → Origin → Option OrganizationClaim
unfolding claim_of
org_claim session request page org_target origin = do
  n ← target_node session.tables page org_target
  if is_suppress n.effect || is_inherit n.effect then none else do
    price ←
        find_first (price_ok session request n)
          (select (λ (p : PriceObservation). p.page_id == page.id) session.tables.prices)
    some (claim_of session page origin price)

unfoldable pub head_claimable : Session → SelectionRequest → MenuPage → MenuPage → Bool
head_claimable session request pinned_page head_page =
    if not (observed_ok request head_page)
    then false
    else if not (head_page.subject_id == pinned_page.subject_id)
    then false
    else not (is_none request.knowledge_cutoff) || not (is_none (live_scope session head_page))

unfoldable pub to_list : Option OrganizationClaim → List OrganizationClaim
to_list none = []
to_list (some c) = c ∷ []

-- `request.target.native_path[:1] == (prefix,)`, and the path without it
unfoldable pub strip_base : ℕ → NativePath → Option NativePath
strip_base page_id [] = none
strip_base page_id (s ∷ path) = if same_path (s ∷ []) (base page_id ∷ []) then some path else none

-- The claim of the stream's head, where there is one.
unfoldable pub head_claim :
    Session → SelectionRequest → MenuPage → TargetRef → Option MenuPage → List OrganizationClaim
head_claim session request pinned_page target none = []
head_claim session request pinned_page target (some head_page) =
    if not (head_page.id == pinned_page.id) && head_claimable session request pinned_page head_page
    then to_list (org_claim session request head_page target head)
    else []

-- The second part of `_organization_claims`: the Organization stream's own head.
unfoldable pub head_claims :
    Session → SelectionRequest → MenuPage → TargetRef → List OrganizationClaim
unfolding head_claim to_list
head_claims session request pinned_page target = head_claim session request pinned_page target (
    get_head pinned_page.source_kind (
      stream_heads session.tables pinned_page.source_record_id pinned_page.root_key
        request.knowledge_cutoff))

-- The claims for the content's page and the path below the base.
unfoldable pub claims_on :
    Session → SelectionRequest → Option MenuPage → Option NativePath → List OrganizationClaim
unfolding head_claims to_list
claims_on session request none path = []
claims_on session request (some pinned_page) none = []
claims_on session request (some pinned_page) (some path) =
    let target : TargetRef = record { kind = request.target.kind; native_path = path } in
    to_list (org_claim session request pinned_page target pinned)
    ++ head_claims session request pinned_page target

unfoldable pub claims_of : Session → SelectionRequest → ContentResult → List OrganizationClaim
unfolding strip_base claims_on
claims_of session request content =
    claims_on session request (get_page session.tables content.page_id)
      (strip_base content.page_id request.target.native_path)

-- `content is None or content.scope != "organization"`
unfoldable pub organization_claims :
    Session → SelectionRequest → Option ContentResult → List OrganizationClaim
organization_claims session request none = []
organization_claims session request (some content) = elim content.scope [
  | local ↦ []
  | organization ↦ claims_of session request content
]
