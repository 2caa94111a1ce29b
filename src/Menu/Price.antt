-- ===== src/Menu/Price.antt =====
-- The local price of a target (`_price_target_column`, `_price_contenders`, `_price_result`,
-- `_select_local_price`). A price is never taken from a shared or a sibling page.
pub mod Winner
pub mod Local
use first_helios.Base.{
  ℕ, Bool, true, false, Option, none, some, List, [], ◌∷◌, ◌++◌, ◌==◌, ◌&&◌, ◌||◌, arith, ◌≡◌, not,
  select, map, if◌then◌else◌,
}
use first_helios.Base.Order.{cmp_ℕ, sort_by}
use first_helios.Base.Text.{Text, text_eq, codes}
use first_helios.Base.Int.{ℤ}
use first_helios.Menu.Model.{
  MenuPage, SourceKind, NodeKind, section, item, variant, modifier, PriceTarget, section_id,
  item_id, variant_id, modifier_id, PriceObservation, PriceState, LinkTarget, same_kind,
}
use first_helios.Menu.Context.{Effective, matches_context, contains_instant}
use first_helios.Menu.Graph.{Node}
use first_helios.Menu.Heads.{Heads, values}
use first_helios.Menu.Paths.{effective_context, depends_on_base}
use first_helios.Menu.Rank.{RankKey, cmp_rank, rank_key}
use first_helios.Menu.Session.{Session, SelectionRequest, LocalState, link_evidence, pin_valid}
use first_helios.Menu.Content.{supplied_node}

pub record PriceResult : Type 0 where
  pub state : LocalState
  pub scope_subject_id : Option ℕ
  pub amount_minor : Option ℤ
  pub currency_code : Option Text
  pub page_id : Option ℕ
  pub source_kind : Option SourceKind
  pub observed_at : Option ℕ
  pub confidence : Option ℕ
  pub evidence_ids : List ℕ

-- `PriceResult(state, subject_id)`, the other fields at their defaults
unfoldable pub no_price : LocalState → ℕ → PriceResult
no_price state subject_id = record {
  state = state;
  scope_subject_id = some subject_id;
  amount_minor = none;
  currency_code = none;
  page_id = none;
  source_kind = none;
  observed_at = none;
  confidence = none;
  evidence_ids = [];
}

pub record PriceCandidate : Type 0 where
  pub page : MenuPage
  pub price : PriceObservation
  pub node : Node

unfoldable pub price_target_column : PriceTarget → NodeKind × ℕ
price_target_column (section_id i) = (section, i)
price_target_column (item_id i) = (item, i)
price_target_column (variant_id i) = (variant, i)
price_target_column (modifier_id i) = (modifier, i)

-- `effective is None or not _matches_context(...)` and `not _contains_instant(...)` do not hold
unfoldable pub context_ok : SelectionRequest → Option Effective → Bool
context_ok request none = false
context_ok request (some effective) =
    matches_context effective request.context
    && contains_instant effective request.effective_instant

-- One price row answers the request at a node of its page.
unfoldable pub price_ok : Session → SelectionRequest → Node → PriceObservation → Bool
unfolding price_target_column
price_ok session request n price =
    let (kind, node_id) = price_target_column price.target in
    text_eq price.currency_code request.currency_code
    && same_kind kind n.kind
    && node_id == n.id
    && context_ok request (effective_context session.tables kind node_id price.applicability_id)

-- The page's price rows, in id order.
unfoldable pub page_prices : Session → ℕ → List PriceObservation
page_prices session page_id =
    sort_by cmp_ℕ (λ (p : PriceObservation). p.id)
      (select (λ (p : PriceObservation). p.page_id == page_id) session.tables.prices)

page_contenders : Session → SelectionRequest → MenuPage → Node → List PriceCandidate
page_contenders session request page n =
    map (λ p. record { page = page; price = p; node = n })
      (select (price_ok session request n) (page_prices session page.id))

unfoldable pub price_contenders : Session → SelectionRequest → List MenuPage → List PriceCandidate
unfolding page_contenders
price_contenders session request [] = []
price_contenders session request (page ∷ pages) =
    elim (supplied_node session request page) [
      | none ↦ []
      | some n ↦ page_contenders session request page n
    ]
    ++ price_contenders session request pages

stored_state : PriceState → LocalState
stored_state PriceState.priced = LocalState.priced
stored_state PriceState.unknown = LocalState.unknown
stored_state PriceState.unavailable = LocalState.unavailable

unfoldable pub price_result : Session → MenuPage → PriceObservation → PriceResult
unfolding stored_state
price_result session page price = record {
  state = stored_state price.price_state;
  scope_subject_id = some page.subject_id;
  amount_minor = price.amount_minor;
  currency_code = some price.currency_code;
  page_id = some page.id;
  source_kind = some page.source_kind;
  observed_at = some page.observed_at;
  confidence = some price.confidence;
  evidence_ids = link_evidence session page.id (LinkTarget.price price.id);
}

unfoldable pub price_rank : Session → PriceCandidate → RankKey
price_rank session c =
    rank_key session.canonical_key c.page c.page.observed_at c.price.confidence
      (codes "price", c.price.observation_key)

-- the test of `resolvable`
unfoldable pub is_resolvable : Session → SelectionRequest → PriceCandidate → Bool
is_resolvable session request c =
    not (depends_on_base session.tables c.page c.node) || pin_valid session request c.page

-- `ranked[0]`, or the reason that there is none
unfoldable pub ranked_price : Session → SelectionRequest → List PriceCandidate → PriceResult
ranked_price session request [] = no_price LocalState.unresolved_base request.subject_id
ranked_price session request (winner ∷ others) = price_result session winner.page winner.price

unfoldable pub local_price_of : Session → SelectionRequest → List PriceCandidate → PriceResult
unfolding ranked_price
local_price_of session request [] = no_price LocalState.absent request.subject_id
local_price_of session request (c ∷ cs) =
    ranked_price session request
      (sort_by cmp_rank (price_rank session) (select (is_resolvable session request) (c ∷ cs)))

unfoldable pub select_local_price : Session → SelectionRequest → Heads → PriceResult
select_local_price session request heads =
    local_price_of session request (price_contenders session request (values heads))
