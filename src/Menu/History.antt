-- ===== src/Menu/History.antt =====
-- The accepted price history of one target (packages/helios_core/domains/menu/history.py). A page's
-- foreign key fixes the kind of its Subject, so a page is the scope's own by the Subject's id. The
-- text of an instant, by which trails are sorted, is a parameter.
pub mod Trail
pub mod Instants
pub mod Points
pub mod Laws
use first_helios.Base.{
  ℕ, Bool, true, false, Option, none, some, List, [], ◌∷◌, ◌++◌, ◌==◌, ◌&&◌, ◌||◌, not, any, all,
  select, map, option_eq, ltb, if◌then◌else◌,
}
use first_helios.Base.Order.{cmp_ℕ, cmp_pair, sort_by}
use first_helios.Base.Text.{Text, text_eq, option_text_eq, cmp_text, codes}
use first_helios.Base.Int.{ℤ, pos, negsuc}
use first_helios.Menu.Model.{
  MenuPage, PriceObservation, SourceKind, Channel, unspecified, dine_in, takeaway, same_channel,
  same_kind, is_withdrawal, is_suppress,
}
use first_helios.Menu.Context.{ContextRef, Effective}
use first_helios.Menu.Graph.{Node}
use first_helios.Menu.Heads.{Heads, in_family, stream_heads, values}
use first_helios.Menu.Paths.{TargetRef, target_node, effective_context}
use first_helios.Menu.Session.{Session, SelectionRequest, LocalState}
use first_helios.Menu.Price.{PriceResult, price_target_column}
use first_helios.Menu.Select.{select_price}

pub record HistoryPoint : Type 0 where
  pub known_from : ℕ
  pub state : LocalState
  pub amount_minor : Option ℤ
  pub observed_at : Option ℕ
  pub source_kind : Option SourceKind
  pub confidence : Option ℕ

pub record PriceTrail : Type 0 where
  pub context : ContextRef
  pub currency_code : Text
  pub points : List HistoryPoint

-- a context and currency that the scope has priced the target in, and since when
pub record Claim : Type 0 where
  pub context : ContextRef
  pub currency_code : Text
  pub first_claim : ℕ

-- the arguments of `price_history`
pub record Family : Type 0 where
  pub subject_id : ℕ
  pub source_record_id : ℕ
  pub root_key : Text
  pub target : TargetRef

unfoldable pub context_of : Effective → ContextRef
context_of effective = record {
  channel = effective.channel;
  service_period = effective.service_period;
  valid_from = effective.valid_from;
  valid_to = effective.valid_to;
}

-- the keys of the dict `found`, compared
unfoldable pub same_claim : ContextRef → Text → Claim → Bool
same_claim context currency claim =
    same_channel claim.context.channel context.channel
    && option_text_eq claim.context.service_period context.service_period
    && option_eq claim.context.valid_from context.valid_from
    && option_eq claim.context.valid_to context.valid_to
    && text_eq claim.currency_code currency

-- `found.setdefault((context, currency), accepted_at)`
unfoldable pub set_default : List Claim → ContextRef → Text → ℕ → List Claim
unfolding same_claim any
set_default found context currency accepted_at =
    if any (same_claim context currency) found
    then found
    else found
      ++ record { context = context; currency_code = currency; first_claim = accepted_at } ∷ []

unfoldable pub claim_effective : List Claim → Option Effective → Text → ℕ → List Claim
unfolding set_default context_of
claim_effective found none currency accepted_at = found
claim_effective found (some effective) currency accepted_at =
    set_default found (context_of effective) currency accepted_at

-- the inner loop of `_claimed_contexts`
unfoldable pub claim_prices :
    Session → MenuPage → Node → List Claim → List PriceObservation → List Claim
unfolding claim_effective price_target_column
claim_prices session page n found [] = found
claim_prices session page n found (price ∷ prices) =
    let (kind, node_id) = price_target_column price.target in
    claim_prices session page n
      (if same_kind kind n.kind && node_id == n.id
        then claim_effective found
            (effective_context session.tables kind node_id price.applicability_id)
            price.currency_code page.accepted_at
        else found)
      prices

unfoldable pub claim_node : Session → MenuPage → List Claim → Option Node → List Claim
unfolding claim_prices
claim_node session page found none = found
claim_node session page found (some n) =
    if is_suppress n.effect
    then found
    else claim_prices session page n found (
        sort_by cmp_ℕ (λ (p : PriceObservation). p.id)
          (select (λ (p : PriceObservation). p.page_id == page.id) session.tables.prices))

-- the outer loop of `_claimed_contexts`
unfoldable pub claim_pages : Session → TargetRef → List Claim → List MenuPage → List Claim
unfolding claim_node
claim_pages session target found [] = found
claim_pages session target found (page ∷ pages) =
    claim_pages session target
      (if is_withdrawal page.operation
        then found
        else claim_node session page found (target_node session.tables page target))
      pages

channel_text : Channel → Text
channel_text unspecified = codes "unspecified"
channel_text dine_in = codes "dine_in"
channel_text takeaway = codes "takeaway"

or_empty : Option Text → Text
or_empty none = []
or_empty (some t) = t

iso_text : (ℕ → Text) → Option ℕ → Text
iso_text iso none = []
iso_text iso (some t) = iso t

-- `_context_key`
context_key : (ℕ → Text) → Claim → Text × (Text × (Text × (Text × Text)))
unfolding channel_text or_empty iso_text
context_key iso claim = (
  channel_text claim.context.channel,
  (
    or_empty claim.context.service_period,
    (
      iso_text iso claim.context.valid_from,
      (iso_text iso claim.context.valid_to, claim.currency_code),
    ),
  ),
)

unfoldable pub claimed_contexts : (ℕ → Text) → Session → List MenuPage → TargetRef → List Claim
unfolding claim_pages context_key
claimed_contexts iso session pages target =
    sort_by (cmp_pair cmp_text (cmp_pair cmp_text (cmp_pair cmp_text (cmp_pair cmp_text cmp_text))))
      (context_key iso) (claim_pages session target [] pages)

-- the family's pages in the order of acceptance
unfoldable pub family_pages : Session → Family → List MenuPage
unfolding in_family
family_pages session family =
    sort_by (cmp_pair cmp_ℕ cmp_ℕ) (λ (p : MenuPage). (p.accepted_at, p.id))
      (select (in_family family.source_record_id family.root_key none) session.tables.pages)

-- `sorted({page.accepted_at for page in pages})`
unfoldable pub insert_instant : ℕ → List ℕ → List ℕ
insert_instant i [] = i ∷ []
insert_instant i (j ∷ js) =
    let rest = insert_instant i js in
    if ltb i j then i ∷ j ∷ js else if i == j then j ∷ js else j ∷ rest

unfoldable pub instants_of : List MenuPage → List ℕ
unfolding insert_instant
instants_of [] = []
instants_of (page ∷ pages) = insert_instant page.accepted_at (instants_of pages)
