-- ===== src/Menu/History/Trail.antt =====
-- The trail of one context and currency: the loop of `price_history`
-- (packages/helios_core/domains/menu/history.py) over the instants of acceptance.
use first_helios.Base.{
  ℕ, Bool, true, false, Option, none, some, List, [], ◌∷◌, ◌==◌, ◌&&◌, not, all, if◌then◌else◌,
  select, map, option_eq, ltb,
}
use first_helios.Base.Text.{Text}
use first_helios.Base.Int.{ℤ, pos, negsuc}
use first_helios.Menu.Model.{MenuPage}
use first_helios.Menu.Heads.{Heads, stream_heads, values}
use first_helios.Menu.Session.{Session, LocalState}
use first_helios.Menu.Price.{PriceResult}
use first_helios.Menu.Select.{select_price}
use first_helios.Menu.History.{
  HistoryPoint, PriceTrail, Claim, Family, claimed_contexts, family_pages, instants_of,
}

unfoldable pub state_number : LocalState → ℕ
state_number LocalState.priced = 0
state_number LocalState.unknown = 1
state_number LocalState.unavailable = 2
state_number LocalState.absent = 3
state_number LocalState.withdrawn = 4
state_number LocalState.unresolved_base = 5
state_number LocalState.unresolved_scope = 6
state_number LocalState.not_operating = 7

-- `(state, amount, page)`
abbrev pub PointKey : Type 0
PointKey = LocalState × (Option ℤ × Option ℕ)

unfoldable pub same_amount : Option ℤ → Option ℤ → Bool
same_amount none none = true
same_amount (some (pos a)) (some (pos b)) = a == b
same_amount (some (negsuc a)) (some (negsuc b)) = a == b
same_amount _ _ = false

-- `key == last`
unfoldable pub same_as_last : PointKey → Option PointKey → Bool
unfolding state_number same_amount
same_as_last key none = false
same_as_last (state, (amount, page)) (some (state', (amount', page'))) =
    state_number state == state_number state' && same_amount amount amount' && option_eq page page'

unfoldable pub point_key : PriceResult → PointKey
point_key price = (price.state, (price.amount_minor, price.page_id))

unfoldable pub point_of : ℕ → PriceResult → HistoryPoint
point_of instant price = record {
  known_from = instant;
  state = price.state;
  amount_minor = price.amount_minor;
  observed_at = price.observed_at;
  source_kind = price.source_kind;
  confidence = price.confidence;
}

any_head : Heads → Bool
any_head [] = false
any_head (h ∷ hs) = true

unfoldable pub owns_heads : Session → Family → ℕ → Bool
unfolding any_head values
owns_heads session family instant =
    let heads =
      stream_heads session.tables family.source_record_id family.root_key (some instant) in
    any_head heads && all (λ (p : MenuPage). p.subject_id == family.subject_id) (values heads)

-- the answer of `select_price` at an instant, read and known at it
unfoldable pub answer_at : Session → Family → Claim → ℕ → PriceResult
answer_at session family claim instant =
    (select_price session record {
      subject_id = family.subject_id;
      source_record_id = family.source_record_id;
      root_key = family.root_key;
      target = family.target;
      context = claim.context;
      currency_code = claim.currency_code;
      effective_instant = instant;
      knowledge_cutoff = some instant;
      observation_cutoff = none;
    }).local_price

-- The answer is the scope's own: its page's Subject is, or there is no page and all heads are.
unfoldable pub is_own : Session → Family → ℕ → PriceResult → Bool
unfolding owns_heads
is_own session family instant price = elim price.page_id [
  | some i ↦ option_eq price.scope_subject_id (some family.subject_id)
  | none ↦ owns_heads session family instant
]

module _ (session : Session) (family : Family) (claim : Claim) where
  -- neither of the first two `continue`s
  unfoldable pub counts : ℕ → Bool
  unfolding answer_at is_own
  counts instant =
      not (ltb instant claim.first_claim)
      && is_own session family instant (answer_at session family claim instant)

  -- the loop, with `last`
  unfoldable pub trail_points : List ℕ → Option PointKey → List HistoryPoint
  unfolding counts same_as_last point_key point_of
  trail_points [] last = []
  trail_points (instant ∷ instants) last =
      let price = answer_at session family claim instant in
      let again = trail_points instants last in
      let fresh = point_of instant price ∷ trail_points instants (some (point_key price)) in
      if counts instant && not (same_as_last (point_key price) last) then fresh else again

  unfoldable pub price_trail : List ℕ → PriceTrail
  unfolding trail_points
  price_trail instants = record {
    context = claim.context;
    currency_code = claim.currency_code;
    points = trail_points instants none;
  }

-- `None` if the scope never priced the target in the family
unfoldable pub trails_of : Session → Family → List ℕ → List Claim → Option (List PriceTrail)
unfolding price_trail
trails_of session family instants [] = none
trails_of session family instants (claim ∷ claims) =
    some (map (λ c. price_trail session family c instants) (claim ∷ claims))

unfoldable pub price_history : (ℕ → Text) → Session → Family → Option (List PriceTrail)
unfolding claimed_contexts family_pages instants_of trails_of
price_history iso session family =
    let pages = family_pages session family in
    trails_of session family (instants_of pages) (
      claimed_contexts iso session
        (select (λ (p : MenuPage). p.subject_id == family.subject_id) pages) family.target)
