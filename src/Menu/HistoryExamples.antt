-- ===== src/Menu/HistoryExamples.antt =====
-- The price history of the sample menu.
use first_helios.Base.{some, [], ◌∷◌, ◌≡◌, refl, ◌==◌, In, select, inl}
use first_helios.Base.Text.{codes}
use first_helios.Base.Int.{pos}
use first_helios.Menu.Model.{MenuPage, jsonld}
use first_helios.Menu.History.{
  PriceTrail, Claim, Family, context_of, same_claim, set_default, claim_effective, claim_prices,
  claim_node, claim_pages, claimed_contexts, family_pages, insert_instant, instants_of,
}
use first_helios.Menu.History.Trail.{
  same_amount, state_number, same_as_last, point_key, point_of, owns_heads, answer_at, is_own,
  counts, trail_points, price_trail, trails_of, price_history,
}
use first_helios.Menu.History.Laws.{IsHistory, price_history-IsHistory}
use first_helios.Menu.Session.{LocalState}
use first_helios.Menu.Samples.{request, session}
use first_helios.Menu.Examples.{selector}

program : Unit {0}
unfolding selector context_of same_claim set_default claim_effective claim_prices claim_node
    claim_pages claimed_contexts family_pages insert_instant instants_of same_amount state_number
    same_as_last point_key point_of owns_heads answer_at is_own counts trail_points price_trail
    trails_of price_history
program = tt

abbrev family : Family
family = record {
  subject_id = 7;
  source_record_id = 5;
  root_key = codes "menu";
  target = request.target;
}

abbrev trail : PriceTrail
trail = record {
  context = request.context;
  currency_code = codes "EUR";
  points =
      record {
        known_from = 210;
        state = LocalState.priced;
        amount_minor = some (pos 1250);
        observed_at = some 200;
        source_kind = some jsonld;
        confidence = some 8000;
      }
      ∷ [];
}

-- The price of 1300 on the later page of a lower source kind changes nothing.
price_history-IsHistory_example :
    (claim : Claim) × In claim (
      claimed_contexts
        (λ t. [])
        session
        (select (λ (p : MenuPage). p.subject_id == 7) (family_pages session family))
        family.target)
    × (request.context ≡ claim.context)
    × (codes "EUR" ≡ claim.currency_code)
    × IsHistory session family claim (instants_of (family_pages session family)) trail.points
price_history-IsHistory_example =
    price_history-IsHistory (λ t. []) session family (trail ∷ []) trail (unfold program in refl)
      (inl refl)
