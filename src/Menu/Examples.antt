-- ===== src/Menu/Examples.antt =====
-- The theorems of the menu's parts applied to the sample menus.
use first_helios.Base.{
  ℕ, true, none, some, [], ◌∷◌, ◌≡◌, ◌≢◌, ◌↔◌, refl, arith, select, any, all, find_first, In, inl,
  inr, ◌≤◌, ◌<◌,
}
use first_helios.Base.Order.{insert_sorted, sort_by}
use first_helios.Base.Text.{codes, text_eq, option_text_eq}
use first_helios.Base.Int.{pos}
use first_helios.Identity.Scope.{ResolvedScope, current_resolved_scopes}
use first_helios.Menu.Model.{
  MenuPage, SourceKind, Channel, jsonld, section, is_withdrawal, is_published, is_suppress,
  is_inherit, is_structural, same_kind, same_channel, same_source_kind, kind_rank,
}
use first_helios.Menu.Context.{
  Effective, intersection, matches_context, contains_instant, from_ok, to_ok, later, sooner,
}
use first_helios.Menu.Context.Window.{
  row_holds, Agrees, intersection-contains_instant, intersection-some,
}
use first_helios.Menu.Heads.{
  get_head, put_head, keep_head, keep_heads, by_cutoff, in_family, stream_heads, values,
  subject_heads, all_heads_withdrawn,
}
use first_helios.Menu.Heads.Laws.{stream_heads-greatest, stream_heads-none_iff}
use first_helios.Menu.Heads.Sources.{stream_heads-later}
use first_helios.Menu.Graph.{
  Node, section_node, item_node, variant_node, modifier_node, page_nodes, graph, all_nodes,
  get_node, of_kind, get_page, parent_of,
}
use first_helios.Menu.Paths.{
  same_path, is_path, base_of, extend, native_path, native_path_step, native_path_from, rides_base,
  depends_step, depends_from, path_fuel, depends_on_base, canonical_native_path, only, target_node,
  parent_row, base_row, node_path, path_applicability_ids, restrictions, context_of_ids,
  effective_context,
}
use first_helios.Menu.Session.{
  LocalState, same_target, link_evidence, observed_ok, base_withdrawn, scope_request, live_scope,
  base_valid, pin_valid, operating_ok, scope_requests, gate_of, current_gate,
}
use first_helios.Menu.Content.{
  supplied_node, content_candidates, resolve_content, inherited_content, first_content,
  select_content, content_rank, organization,
}
use first_helios.Menu.Rank.{business_key, rank_key}
use first_helios.Menu.Price.{
  no_price, price_target_column, context_ok, price_ok, page_prices, price_contenders, price_result,
  price_rank, is_resolvable, ranked_price, local_price_of, select_local_price,
}
use first_helios.Menu.Organization.{
  organization_claims, org_claim, claim_of, head_claimable, to_list, strip_base, head_claim,
  head_claims, claims_on, claims_of,
}
use first_helios.Menu.Paths.Fuel.{IsAcyclic}
use first_helios.Menu.Paths.Target.{Above, depends_on_base_iff, target_node_unique, has_path}
use first_helios.Menu.Session.Gate.{current_gate-none_iff}
use first_helios.Menu.Content.Winner.{ContentOutcome, select_content-ContentOutcome}
use first_helios.Menu.Price.Winner.{Contends, price_contenders_iff}
use first_helios.Menu.Price.Local.{Outcome, select_local_price-Outcome}
use first_helios.Menu.Select.Laws.{
  Known, select_price-own_subject, selection_over-withdrawn, select_price-Known,
}
use first_helios.Menu.Select.{
  Mode, or_withdrawn, selection_over, withheld, gate, gated, current_selection, select_mode,
  select_price,
}
use first_helios.Menu.Samples.{
  page_two, page_three, tombstone, mains, lunch, summer, tables, request, session, both, heads,
  candidate_two, history, shared_session, shared_request, shared_content, shared_claim,
}
use first_helios.Menu.Organization.Scopes.{organization_claims-subject}

unfoldable pub program : Unit {0}
unfolding get_head put_head keep_head keep_heads by_cutoff in_family stream_heads values
    subject_heads all_heads_withdrawn select any all find_first insert_sorted sort_by text_eq
    option_text_eq is_withdrawal is_published is_suppress is_inherit is_structural same_kind
    same_channel same_source_kind kind_rank
program = tt

unfoldable pub selector : Unit {0}
unfolding program section_node item_node variant_node modifier_node page_nodes graph all_nodes
    get_node of_kind get_page parent_of same_path is_path base_of extend native_path
    native_path_step native_path_from rides_base depends_step depends_from path_fuel depends_on_base
    canonical_native_path only target_node parent_row base_row node_path path_applicability_ids
    restrictions context_of_ids effective_context intersection matches_context contains_instant
    from_ok to_ok later sooner same_target link_evidence observed_ok base_withdrawn scope_request
    live_scope base_valid pin_valid operating_ok scope_requests gate_of current_gate
    current_resolved_scopes supplied_node content_candidates resolve_content inherited_content
    first_content select_content content_rank business_key rank_key no_price price_target_column
    context_ok price_ok page_prices price_contenders price_result price_rank is_resolvable
    ranked_price local_price_of select_local_price org_claim claim_of head_claimable to_list
    strip_base head_claim head_claims claims_on claims_of organization_claims or_withdrawn
    selection_over withheld gate gated current_selection select_mode select_price
selector = tt

stream_heads-greatest_example :
    In page_two tables.pages
    × (in_family 5 (codes "menu") none page_two ≡ true)
    × (page_two.source_kind ≡ jsonld)
    × ((q : MenuPage)
        → In q tables.pages
        → in_family 5 (codes "menu") none q ≡ true
        → q.source_kind ≡ jsonld
        → q.stream_revision ≤ page_two.stream_revision)
stream_heads-greatest_example =
    stream_heads-greatest tables 5 (codes "menu") none jsonld page_two (unfold program in refl)

stream_heads-none_iff_example :
    (get_head SourceKind.pdf (stream_heads tables 5 (codes "menu") none) ≡ none) ↔ (
      (q : MenuPage)
      → In q tables.pages
      → in_family 5 (codes "menu") none q ≡ true
      → q.source_kind ≢ SourceKind.pdf)
stream_heads-none_iff_example = stream_heads-none_iff tables 5 (codes "menu") none SourceKind.pdf

stream_heads-later_example :
    stream_heads (record tables { pages = page_three ∷ tables.pages }) 5 (codes "menu") (some 250)
    ≡ stream_heads tables 5 (codes "menu") (some 250)
stream_heads-later_example = stream_heads-later tables 5 (codes "menu") 250 page_three (omega arith)

intersection-contains_instant_example :
    contains_instant both 90 ≡ all (row_holds 90) (lunch ∷ summer ∷ [])
intersection-contains_instant_example =
    intersection-contains_instant (lunch ∷ summer ∷ []) both 90
      (unfold program intersection later sooner in refl)

lunch_alone-Agrees : Agrees (lunch ∷ [])
lunch_alone-Agrees = record {
  channels =
      λ a b i j. elim i [ inl p ↦ elim j [ inl q ↦ cc | inr m ↦ absurd m ] | inr m ↦ absurd m ];
  service_periods = λ a b p q i j e f. elim i [
    | inl u ↦ elim j [ inl v ↦ cc | inr m ↦ absurd m ]
    | inr m ↦ absurd m
  ];
}

intersection-some_example :
    (eff : Effective) × (intersection (lunch ∷ []) ≡ some eff) × (eff.channel ≡ Channel.dine_in)
intersection-some_example =
    intersection-some lunch [] 60 lunch_alone-Agrees (unfold program from_ok to_ok in refl)

select_content-ContentOutcome_example :
    ContentOutcome session request (values heads) (select_content session request heads)
select_content-ContentOutcome_example = select_content-ContentOutcome session request heads

select_local_price-Outcome_example :
    Outcome session request (values heads) (select_local_price session request heads)
select_local_price-Outcome_example = select_local_price-Outcome session request heads

price_contenders_iff_example :
    In candidate_two (price_contenders session request (page_two ∷ page_three ∷ []))
    ↔ Contends session request (page_two ∷ page_three ∷ []) candidate_two
price_contenders_iff_example =
    price_contenders_iff session request (page_two ∷ page_three ∷ []) candidate_two

select_price-own_subject_example :
    (select_price session request).local_price.scope_subject_id ≡ some 7
select_price-own_subject_example = select_price-own_subject session request refl

selection_over-withdrawn_example :
    selection_over session request Mode.current ((jsonld, tombstone) ∷ []) ≡ record {
      mode = Mode.current;
      content = none;
      local_price = no_price LocalState.withdrawn 7;
      organization = [];
    }
selection_over-withdrawn_example =
    selection_over-withdrawn session request Mode.current ((jsonld, tombstone) ∷ [])
      (unfold program in refl)

select_price-Known_example : (p : MenuPage) × Known session history 350 2 p
select_price-Known_example =
    select_price-Known session history 350 2 refl (unfold program selector in refl)

current_gate-none_iff_example : (current_gate session heads 320 ≡ none) ↔ (
    (p : MenuPage)
    → In p (values heads)
    → (s : ResolvedScope) × (session.check (scope_request p) ≡ some s)
      × (operating_ok s 320 ≡ true))
current_gate-none_iff_example = current_gate-none_iff session heads 320

flat : IsAcyclic tables (λ k i. 0)
unfolding all_nodes section_node path_fuel
flat = record {
  parents = λ n k i m p q. flat_parent n m q;
  bases = λ n b m p. flat_base n m p;
  bounded = λ n m. omega arith;
}
  where
    flat_parent : {i : ℕ} (n : Node) → In n (all_nodes tables) → n.parent_id ≡ some i → 0 < 0
    flat_parent n (inl p) q = cc
    flat_parent n (inr (inl p)) q = cc
    flat_parent n (inr (inr (inl p))) q = cc
    flat_parent n (inr (inr (inr m))) q = absurd m

    flat_base : {i : ℕ} (n : Node) → In n (all_nodes tables) → n.base_id ≡ some i → 0 < 0
    flat_base n (inl p) q = cc
    flat_base n (inr (inl p)) q = cc
    flat_base n (inr (inr (inl p))) q = cc
    flat_base n (inr (inr (inr m))) q = absurd m

depends_on_base_iff_example :
    (depends_on_base tables page_two (section_node (mains 2 2)) ≡ true)
    ↔ ((m : Node) × Above (graph tables 2) (section_node (mains 2 2)) m × (rides_base m ≡ true))
depends_on_base_iff_example =
    depends_on_base_iff tables (λ k i. 0) flat page_two (section_node (mains 2 2))
      (unfold all_nodes in inr (inl refl))

target_node_unique_example :
    In (section_node (mains 2 2)) (graph tables 2)
    × ((section_node (mains 2 2)).kind ≡ section)
    × (has_path tables page_two request.target (section_node (mains 2 2)) ≡ true)
    × ((m : Node)
        → In m (graph tables 2)
        → m.kind ≡ section
        → has_path tables page_two request.target m ≡ true
        → m ≡ section_node (mains 2 2))
target_node_unique_example =
    target_node_unique tables page_two request.target (section_node (mains 2 2))
      (unfold program selector in refl)

-- The better source kind wins although the other page was observed later, and the history before
-- the later page is the same.
select_price_run : (select_price session request).local_price.amount_minor ≡ some (pos 1250)
unfolding selector
select_price_run = refl

organization_claims-subject_example :
    (shared_content.scope ≡ organization)
    × ((p : MenuPage) × (get_page shared_session.tables 10 ≡ some p) × (20 ≡ p.subject_id))
organization_claims-subject_example =
    organization_claims-subject shared_session shared_request shared_content shared_claim
      (unfold program selector in inl refl)
