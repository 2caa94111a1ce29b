-- ===== src/Menu/Content.antt =====
-- The content of a target (`_content_candidates`, `_resolve_content`, `_select_content`).
pub mod Winner
use first_helios.Base.{ℕ, Option, none, some, List, [], ◌∷◌, ◌&&◌, ◌>>=◌, not, if◌then◌else◌}
use first_helios.Base.Order.{sort_by}
use first_helios.Base.Text.{Text, codes}
use first_helios.Menu.Model.{
  MenuPage, SourceKind, NodeKind, section, item, variant, modifier, LinkTarget, is_withdrawal,
  is_suppress, is_inherit, is_structural,
}
use first_helios.Menu.Graph.{Node, graph, get_node, get_page}
use first_helios.Menu.Heads.{Heads, values}
use first_helios.Menu.Paths.{target_node, depends_on_base}
use first_helios.Menu.Rank.{RankKey, cmp_rank, rank_key}
use first_helios.Menu.Session.{
  Session, SelectionRequest, observed_ok, link_evidence, base_valid, pin_valid,
}

pub data ContentScope : Type 0 where
  local organization : ContentScope

pub record ContentResult : Type 0 where
  pub page_id : ℕ
  pub scope : ContentScope
  pub scope_subject_id : ℕ
  pub source_kind : SourceKind
  pub name : Option Text
  pub description : Option Text
  pub observed_at : ℕ
  pub evidence_ids : List ℕ

pub record ContentCandidate : Type 0 where
  pub page : MenuPage
  pub node : Node

-- The tests on one head that its content and its prices share: a live page, observed by the
-- cutoff, with a node for the target that it does not suppress.
unfoldable pub supplied_node : Session → SelectionRequest → MenuPage → Option Node
supplied_node session request page =
    if is_withdrawal page.operation
    then none
    else if not (observed_ok request page)
    then none
    else (do
      n ← target_node session.tables page request.target
      if is_suppress n.effect then none else some n)

unfoldable pub content_candidates :
    Session → SelectionRequest → List MenuPage → List ContentCandidate
content_candidates session request [] = []
content_candidates session request (page ∷ pages) =
    let rest = content_candidates session request pages in
    elim (supplied_node session request page) [
      | none ↦ rest
      | some n ↦ record { page = page; node = n } ∷ rest
    ]

local_content : Session → MenuPage → Node → ContentResult
local_content session page n = record {
  page_id = page.id;
  scope = local;
  scope_subject_id = page.subject_id;
  source_kind = page.source_kind;
  name = n.name;
  description = n.description;
  observed_at = page.observed_at;
  evidence_ids = link_evidence session page.id (LinkTarget.node n.kind n.id);
}

base_content : Session → MenuPage → Node → Node → ContentResult
base_content session base_page n base_node = record {
  page_id = base_page.id;
  scope = organization;
  scope_subject_id = base_page.subject_id;
  source_kind = base_page.source_kind;
  name = base_node.name;
  description = base_node.description;
  observed_at = base_page.observed_at;
  evidence_ids = link_evidence session base_page.id (LinkTarget.node n.kind base_node.id);
}

-- The branch of `_resolve_content` for an inherit reference.
unfoldable pub inherited_content :
    Session → SelectionRequest → MenuPage → Node → Option ContentResult
unfolding base_content
inherited_content session request page n = do
  base_page_id ← page.base_organization_page_id
  base_id ← n.base_id
  base_page ← get_page session.tables base_page_id
  if not (base_valid session request base_page) then none else do
    base_node ← get_node n.kind base_id (graph session.tables base_page_id)
    if not (observed_ok request base_page)
        then none
        else some (base_content session base_page n base_node)

unfoldable pub resolve_content :
    Session → SelectionRequest → ContentCandidate → Option ContentResult
unfolding local_content
resolve_content session request candidate =
    let page = candidate.page in
    let n = candidate.node in
    if is_structural n.support_kind
    then none
    else if depends_on_base session.tables page n && not (pin_valid session request page)
    then none
    else if is_inherit n.effect
    then inherited_content session request page n
    else some (local_content session page n)

-- `node.kind` as the text of a claim locator
unfoldable pub kind_text : NodeKind → Text
kind_text section = codes "section"
kind_text item = codes "item"
kind_text variant = codes "variant"
kind_text modifier = codes "modifier"

unfoldable pub content_rank : Session → ContentCandidate → RankKey
unfolding kind_text
content_rank session c =
    rank_key session.canonical_key c.page c.page.observed_at c.page.confidence
      (kind_text c.node.kind, c.node.key)

-- the first candidate that has content
unfoldable pub first_content :
    Session → SelectionRequest → List ContentCandidate → Option ContentResult
first_content session request [] = none
first_content session request (c ∷ cs) =
    let rest = first_content session request cs in
    elim (resolve_content session request c) [ none ↦ rest | some content ↦ some content ]

unfoldable pub select_content : Session → SelectionRequest → Heads → Option ContentResult
select_content session request heads =
    first_content session request
      (sort_by cmp_rank (content_rank session) (content_candidates session request (values heads)))
