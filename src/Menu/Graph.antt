-- ===== src/Menu/Graph.antt =====
-- The nodes of one committed page (`_Node`, `_node_from_row`, `_PageGraph`, `_graph`). The rows are
-- immutable, so the graph that the session caches is the one that is read here at each call.
use first_helios.Base.{
  ℕ, Bool, Option, none, some, List, ◌++◌, ◌==◌, ◌>>=◌, ◌&&◌, arith, ◌≡◌, map, select, find_first,
  In, In-select, In-append, append-In, find_first-some, inl, inr,
}
use first_helios.Base.Order.{cmp_ℕ, sort_by, In-sort_by}
use first_helios.Base.Text.{Text}
use first_helios.Menu.Model.{
  NodeKind, NodeColumns, Effect, Support, MenuSection, MenuItem, MenuVariant, MenuModifier,
  MenuPage, Tables, section, item, variant, modifier, same_kind, same_kind_iff,
}

pub record Node : Type 0 where
  pub kind : NodeKind
  pub id : ℕ
  pub key : Text
  pub page_id : ℕ
  pub parent_kind : Option NodeKind
  pub parent_id : Option ℕ
  pub base_id : Option ℕ
  pub applicability_id : Option ℕ
  pub native_key : Option Text
  pub effect : Effect
  pub support_kind : Support
  pub name : Option Text
  pub description : Option Text

-- The common `return` of `_node_from_row`.
node_of_columns : NodeKind → NodeColumns → NodeKind → Option ℕ → Option Text → Node
node_of_columns kind row parent_kind parent_id description = record {
  kind = kind;
  id = row.id;
  key = row.key;
  page_id = row.page_id;
  parent_kind = some parent_kind;
  parent_id = parent_id;
  base_id = row.base_id;
  applicability_id = row.applicability_id;
  native_key = row.source_native_key;
  effect = row.effect;
  support_kind = row.support_kind;
  name = row.name;
  description = description;
}

unfoldable pub section_node : MenuSection → Node
unfolding node_of_columns
section_node row = node_of_columns section row.columns section row.parent_section_id none

unfoldable pub item_node : MenuItem → Node
unfolding node_of_columns
item_node row = node_of_columns item row.columns section (some row.section_id) row.description

unfoldable pub variant_node : MenuVariant → Node
unfolding node_of_columns
variant_node row = node_of_columns variant row.columns item (some row.item_id) none

unfoldable pub modifier_node : MenuModifier → Node
unfolding node_of_columns
modifier_node row = elim row.item_id [
  | some i ↦ node_of_columns modifier row.columns item (some i) none
  | none ↦ node_of_columns modifier row.columns section row.section_id none
]

-- The rows of one table that belong to the page, in id order.
unfoldable pub page_nodes : ℕ → List Node → List Node
page_nodes page_id nodes =
    sort_by cmp_ℕ (λ (n : Node). n.id) (select (λ (n : Node). n.page_id == page_id) nodes)

-- `_PageGraph.nodes`, a dict in insertion order
unfoldable pub graph : Tables → ℕ → List Node
unfolding page_nodes section_node item_node variant_node modifier_node
graph tables page_id =
    page_nodes page_id (map section_node tables.sections)
    ++ (page_nodes page_id (map item_node tables.items)
        ++ (page_nodes page_id (map variant_node tables.variants)
            ++ page_nodes page_id (map modifier_node tables.modifiers)))

-- Every node row: `menu.nodes(NULL)`.
unfoldable pub all_nodes : Tables → List Node
unfolding section_node item_node variant_node modifier_node
all_nodes tables =
    map section_node tables.sections
    ++ (map item_node tables.items
        ++ (map variant_node tables.variants ++ map modifier_node tables.modifiers))

is_node : NodeKind → ℕ → Node → Bool
is_node kind id n = same_kind n.kind kind && n.id == id

-- `nodes.get((kind, id))`, and `menu.node(kind, id)`
unfoldable pub get_node : NodeKind → ℕ → List Node → Option Node
unfolding is_node
get_node kind id nodes = find_first (is_node kind id) nodes

unfoldable pub of_kind : NodeKind → List Node → List Node
of_kind kind nodes = select (λ (n : Node). same_kind n.kind kind) nodes

-- `session.get(MenuPage, id)`
unfoldable pub get_page : Tables → ℕ → Option MenuPage
get_page tables id = find_first (λ (p : MenuPage). p.id == id) tables.pages

-- The parent's node in the same page, where the row names one.
unfoldable pub parent_of : List Node → Node → Option Node
parent_of nodes n = do
  parent_id ← n.parent_id
  parent_kind ← n.parent_kind
  get_node parent_kind parent_id nodes

In-page_nodes :
    (n : Node) (page_id : ℕ) (nodes : List Node)
    → In n (page_nodes page_id nodes)
    → In n nodes × (n.page_id ≡ page_id)
unfolding page_nodes
In-page_nodes n page_id nodes m =
    let (i, e) =
      In-select (λ (k : Node). k.page_id == page_id) n nodes
        (In-sort_by cmp_ℕ (λ (k : Node). k.id) n (select (λ (k : Node). k.page_id == page_id) nodes)
          m) in
    (i, ground arith)

graph_step :
    (n : Node) (page_id : ℕ) (table : List Node) (read rest : List Node)
    → (In n read → In n rest × (n.page_id ≡ page_id))
    → In n (page_nodes page_id table ++ read)
    → In n (table ++ rest) × (n.page_id ≡ page_id)
graph_step n page_id table read rest later m =
    elim (In-append n (page_nodes page_id table) read m) [
      | inl i ↦ let (j, e) = In-page_nodes n page_id table i in (append-In n table rest (inl j), e)
      | inr i ↦ let (j, e) = later i in (append-In n table rest (inr j), e)
    ]

-- A graph's nodes are rows of the page.
pub In-graph :
    (n : Node) (tables : Tables) (page_id : ℕ)
    → In n (graph tables page_id)
    → In n (all_nodes tables) × (n.page_id ≡ page_id)
unfolding graph all_nodes
In-graph n t p = graph_step n p (map section_node t.sections) _ _ (
    graph_step n p (map item_node t.items) _ _ (
      graph_step n p (map variant_node t.variants) _ _
        (In-page_nodes n p (map modifier_node t.modifiers))))

pub get_node-some :
    (kind : NodeKind) (id : ℕ) (nodes : List Node) {n : Node}
    → get_node kind id nodes ≡ some n
    → In n nodes × (n.kind ≡ kind) × (n.id ≡ id)
unfolding get_node
get_node-some kind id nodes {n} e =
    let (m, t) = find_first-some (is_node kind id) nodes e in
    (m, ground (arith, same_kind_iff n.kind kind), ground arith)
