-- ===== src/Menu/Paths.antt =====
-- Correspondence by native keys and base links (`_canonical_native_path`, `_native_path`,
-- `_target_node`, `_depends_on_base`), and the restrictions on a node's path (`menu.node_path`,
-- `_path_applicability_ids`, `_effective_context`). A walk has one unit of fuel for each node row.
pub mod Fuel
pub mod Target
use first_helios.Base.{
  ℕ, zero, suc, ◌+◌, Bool, true, false, Option, none, some, List, [], ◌∷◌, ◌++◌, ◌==◌, ◌>>=◌, ◌&&◌,
  ◌||◌, arith, ◌≡◌, ◌↔◌, refl, map, select, any, find_first, length, if◌then◌else◌, not, is_none,
}
use first_helios.Base.Text.{Text, text_eq, text_eq_iff}
use first_helios.Menu.Model.{
  NodeKind, MenuPage, Tables, MenuApplicability, same_kind, same_kind_iff, is_inherit, unspecified,
}
use first_helios.Menu.Graph.{Node, graph, all_nodes, get_node, of_kind, get_page, parent_of}
use first_helios.Menu.Context.{Effective, intersection}

-- One element of a native path: `(kind, native_key)`, or `("base", str(page_id))`.
pub data PathStep : Type 0 where
  node : NodeKind → Text → PathStep
  base : ℕ → PathStep

abbrev pub NativePath : Type 0
NativePath = List PathStep

pub record TargetRef : Type 0 where
  pub kind : NodeKind
  pub native_path : NativePath

same_step : PathStep → PathStep → Bool
same_step (node k t) (node j u) = same_kind k j && text_eq t u
same_step (base p) (base q) = p == q
same_step _ _ = false

-- `==` of two paths
unfoldable pub same_path : NativePath → NativePath → Bool
unfolding same_step
same_path [] [] = true
same_path (p ∷ ps) (q ∷ qs) = same_step p q && same_path ps qs
same_path _ _ = false

-- `_native_path(session, page, node) == target.native_path`, where the left side may be `None`
unfoldable pub is_path : Option NativePath → NativePath → Bool
is_path none target = false
is_path (some path) target = same_path path target

-- The row that a node without a native key stands for, in the pinned page.
unfoldable pub base_of : Tables → MenuPage → Node → Option (MenuPage × Node)
base_of tables page n = do
  base_id ← n.base_id
  base_page_id ← page.base_organization_page_id
  base_node ← get_node n.kind base_id (graph tables base_page_id)
  base_page ← get_page tables base_page_id
  some (base_page, base_node)

unfoldable pub extend : NodeKind → Text → Option NativePath → Option NativePath
extend kind key none = none
extend kind key (some prefix) = some (prefix ++ node kind key ∷ [])

-- The tests of `_native_path` on the node's key, its base and its parent, over the recursive calls.
unfoldable pub native_path_step :
    (MenuPage → Node → Option NativePath)
    → MenuPage
    → NodeKind
    → Option Text
    → Option (MenuPage × Node)
    → Option Node
    → Option NativePath
unfolding extend
native_path_step recur page kind none none up = none
native_path_step recur page kind none (some (base_page, base_node)) up = recur base_page base_node
native_path_step recur page kind (some key) b none = extend kind key (some [])
native_path_step recur page kind (some key) b (some up) = extend kind key (recur page up)

-- The body of `_native_path`.
unfoldable pub native_path_from :
    (MenuPage → Node → Option NativePath) → Tables → MenuPage → Node → Option NativePath
unfolding native_path_step
native_path_from recur tables page n =
    native_path_step recur page n.kind n.native_key (base_of tables page n)
      (parent_of (graph tables page.id) n)

unfoldable pub native_path : ℕ → Tables → MenuPage → Node → Option NativePath
unfolding native_path_from
native_path zero tables page n = none
native_path (suc fuel) tables page n = native_path_from (native_path fuel tables) tables page n

-- `current.base_id is not None or current.effect == "inherit"`
unfoldable pub rides_base : Node → Bool
rides_base n = not (is_none n.base_id) || is_inherit n.effect

unfoldable pub depends_step : (Node → Bool) → Bool → Option Node → Bool
depends_step further true up = true
depends_step further false none = false
depends_step further false (some up) = further up

-- The `while` loop of `_depends_on_base`, from one node upwards.
unfoldable pub depends_from : ℕ → List Node → Node → Bool
unfolding rides_base depends_step
depends_from zero nodes n = false
depends_from (suc fuel) nodes n =
    depends_step (depends_from fuel nodes) (rides_base n) (parent_of nodes n)

-- One round for each node row, and one to see that there is no further parent.
unfoldable pub path_fuel : Tables → ℕ
path_fuel tables = suc (length (all_nodes tables))

unfoldable pub depends_on_base : Tables → MenuPage → Node → Bool
depends_on_base tables page n = depends_from (path_fuel tables) (graph tables page.id) n

unfoldable pub canonical_native_path : Tables → MenuPage → Node → Option NativePath
canonical_native_path tables page n = elim (native_path (path_fuel tables) tables page n) [
  | none ↦ none
  | some path ↦ elim page.base_organization_page_id [
    | none ↦ some path
    | some pinned ↦ if depends_on_base tables page n then some (base pinned ∷ path) else some path
  ]
]

-- `matches[0] if len(matches) == 1 else None`
unfoldable pub only : List Node → Option Node
only (n ∷ []) = some n
only _ = none

corresponds : Tables → MenuPage → TargetRef → Node → Bool
corresponds tables page target n = is_path (canonical_native_path tables page n) target.native_path

unfoldable pub target_node : Tables → MenuPage → TargetRef → Option Node
unfolding corresponds
target_node tables page target =
    only (select (corresponds tables page target) (of_kind target.kind (graph tables page.id)))

was_visited : Node → List Node → Bool
was_visited n visited = any (λ (v : Node). same_kind v.kind n.kind && v.id == n.id) visited

-- `menu.node(p.parent_kind, p.parent_id)`
unfoldable pub parent_row : Tables → Node → Option Node
parent_row tables n = parent_of (all_nodes tables) n

-- `menu.node(p.kind, p.base_id)`
unfoldable pub base_row : Tables → Node → Option Node
base_row tables n = do base_id ← n.base_id; get_node n.kind base_id (all_nodes tables)

-- The rows of `menu.node_path`: the node, and the rows from its parent and from its base. A node
-- that was visited is a row (`cycle`) and goes no further.
unfoldable pub node_path : ℕ → Tables → List Node → Node → List Node
unfolding was_visited
node_path zero tables visited n = []
node_path (suc fuel) tables visited n = elim (was_visited n visited) [
  | true ↦ n ∷ []
  | false ↦
      n ∷ (elim (parent_row tables n) [
        | none ↦ []
        | some up ↦ node_path fuel tables (n ∷ visited) up
      ])
      ++ elim (base_row tables n) [
        | none ↦ []
        | some down ↦ node_path fuel tables (n ∷ visited) down
      ]
]

contexts_of : List Node → List ℕ
contexts_of [] = []
contexts_of (n ∷ ns) = elim n.applicability_id [
  | none ↦ contexts_of ns
  | some i ↦ i ∷ contexts_of ns
]

unfoldable pub path_applicability_ids : Tables → NodeKind → ℕ → List ℕ
unfolding contexts_of
path_applicability_ids tables kind id = elim (get_node kind id (all_nodes tables)) [
  | none ↦ []
  | some n ↦ contexts_of (node_path (suc (path_fuel tables)) tables [] n)
]

-- the rows whose id is among `sorted(set(ids))`
unfoldable pub restrictions : Tables → List ℕ → List MenuApplicability
restrictions tables ids =
    select (λ (r : MenuApplicability). any (λ i. i == r.id) ids) tables.applicabilities

unfoldable pub context_of_ids : Tables → List ℕ → Option Effective
unfolding restrictions
context_of_ids tables [] =
    some
      (record { channel = unspecified; service_period = none; valid_from = none; valid_to = none })
context_of_ids tables (i ∷ ids) = intersection (restrictions tables (i ∷ ids))

-- `_effective_context` with the price's own context, as its callers pass it.
unfoldable pub effective_context : Tables → NodeKind → ℕ → ℕ → Option Effective
unfolding context_of_ids
effective_context tables kind id extra =
    context_of_ids tables (path_applicability_ids tables kind id ++ extra ∷ [])
