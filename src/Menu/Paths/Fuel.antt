-- ===== src/Menu/Paths/Fuel.antt =====
-- The fuel of the walks `_native_path` and `_depends_on_base`, and the height that it stands on.
use first_helios.Base.{
  ℕ, zero, suc, ◌<◌, Bool, true, false, Option, none, some, List, arith, ◌≡◌, refl, In, >>=-some,
}
use first_helios.Base.Text.{Text}
use first_helios.Menu.Model.{NodeKind, MenuPage, Tables}
use first_helios.Menu.Graph.{Node, graph, all_nodes, get_node-some, In-graph, parent_of}
use first_helios.Menu.Paths.{depends_step, depends_from, rides_base, path_fuel}

-- A number for each node that falls along the parent and the base links, and is below the count of
-- the rows and one: what the commit check of an aggregate gives, which refuses a cyclic path.
pub record IsAcyclic (tables : Tables) (height : NodeKind → ℕ → ℕ) : Type 0 where
  pub parents :
      (n : Node) (k : NodeKind) (i : ℕ)
      → In n (all_nodes tables)
      → n.parent_kind ≡ some k
      → n.parent_id ≡ some i
      → height k i < height n.kind n.id
  pub bases :
      (n : Node) (b : ℕ)
      → In n (all_nodes tables)
      → n.base_id ≡ some b
      → height n.kind b < height n.kind n.id
  pub bounded : (n : Node) → In n (all_nodes tables) → height n.kind n.id < path_fuel tables

parent_of-some :
    (nodes : List Node) (n : Node) {up : Node}
    → parent_of nodes n ≡ some up
    → In up nodes × (n.parent_kind ≡ some up.kind) × (n.parent_id ≡ some up.id)
unfolding parent_of
parent_of-some nodes n e =
    let (i, ei, e') = >>=-some n.parent_id _ e in
    let (k, ek, e2) = >>=-some n.parent_kind _ e' in
    let (m, sk, si) = get_node-some k i nodes e2 in (m, cc, cc)

depends_step_agree :
    {r r' : Node → Bool} (b : Bool) (up : Option Node)
    → ((u : Node) → up ≡ some u → r u ≡ r' u)
    → depends_step r b up ≡ depends_step r' b up
unfolding depends_step
depends_step_agree true up h = refl
depends_step_agree false none h = refl
depends_step_agree false (some u) h = h u refl

module _ (tables : Tables) (height : NodeKind → ℕ → ℕ) (acyclic : IsAcyclic tables height) where
  pub parent_lower :
      (page : MenuPage) (n : Node) {up : Node}
      → In n (all_nodes tables)
      → parent_of (graph tables page.id) n ≡ some up
      → In up (all_nodes tables) × (height up.kind up.id < height n.kind n.id)
  parent_lower page n {up} m e =
      let (i, k, d) = parent_of-some (graph tables page.id) n e in
      ((In-graph up tables page.id i).0, acyclic.parents n up.kind up.id m k d)

  depends_from_fuel :
      (f g : ℕ) (page : MenuPage) (n : Node)
      → In n (all_nodes tables)
      → height n.kind n.id < f
      → height n.kind n.id < g
      → depends_from f (graph tables page.id) n ≡ depends_from g (graph tables page.id) n
  unfolding depends_from
  depends_from_fuel zero g page n m hf hg = absurd (omega arith)
  depends_from_fuel (suc f) zero page n m hf hg = absurd (omega arith)
  depends_from_fuel (suc f) (suc g) page n m hf hg =
      depends_step_agree (rides_base n) (parent_of (graph tables page.id) n) (λ up b.
        let (i, l) = parent_lower page n m b in
        depends_from_fuel f g page up i (omega arith) (omega arith))
