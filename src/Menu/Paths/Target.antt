-- ===== src/Menu/Paths/Target.antt =====
-- What a walk up the parents finds, and which node a page supplies for a target.
use first_helios.Base.{
  ℕ, zero, suc, ◌<◌, Bool, true, false, Option, none, some, List, [], ◌∷◌, arith, ◌≡◌, refl, In,
  inl, inr, Bool-cases, In-select, select-In, select, ◌↔◌, subst, sym,
}
use first_helios.Menu.Model.{NodeKind, MenuPage, Tables, same_kind, same_kind_iff}
use first_helios.Menu.Graph.{Node, graph, all_nodes, parent_of, of_kind}
use first_helios.Menu.Paths.{
  TargetRef, depends_step, depends_from, depends_on_base, rides_base, path_fuel, target_node, only,
  corresponds, canonical_native_path, is_path,
}
use first_helios.Menu.Paths.Fuel.{IsAcyclic, parent_lower}

-- `m` is `n` or stands above it.
pub data Above (nodes : List Node) : Node → Node → Type 0 where
  here : (n : Node) → Above nodes n n
  up : {n p m : Node} → parent_of nodes n ≡ some p → Above nodes p m → Above nodes n m

depends_from-Above :
    (f : ℕ) (nodes : List Node) (n : Node)
    → depends_from f nodes n ≡ true
    → (m : Node) × Above nodes n m × (rides_base m ≡ true)
unfolding depends_from depends_step
depends_from-Above zero nodes n h = cc
depends_from-Above (suc f) nodes n h =
    go (rides_base n) (parent_of nodes n) refl refl h (depends_from-Above f nodes)
  where
    go :
        (b : Bool) (o : Option Node)
        → rides_base n ≡ b
        → parent_of nodes n ≡ o
        → depends_step (depends_from f nodes) b o ≡ true
        → ((u : Node)
            → depends_from f nodes u ≡ true
            → (m : Node) × Above nodes u m × (rides_base m ≡ true))
        → (m : Node) × Above nodes n m × (rides_base m ≡ true)
    go true o eb eo e ih = (n, here n, eb)
    go false none eb eo e ih = cc
    go false (some u) eb eo e ih = let (m, a, r) = ih u e in (m, up eo a, r)

module _ (tables : Tables) (height : NodeKind → ℕ → ℕ) (acyclic : IsAcyclic tables height) where
  Above-depends_from :
      (f : ℕ) (page : MenuPage) {n m : Node}
      → Above (graph tables page.id) n m
      → In n (all_nodes tables)
      → height n.kind n.id < f
      → rides_base m ≡ true
      → depends_from f (graph tables page.id) n ≡ true
  unfolding depends_from depends_step
  Above-depends_from zero page a i h r = absurd (omega arith)
  Above-depends_from (suc f) page (here n) i h r = rw r
  Above-depends_from (suc f) page (up {n} {p} e a) i h r = elim (Bool-cases (rides_base n)) [
    | inl b ↦ rw b
    | inr b ↦
        let (j, l) = parent_lower tables height acyclic page n i e in
        rw (b, e) (Above-depends_from f page a j (omega arith) r)
  ]

  -- If a height falls along the parent and base links and stays below the fuel: a node depends on the base page exactly when it or a node above it in its page has a base link or inherits.
  pub depends_on_base_iff :
      (page : MenuPage) (n : Node)
      → In n (all_nodes tables)
      → (depends_on_base tables page n ≡ true)
        ↔ ((m : Node) × Above (graph tables page.id) n m × (rides_base m ≡ true))
  unfolding depends_on_base
  depends_on_base_iff page n i = (
    depends_from-Above (path_fuel tables) (graph tables page.id) n,
    λ w. Above-depends_from (path_fuel tables) page w.1 i (acyclic.bounded n i) w.2,
  )

module _ (tables : Tables) (page : MenuPage) (target : TargetRef) where
  abbrev pub has_path : Node → Bool
  has_path n = is_path (canonical_native_path tables page n) target.native_path

  only-some : (ns : List Node) {n : Node} → only ns ≡ some n → ns ≡ n ∷ []
  unfolding only
  only-some [] e = cc
  only-some (a ∷ []) e = cc
  only-some (a ∷ b ∷ ns) e = cc

  -- The node that a page supplies for a target is a node of the page, of the target's kind and with the target's path, and every such node is that one.
  pub target_node_unique :
      (n : Node)
      → target_node tables page target ≡ some n
      → In n (graph tables page.id)
        × (n.kind ≡ target.kind)
        × (has_path n ≡ true)
        × ((m : Node)
            → In m (graph tables page.id)
            → m.kind ≡ target.kind
            → has_path m ≡ true
            → m ≡ n)
  unfolding target_node of_kind
  target_node_unique n e =
      let same = only-some (select (corresponds tables page target) kin) e in
      let (k, c) =
        In-select (corresponds tables page target) n kin
          (subst (λ ns. In n ns) (sym same) (inl refl)) in
      let (m, t) = In-select right_kind n nodes k in
      (
        m,
        (same_kind_iff n.kind target.kind).0 t,
        unfold corresponds in c,
        λ q i kq cq. alone (
            subst (λ ns. In q ns) same
              (select-In (corresponds tables page target) q kin
                (select-In right_kind q nodes i ((same_kind_iff q.kind target.kind).1 kq))
                (unfold corresponds in cq))),
      )
    where
      nodes : List Node
      nodes = graph tables page.id

      right_kind : Node → Bool
      right_kind q = same_kind q.kind target.kind

      kin : List Node
      kin = select right_kind nodes

      alone : {q : Node} → In q (n ∷ []) → q ≡ n
      alone (inl p) = p
      alone (inr m) = absurd m
