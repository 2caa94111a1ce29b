-- ===== src/Identity/Lineage/Successors.antt =====
-- The recursive query over `subject_lineage` finds exactly the current Subjects that its rows reach
-- (`_current_lineage_successor_ids` of packages/helios_core/identity/commands.py).
use first_helios.Base.{ap}
use first_helios.Base.{
  ℕ, zero, suc, ◌≡◌, ◌↔◌, inl, inr, refl, true, ◌&&◌, not, List, [], ◌∷◌, ◌==◌, length, In,
  In-select, select-In, if◌then◌else◌, arith, &&-true, sym, subst,
}
use first_helios.Base.Order.{cmp_ℕ, In-sort_by, sort_by-In}
use first_helios.Identity.Resolution.{Db, is_current_subject}
use first_helios.Identity.Lineage.{
  Edge, member, member_iff, added-In, In-added, direct_successors, expand, repeated,
  lineage_successors, current_lineage_successor_ids, Reached, direct, onward,
}
use first_helios.Identity.Lineage.Rounds.{
  IsClosed, repeated-IsClosed, repeated-keeps, missing_bound,
}

module _ (lineage : List Edge) (subject_id : ℕ) where
  AllReached : List ℕ → Type 0
  AllReached ids = (s : ℕ) → In s ids → Reached lineage subject_id s

  direct_successors-In :
      (edges : List Edge)
      → ((e : Edge) → In e edges → In e lineage)
      → (s : ℕ) → In s (direct_successors subject_id edges)
      → Reached lineage subject_id s
  unfolding direct_successors
  direct_successors-In [] sub s m = elim m [ ]
  direct_successors-In ((p, t) ∷ edges) sub s m =
      elim (In-added _ s t (direct_successors subject_id edges) m) [
        | inl (b, e) ↦ direct s (subst (λ x. In x lineage) (ground arith) (sub (p, t) (inl refl)))
        | inr k ↦ direct_successors-In edges (λ e i. sub e (inr i)) s k
      ]

  expand-In :
      (edges : List Edge) (ids : List ℕ)
      → ((e : Edge) → In e edges → In e lineage)
      → ((s : ℕ) → In s ids → Reached lineage subject_id s)
      → (s : ℕ) → In s (expand edges ids)
      → Reached lineage subject_id s
  unfolding expand
  expand-In [] ids sub reached s m = reached s m
  expand-In ((p, t) ∷ edges) ids sub reached s m = elim (In-added _ s t (expand edges ids) m) [
    | inl (b, e) ↦
        onward p s (reached p ((member_iff p ids).0 (&&-true (member p ids) _ b).0))
          (subst (λ x. In (p, x) lineage) (sym e) (sub (p, t) (inl refl)))
    | inr k ↦ expand-In edges ids (λ e i. sub e (inr i)) reached s k
  ]

  repeated-In :
      (n : ℕ) (ids : List ℕ)
      → ((s : ℕ) → In s ids → Reached lineage subject_id s)
      → (s : ℕ) → In s (repeated n lineage ids)
      → Reached lineage subject_id s
  unfolding repeated
  repeated-In zero ids reached s m = reached s m
  repeated-In (suc n) ids reached s m =
      repeated-In n (expand lineage ids) (expand-In lineage ids (λ e i. i) reached) s m

direct-In :
    (subject_id s : ℕ) (edges : List Edge)
    → In (subject_id, s) edges
    → In s (direct_successors subject_id edges)
unfolding direct_successors
direct-In subject_id s [] i = elim i [ ]
direct-In subject_id s ((p, t) ∷ edges) (inl e) =
    subst (λ x. In x (direct_successors subject_id ((p, t) ∷ edges)))
      (sym (ap (λ (e : Edge). e.1) e))
      (direct_here subject_id p t (direct_successors subject_id edges)
        (sym (ap (λ (e : Edge). e.0) e)))
  where
    direct_here :
        (subject_id p t : ℕ) (rest : List ℕ)
        → p ≡ subject_id
        → In t (if p == subject_id && not (member t rest) then t ∷ rest else rest)
    direct_here subject_id p t rest h = ground (arith, member_iff t rest)
direct-In subject_id s ((p, t) ∷ edges) (inr i) = added-In _ s t _ (direct-In subject_id s edges i)

module _ (lineage : List Edge) (subject_id : ℕ) where
  pub Reached-In :
      (s : ℕ) → Reached lineage subject_id s → In s (lineage_successors lineage subject_id)
  unfolding lineage_successors IsClosed
  Reached-In s (direct _ i) =
      repeated-keeps lineage (length lineage) (direct_successors subject_id lineage) s
        (direct-In subject_id s lineage i)
  Reached-In s (onward p _ r i) = closed p s i (Reached-In p r)
    where
      closed : IsClosed lineage (lineage_successors lineage subject_id)
      closed =
          repeated-IsClosed lineage (length lineage) (direct_successors subject_id lineage)
            (missing_bound lineage (direct_successors subject_id lineage))

  In-Reached : (s : ℕ) → In s (lineage_successors lineage subject_id) → Reached lineage subject_id s
  unfolding lineage_successors
  In-Reached s m =
      repeated-In lineage subject_id (length lineage) (direct_successors subject_id lineage)
        (direct_successors-In lineage subject_id lineage (λ e i. i)) s m

-- The rows that the recursive query returns, with one round for each lineage row, are exactly the current
-- Subjects that a chain of lineage rows reaches from the retired Subject, cycles included.
pub current_lineage_successor_ids_iff :
    (db : Db) (lineage : List Edge) (subject_id s : ℕ)
    → In s (current_lineage_successor_ids db lineage subject_id)
      ↔ ((is_current_subject db s ≡ true) × Reached lineage subject_id s)
unfolding current_lineage_successor_ids
current_lineage_successor_ids_iff db lineage subject_id s = (
  (λ m.
      let (i, c) =
        In-select (λ i. is_current_subject db i) s (lineage_successors lineage subject_id)
          (In-sort_by cmp_ℕ (λ i. i) s _ m) in
      (c, In-Reached lineage subject_id s i)),
  λ (c, r).
      sort_by-In cmp_ℕ (λ i. i) s _
        (select-In (λ i. is_current_subject db i) s (lineage_successors lineage subject_id)
          (Reached-In lineage subject_id s r) c),
)
