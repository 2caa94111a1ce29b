-- ===== src/Identity/Change/Acyclic.antt =====
-- A Subject change creates no cycle of lineage (packages/helios_core/identity/commands.py and the
-- trigger function `apply_subject_change` of alembic/versions/3f8b2c1d9a74).
use first_helios.Base.{
  ℕ, Bool, true, false, Option, none, some, List, [], ◌∷◌, ◌++◌, not, any, length, ◌≤◌,
  if◌then◌else◌, ◌≡◌, refl, sym, ap, ◌∙◌, subst, arith, In, inl, inr, ◌⊎◌,
}
use first_helios.Base.Results.{ok}
use first_helios.Identity.Lineage.{Edge, member_iff, lineage_successors, Reached, direct, onward}
use first_helios.Identity.Lineage.Successors.{Reached-In}
use first_helios.Identity.Change.{
  bad_cardinality, lineage_cycle, ChangeOperation, merge, split, retire, ChangeError, ChangeWorld,
  cardinality_ok, first_error, shape_tests, member_tests, apply_tests, change_tests, edges_from,
  new_edges, closes_cycle, apply_change, checked_change, record_subject_change,
}

-- No Subject succeeds itself.
unfoldable pub IsAcyclic : List Edge → Type 0
IsAcyclic lineage = (a : ℕ) → Reached lineage a a → ⊥

-- The rows of one change share a successor or a predecessor.
IsStar : List Edge → Type 0
IsStar rows = (q o p s : ℕ) → In (q, o) rows → In (p, s) rows → (o ≡ s) ⊎ (q ≡ p)

In-++_lem : (e : Edge) (xs ys : List Edge) → In e (xs ++ ys) → In e xs ⊎ In e ys
In-++_lem e [] ys m = inr m
In-++_lem e (x ∷ xs) ys (inl p) = inl (inl p)
In-++_lem e (x ∷ xs) ys (inr m) = elim (In-++_lem e xs ys m) [ inl i ↦ inl (inr i) | inr i ↦ inr i ]

-- A chain over the new rows and the old ones that uses a new row, from its first to its last.
record Crosses (rows old : List Edge) (a b : ℕ) : Type 0 where
  p : ℕ
  o : ℕ
  row : In (p, o) rows
  before : (a ≡ p) ⊎ Reached old a p
  beyond : (o ≡ b) ⊎ Reached old o b

further :
    (old : List Edge) (o b s : ℕ) → (o ≡ b) ⊎ Reached old o b → In (b, s) old → Reached old o s
further old o b s (inl e) i = direct s (subst (λ x. In (x, s) old) (sym e) i)
further old o b s (inr r) i = onward b s r i

crossing :
    (rows old : List Edge) (a b : ℕ)
    → IsStar rows
    → Reached (rows ++ old) a b
    → Reached old a b ⊎ Crosses rows old a b
unfolding IsStar
crossing rows old a b star (direct _ i) = elim (In-++_lem (a, b) rows old i) [
  | inl n ↦ inr record { p = a; o = b; row = n; before = inl refl; beyond = inl refl }
  | inr m ↦ inl (direct b m)
]
crossing rows old a b star (onward p _ r i) = elim (crossing rows old a p star r) [
  | inl q ↦ elim (In-++_lem (p, b) rows old i) [
    | inl n ↦ inr record { p = p; o = b; row = n; before = inr q; beyond = inl refl }
    | inr m ↦ inl (onward p b q m)
  ]
  | inr c ↦ elim (In-++_lem (p, b) rows old i) [
    | inl n ↦ elim (star c.p c.o p b c.row n) [
      | inl e ↦ inr record { p = c.p; o = c.o; row = c.row; before = c.before; beyond = inl e }
      | inr e ↦ inr record {
        p = p;
        o = b;
        row = n;
        before = subst (λ x. (a ≡ x) ⊎ Reached old a x) e c.before;
        beyond = inl refl;
      }
    ]
    | inr m ↦ inr record {
      p = c.p;
      o = c.o;
      row = c.row;
      before = c.before;
      beyond = inr (further old c.o p b c.beyond m);
    }
  ]
]

Reached_trans : (old : List Edge) (a b c : ℕ) → Reached old a b → Reached old b c → Reached old a c
Reached_trans old a b c r (direct _ i) = onward b c r i
Reached_trans old a b c r (onward p _ q i) = onward p c (Reached_trans old a b p r q) i

back_again :
    (old : List Edge) (o a p : ℕ)
    → (o ≡ a) ⊎ Reached old o a
    → (a ≡ p) ⊎ Reached old a p
    → (o ≡ p) ⊎ Reached old o p
back_again old o a p (inl e) (inl f) = inl (e ∙ f)
back_again old o a p (inl e) (inr r) = inr (subst (λ x. Reached old x p) (sym e) r)
back_again old o a p (inr q) (inl f) = inr (subst (Reached old o) f q)
back_again old o a p (inr q) (inr r) = inr (Reached_trans old o a p q r)

any_row :
    (old rows : List Edge) (e : Edge)
    → any (closes_cycle old) rows ≡ false
    → In e rows
    → closes_cycle old e ≡ false
unfolding any
any_row old [] e h m = elim m [ ]
any_row old (x ∷ rows) e h (inl q) = ground arith
any_row old (x ∷ rows) e h (inr m) = any_row old rows e (ground arith) m

no_way_back :
    (old : List Edge) (p o : ℕ) → closes_cycle old (p, o) ≡ false → (o ≡ p) ⊎ Reached old o p → ⊥
unfolding closes_cycle
no_way_back old p o h (inl e) =
    ground (arith, (member_iff p (o ∷ lineage_successors old o)).1 (inl (sym e)))
no_way_back old p o h (inr r) =
    ground (arith, (member_iff p (o ∷ lineage_successors old o)).1 (inr (Reached-In old o p r)))

star_IsAcyclic :
    (rows old : List Edge)
    → IsStar rows
    → any (closes_cycle old) rows ≡ false
    → IsAcyclic old
    → IsAcyclic (rows ++ old)
unfolding IsAcyclic
star_IsAcyclic rows old star h acyclic a r = elim (crossing rows old a a star r) [
  | inl q ↦ acyclic a q
  | inr c ↦
      no_way_back old c.p c.o (any_row old rows (c.p, c.o) h c.row)
        (back_again old c.o a c.p c.beyond c.before)
]

skipped-In :
    (b : Bool) (e x : Edge) (rest : List Edge)
    → In e (if b then rest else x ∷ rest)
    → (e ≡ x) ⊎ In e rest
skipped-In true e x rest m = inr m
skipped-In false e x rest m = m

edges_from-In :
    (q p s : ℕ) (outputs : List ℕ) → In (p, s) (edges_from q outputs) → (p ≡ q) × In s outputs
unfolding edges_from
edges_from-In q p s [] m = elim m [ ]
edges_from-In q p s (t ∷ outputs) m = elim (skipped-In _ (p, s) (q, t) (edges_from q outputs) m) [
  | inl e ↦ (ap (λ (e : Edge). e.0) e, inl (ap (λ (e : Edge). e.1) e))
  | inr n ↦ let (same, i) = edges_from-In q p s outputs n in (same, inr i)
]

new_edges-In :
    (p s : ℕ) (inputs outputs : List ℕ)
    → In (p, s) (new_edges inputs outputs)
    → In p inputs × In s outputs
unfolding new_edges
new_edges-In p s [] outputs m = elim m [ ]
new_edges-In p s (q ∷ inputs) outputs m =
    elim (In-++_lem (p, s) (edges_from q outputs) (new_edges inputs outputs) m) [
      | inl n ↦ let (same, i) = edges_from-In q p s outputs n in (inl same, i)
      | inr n ↦ let (i, j) = new_edges-In p s inputs outputs n in (inr i, j)
    ]

only_member : (ids : List ℕ) (a b : ℕ) → length ids ≤ 1 → In a ids → In b ids → a ≡ b
only_member [] a b h i j = elim i [ ]
only_member (c ∷ []) a b h (inl e) (inl f) = e ∙ sym f
only_member (c ∷ []) a b h (inr m) j = elim m [ ]
only_member (c ∷ []) a b h (inl e) (inr m) = elim m [ ]
only_member (c ∷ d ∷ ids) a b h i j = ground arith

few_members :
    (operation : ChangeOperation) (inputs outputs : ℕ)
    → cardinality_ok operation inputs outputs ≡ true
    → (outputs ≤ 1) ⊎ (inputs ≤ 1)
unfolding cardinality_ok
few_members merge inputs outputs h = inl (ground arith)
few_members split inputs outputs h = inr (ground arith)
few_members retire inputs outputs h = inr (ground arith)

new_edges-IsStar :
    (inputs outputs : List ℕ)
    → (length outputs ≤ 1) ⊎ (length inputs ≤ 1)
    → IsStar (new_edges inputs outputs)
unfolding IsStar
new_edges-IsStar inputs outputs (inl few) q o p s m n = inl (
    only_member outputs o s few (new_edges-In q o inputs outputs m).1
      (new_edges-In p s inputs outputs n).1)
new_edges-IsStar inputs outputs (inr few) q o p s m n = inr (
    only_member inputs q p few (new_edges-In q o inputs outputs m).0
      (new_edges-In p s inputs outputs n).0)

pub checked_change-ok :
    (o : Option ChangeError) (w after : ChangeWorld)
    → checked_change o w ≡ ok after
    → (o ≡ none) × (w ≡ after)
unfolding checked_change
checked_change-ok none w after h = (refl, cc)
checked_change-ok (some e) w after h = cc

pub first_error-none :
    (tests : List (Bool × ChangeError)) (b : Bool) (e : ChangeError)
    → first_error tests ≡ none
    → In (b, e) tests
    → b ≡ false
unfolding first_error
first_error-none [] b e h m = elim m [ ]
first_error-none ((failed, f) ∷ tests) b e h (inl p) =
    passed failed b (ap (λ (t : Bool × ChangeError). t.0) p) h
  where
    passed :
        (failed b : Bool)
        → b ≡ failed
        → (if failed then some f else first_error tests) ≡ none
        → b ≡ false
    passed true b p h = cc
    passed false b p h = p
first_error-none ((failed, f) ∷ tests) b e h (inr m) =
    first_error-none tests b e (rest_passed failed h) m
  where
    rest_passed :
        (failed : Bool)
        → (if failed then some f else first_error tests) ≡ none
        → first_error tests ≡ none
    rest_passed true h = cc
    rest_passed false h = h

pub unfailed : (b : Bool) → not b ≡ false → b ≡ true
unfailed true h = refl
unfailed false h = cc

-- A merge, split or retirement that succeeds keeps the lineage without cycles: if no Subject
-- succeeds itself before, none does after, although the trigger tests each new row against the old
-- rows only.
pub record_subject_change-IsAcyclic :
    (w after : ChangeWorld) (operation : ChangeOperation) (inputs outputs : List ℕ) (evidence : ℕ)
    (has_adjudication : Bool)
    → IsAcyclic w.lineage
    → record_subject_change w operation inputs outputs evidence has_adjudication ≡ ok after
    → IsAcyclic after.lineage
unfolding record_subject_change apply_change change_tests shape_tests member_tests apply_tests
record_subject_change-IsAcyclic w after operation inputs outputs evidence has_adjudication acyclic
      h =
    let (none_failed, same) = checked_change-ok _ _ after h in
    subst (λ (x : ChangeWorld). IsAcyclic x.lineage) same
      (star_IsAcyclic (new_edges inputs outputs) w.lineage
        (new_edges-IsStar inputs outputs (
          few_members operation (length inputs) (length outputs) (
            unfailed (cardinality_ok operation (length inputs) (length outputs)) (
              first_error-none (change_tests w operation inputs outputs evidence has_adjudication)
                (not (cardinality_ok operation (length inputs) (length outputs))) bad_cardinality
                none_failed (inr (inr (inr (inl refl))))))))
        (first_error-none (change_tests w operation inputs outputs evidence has_adjudication)
          (any (closes_cycle w.lineage) (new_edges inputs outputs)) lineage_cycle none_failed
          (inr (inr (inr (inr (inr (inr (inr (inr (inr (inr (inr (inr (inl refl))))))))))))))
        acyclic)
