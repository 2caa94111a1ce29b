-- ===== src/Identity/Lineage.antt =====
-- The successors of a retired Subject: the recursive query `_current_lineage_successor_ids` of
-- packages/helios_core/identity/commands.py over the rows of `subject_lineage`.
pub mod Rounds
pub mod Successors
use first_helios.Base.{◌∙◌}
use first_helios.Base.{ap}
use first_helios.Base.{
  ℕ, zero, suc, ◌<◌, ◌≤◌, ◌≡◌, ◌↔◌, ◌⊎◌, inl, inr, refl, Bool, true, false, ◌&&◌, not, List, [],
  ◌∷◌, ◌==◌, any, select, length, In, In-select, select-In, Bool-cases, if◌then◌else◌, arith,
  &&-true, sym, subst,
}
use first_helios.Base.Order.{sort_by, cmp_ℕ, In-sort_by, sort_by-In}
use first_helios.Identity.Resolution.{Db, is_current_subject}

-- a row: predecessor and successor
abbrev pub Edge : Type 0
Edge = ℕ × ℕ

unfoldable pub member : ℕ → List ℕ → Bool
unfolding any
member i ids = any (λ j. j == i) ids

-- the first term of the query, without repeats (`UNION`)
unfoldable pub direct_successors : ℕ → List Edge → List ℕ
unfolding member
direct_successors subject_id [] = []
direct_successors subject_id ((p, s) ∷ edges) =
    let rest = direct_successors subject_id edges in
    if p == subject_id && not (member s rest) then s ∷ rest else rest

-- the recursive term, joined once to every id found so far
unfoldable pub expand : List Edge → List ℕ → List ℕ
unfolding member
expand [] ids = ids
expand ((p, s) ∷ edges) ids =
    let more = expand edges ids in if member p ids && not (member s more) then s ∷ more else more

unfoldable pub repeated : ℕ → List Edge → List ℕ → List ℕ
unfolding expand
repeated zero lineage ids = ids
repeated (suc n) lineage ids = repeated n lineage (expand lineage ids)

-- Every round but the last finds a new successor, so as many rounds as rows are enough.
unfoldable pub lineage_successors : List Edge → ℕ → List ℕ
unfolding repeated direct_successors
lineage_successors lineage subject_id =
    repeated (length lineage) lineage (direct_successors subject_id lineage)

unfoldable pub current_lineage_successor_ids : Db → List Edge → ℕ → List ℕ
unfolding lineage_successors sort_by
current_lineage_successor_ids db lineage subject_id =
    sort_by cmp_ℕ (λ i. i)
      (select (λ i. is_current_subject db i) (lineage_successors lineage subject_id))

-- A chain of lineage rows leads from the Subject to this one.
pub data Reached (lineage : List Edge) (subject_id : ℕ) : ℕ → Type 0 where
  direct : (s : ℕ) → In (subject_id, s) lineage → Reached lineage subject_id s
  onward :
      (p s : ℕ) → Reached lineage subject_id p → In (p, s) lineage → Reached lineage subject_id s

pub member_iff : (i : ℕ) (ids : List ℕ) → (member i ids ≡ true) ↔ In i ids
unfolding member any
member_iff i [] = ((λ h. cc), λ m. elim m [ ])
member_iff i (j ∷ ids) =
    let (to, from) = member_iff i ids in ((λ h. ground (arith, to)), λ m. ground (arith, from))

pub In-added :
    (b : Bool) (s t : ℕ) (more : List ℕ)
    → In s (if b then t ∷ more else more)
    → ((b ≡ true) × (s ≡ t)) ⊎ In s more
In-added true s t more (inl e) = inl (refl, e)
In-added true s t more (inr m) = inr m
In-added false s t more m = inr m

pub added-In :
    (b : Bool) (s t : ℕ) (more : List ℕ) → In s more → In s (if b then t ∷ more else more)
added-In true s t more m = inr m
added-In false s t more m = m
