-- ===== src/Identity/Lineage/Rounds.antt =====
-- The rounds of the recursive query over `subject_lineage` end with every successor found
-- (packages/helios_core/identity/commands.py).
use first_helios.Base.{◌∙◌}
use first_helios.Base.{ap}
use first_helios.Base.{
  ℕ, zero, suc, ◌<◌, ◌≤◌, ◌≡◌, ◌⊎◌, inl, inr, refl, true, false, ◌&&◌, not, List, [], ◌∷◌, any,
  select, length, In, Bool-cases, arith, sym, subst,
}
use first_helios.Identity.Lineage.{Edge, member, member_iff, added-In, expand, repeated}

-- Whatever is in, its successors are.
unfoldable pub IsClosed : List Edge → List ℕ → Type 0
IsClosed lineage ids = (p s : ℕ) → In (p, s) lineage → In p ids → In s ids

expand-keeps : (edges : List Edge) (ids : List ℕ) (s : ℕ) → In s ids → In s (expand edges ids)
unfolding expand
expand-keeps [] ids s m = m
expand-keeps ((p, t) ∷ edges) ids s m =
    added-In _ s t (expand edges ids) (expand-keeps edges ids s m)

-- the rows whose successor is not found yet
unfoldable pub missing : List Edge → List ℕ → ℕ
missing lineage ids = length (select (λ (e : Edge). not (member e.1 ids)) lineage)

missing_less :
    (lineage : List Edge) (s : ℕ) (ids : List ℕ) → missing lineage (s ∷ ids) ≤ missing lineage ids
unfolding missing select member any
missing_less [] s ids = ground arith
missing_less ((p, t) ∷ lineage) s ids = ground (arith, missing_less lineage s ids)

missing_drops :
    (lineage : List Edge) (p s : ℕ) (ids : List ℕ)
    → In (p, s) lineage
    → member s ids ≡ false
    → missing lineage (s ∷ ids) < missing lineage ids
unfolding missing select member any
missing_drops [] p s ids i h = elim i [ ]
missing_drops ((q, t) ∷ lineage) p s ids (inl e) h =
    let same = ap (λ (x : Edge). x.1) e in drops_here lineage q s t ids same h
  where
    drops_here :
        (lineage : List Edge) (q s t : ℕ) (ids : List ℕ)
        → s ≡ t
        → member s ids ≡ false
        → missing ((q, t) ∷ lineage) (s ∷ ids) < missing ((q, t) ∷ lineage) ids
    drops_here lineage q s t ids same h =
        subst (λ x. missing ((q, x) ∷ lineage) (s ∷ ids) < missing ((q, x) ∷ lineage) ids) same
          (unfold missing select member any in rw h (ground (arith, missing_less lineage s ids)))
missing_drops ((q, t) ∷ lineage) p s ids (inr i) h =
    ground (arith, missing_drops lineage p s ids i h)

-- Where a row adds nothing, its successor is in if its predecessor is.
nothing_added :
    (q t : ℕ) (ids more : List ℕ)
    → (member q ids && not (member t more)) ≡ false
    → more ≡ ids
    → In q ids
    → In t ids
nothing_added q t ids more c same m =
    subst (In t) same ((member_iff t more).0 (ground (arith, (member_iff q ids).1 m)))

-- A round that finds nothing new is the last.
Progress : List Edge → List Edge → List ℕ → List ℕ → Type 0
Progress lineage edges ids more =
    ((more ≡ ids) × ((p s : ℕ) → In (p, s) edges → In p ids → In s ids))
    ⊎ (missing lineage more < missing lineage ids)

row_adds :
    (lineage edges : List Edge) (q t : ℕ) (ids more : List ℕ)
    → In (q, t) lineage
    → (member q ids && not (member t more)) ≡ true
    → Progress lineage edges ids more
    → Progress lineage ((q, t) ∷ edges) ids (t ∷ more)
unfolding Progress
row_adds lineage edges q t ids more i c (inl (same, closed)) = inr (
    subst (λ x. missing lineage (t ∷ more) < missing lineage x) same
      (missing_drops lineage q t more i (ground arith)))
row_adds lineage edges q t ids more i c (inr less) =
    inr (omega (arith, missing_drops lineage q t more i (ground arith)))

row_keeps :
    (lineage edges : List Edge) (q t : ℕ) (ids more : List ℕ)
    → (member q ids && not (member t more)) ≡ false
    → Progress lineage edges ids more
    → Progress lineage ((q, t) ∷ edges) ids more
unfolding Progress
row_keeps lineage edges q t ids more c (inl (same, closed)) = inl (same, closes)
  where
    closes : (p s : ℕ) → In (p, s) ((q, t) ∷ edges) → In p ids → In s ids
    closes p s (inl e) m =
        subst (λ x. In x ids) (sym (ap (λ (e : Edge). e.1) e))
          (nothing_added q t ids more c same (subst (λ x. In x ids) (ap (λ (e : Edge). e.0) e) m))
    closes p s (inr i) m = closed p s i m
row_keeps lineage edges q t ids more c (inr less) = inr less

expand-Progress :
    (lineage edges : List Edge) (ids : List ℕ)
    → ((e : Edge) → In e edges → In e lineage)
    → Progress lineage edges ids (expand edges ids)
unfolding expand Progress
expand-Progress lineage [] ids sub = inl (refl, λ p s i m. elim i [ ])
expand-Progress lineage ((q, t) ∷ edges) ids sub =
    let rest = expand-Progress lineage edges ids (λ e i. sub e (inr i)) in
    elim (Bool-cases (member q ids && not (member t (expand edges ids)))) [
      | inl c ↦
          rw c (row_adds lineage edges q t ids (expand edges ids) (sub (q, t) (inl refl)) c rest)
      | inr c ↦ rw c (row_keeps lineage edges q t ids (expand edges ids) c rest)
    ]

repeated_still :
    (lineage : List Edge) (n : ℕ) (ids : List ℕ)
    → expand lineage ids ≡ ids
    → repeated n lineage ids ≡ ids
unfolding repeated
repeated_still lineage zero ids h = refl
repeated_still lineage (suc n) ids h = ap (repeated n lineage) h ∙ repeated_still lineage n ids h

none_missing : (lineage : List Edge) (ids : List ℕ) → missing lineage ids ≤ 0 → IsClosed lineage ids
unfolding missing select IsClosed
none_missing [] ids h p s i m = elim i [ ]
none_missing ((q, t) ∷ lineage) ids h p s (inl e) m =
    subst (λ x. In x ids) (sym (ap (λ (e : Edge). e.1) e)) ((member_iff t ids).0 (ground arith))
none_missing ((q, t) ∷ lineage) ids h p s (inr i) m =
    none_missing lineage ids (ground arith) p s i m

pub repeated-IsClosed :
    (lineage : List Edge) (n : ℕ) (ids : List ℕ)
    → missing lineage ids ≤ n
    → IsClosed lineage (repeated n lineage ids)
unfolding repeated Progress
repeated-IsClosed lineage zero ids h = none_missing lineage ids h
repeated-IsClosed lineage (suc n) ids h = elim (expand-Progress lineage lineage ids (λ e i. i)) [
  | inl (same, closed) ↦
      subst (IsClosed lineage)
        (sym (ap (repeated n lineage) same ∙ repeated_still lineage n ids same))
        (unfold IsClosed in closed)
  | inr less ↦ repeated-IsClosed lineage n (expand lineage ids) (omega arith)
]

pub repeated-keeps :
    (lineage : List Edge) (n : ℕ) (ids : List ℕ) (s : ℕ) → In s ids → In s (repeated n lineage ids)
unfolding repeated
repeated-keeps lineage zero ids s m = m
repeated-keeps lineage (suc n) ids s m =
    repeated-keeps lineage n (expand lineage ids) s (expand-keeps lineage ids s m)

pub missing_bound : (lineage : List Edge) (ids : List ℕ) → missing lineage ids ≤ length lineage
unfolding missing select
missing_bound [] ids = ground arith
missing_bound (e ∷ lineage) ids = ground (arith, missing_bound lineage ids)
