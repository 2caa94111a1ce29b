-- ===== src/Menu/Session/Gate.antt =====
-- The gate of `_current_gate`, read as a condition on single heads.
use first_helios.Base.{
  ℕ, ◌≤◌, true, Option, none, some, List, [], ◌∷◌, arith, ◌≡◌, ◌↔◌, refl, map, any, all, length, In,
  In-map, map-In, inl, inr, Bool-cases, subst, sym, &&-true,
}
use first_helios.Base.Order.{In-sort_by, sort_by-In}
use first_helios.Identity.Scope.{ResolvedScope, ResolvedScopeRequest, current_resolved_scopes}
use first_helios.Menu.Model.{MenuPage}
use first_helios.Menu.Heads.{Heads, values}
use first_helios.Menu.Session.{
  Session, scope_request, scope_requests, request_key, cmp_request, same_request, distinct,
  live_scopes, gate_of, current_gate, operating_ok,
}

same_request-eq : (a b : ResolvedScopeRequest) → same_request a b ≡ true → a ≡ b
unfolding same_request
same_request-eq a b h = ground arith

In-distinct :
    (r : ResolvedScopeRequest) (rs : List ResolvedScopeRequest) → In r (distinct rs) → In r rs
unfolding distinct
In-distinct r [] m = m
In-distinct r (q ∷ rs) m = ground (arith, In-distinct r rs)

any-witness :
    (r : ResolvedScopeRequest) (rs : List ResolvedScopeRequest)
    → any (same_request r) rs ≡ true
    → In r rs
unfolding any
any-witness r [] h = cc
any-witness r (q ∷ rs) h = ground (arith, same_request-eq r q, any-witness r rs)

distinct-In :
    (r : ResolvedScopeRequest) (rs : List ResolvedScopeRequest) → In r rs → In r (distinct rs)
unfolding distinct
distinct-In r [] m = m
distinct-In r (q ∷ rs) m = elim (Bool-cases (any (same_request q) rs)) [
  | inl e ↦ rw e (distinct-In r rs (again e m))
  | inr e ↦ rw e (keep m (distinct-In r rs))
]
  where
    again : any (same_request q) rs ≡ true → In r (q ∷ rs) → In r rs
    again e (inl p) = subst (λ x. In x rs) (sym p) (any-witness q rs e)
    again e (inr i) = i

    keep : In r (q ∷ rs) → (In r rs → In r (distinct rs)) → In r (q ∷ distinct rs)
    keep (inl p) f = inl p
    keep (inr i) f = inr (f i)

length-live_scopes : (ss : List (Option ResolvedScope)) → length (live_scopes ss) ≤ length ss
unfolding live_scopes
length-live_scopes [] = omega arith
length-live_scopes (none ∷ ss) = omega (arith, length-live_scopes ss)
length-live_scopes (some s ∷ ss) = omega (arith, length-live_scopes ss)

-- every answer is a scope that operates
abbrev Usable : ℕ → Option ResolvedScope → Type 0
Usable instant o = (s : ResolvedScope) × (o ≡ some s) × (operating_ok s instant ≡ true)

all_live :
    (instant : ℕ) (ss : List (Option ResolvedScope))
    → length (live_scopes ss) ≡ length ss
    → all (λ s. operating_ok s instant) (live_scopes ss) ≡ true
    → (o : Option ResolvedScope) → In o ss
    → Usable instant o
unfolding live_scopes all
all_live instant [] e h o m = elim m [ ]
all_live instant (none ∷ ss) e h o m = absurd (omega (arith, length-live_scopes ss))
all_live instant (some s ∷ ss) e h o (inl p) = (s, p, (&&-true _ _ h).0)
all_live instant (some s ∷ ss) e h o (inr m) =
    all_live instant ss (omega arith) (&&-true _ _ h).1 o m

live_all :
    (instant : ℕ) (ss : List (Option ResolvedScope))
    → ((o : Option ResolvedScope) → In o ss → Usable instant o)
    → (length (live_scopes ss) ≡ length ss)
      × (all (λ s. operating_ok s instant) (live_scopes ss) ≡ true)
unfolding live_scopes all
live_all instant [] h = (refl, refl)
live_all instant (none ∷ ss) h = let (s, e, ok) = h none (inl refl) in cc
live_all instant (some s ∷ ss) h =
    let (l, a) = live_all instant ss (λ o m. h o (inr m)) in
    let (s', e, ok) = h (some s) (inl refl) in (omega arith, ground arith)

gate_of-none_iff :
    (instant : ℕ) (ss : List (Option ResolvedScope))
    → (gate_of ss instant ≡ none) ↔ ((o : Option ResolvedScope) → In o ss → Usable instant o)
unfolding gate_of
gate_of-none_iff instant ss = (
  λ h. all_live instant ss (ground arith) (ground arith),
  λ h. let (l, a) = live_all instant ss h in ground arith,
)

module _ (session : Session) (heads : Heads) where
  requests-In : (p : MenuPage) → In p (values heads) → In (scope_request p) (scope_requests heads)
  unfolding scope_requests
  requests-In p m =
      sort_by-In cmp_request request_key (scope_request p)
        (distinct (map scope_request (values heads)))
        (distinct-In (scope_request p) (map scope_request (values heads))
          (map-In scope_request p (values heads) m))

  In-requests :
      (r : ResolvedScopeRequest)
      → In r (scope_requests heads)
      → (p : MenuPage) × In p (values heads) × (r ≡ scope_request p)
  unfolding scope_requests
  In-requests r m = In-map scope_request r (values heads) (
      In-distinct r (map scope_request (values heads))
        (In-sort_by cmp_request request_key r (distinct (map scope_request (values heads))) m))

  -- The gate lets a subject's heads pass exactly when Identity resolves the accepted scope of every head and each operates at the instant.
  pub current_gate-none_iff :
      (instant : ℕ)
      → (current_gate session heads instant ≡ none) ↔ (
          (p : MenuPage)
          → In p (values heads)
          → (s : ResolvedScope) × (session.check (scope_request p) ≡ some s)
            × (operating_ok s instant ≡ true))
  unfolding current_gate current_resolved_scopes
  current_gate-none_iff instant = (forth, back)
    where
      scopes : List (Option ResolvedScope)
      scopes = map session.check (scope_requests heads)

      forth :
          gate_of scopes instant ≡ none
          → (p : MenuPage) → In p (values heads)
          → (s : ResolvedScope) × (session.check (scope_request p) ≡ some s)
            × (operating_ok s instant ≡ true)
      forth h p m =
          (gate_of-none_iff instant scopes).0 h (session.check (scope_request p))
            (map-In session.check (scope_request p) (scope_requests heads) (requests-In p m))

      back :
          ((p : MenuPage)
            → In p (values heads)
            → (s : ResolvedScope) × (session.check (scope_request p) ≡ some s)
              × (operating_ok s instant ≡ true))
          → gate_of scopes instant ≡ none
      back h = (gate_of-none_iff instant scopes).1 usable
        where
          usable : (o : Option ResolvedScope) → In o scopes → Usable instant o
          usable o m =
              let (r, i, e) = In-map session.check o (scope_requests heads) m in
              let (p, j, q) = In-requests r i in let (s, a, ok) = h p j in (s, cc, ok)
