-- ===== src/Menu/Content/Winner.antt =====
-- The content of `_select_content` against its contract.
use first_helios.Base.{true, Option, none, some, List, [], ◌∷◌, arith, ◌≡◌, refl, In, inl, inr, ◌⊎◌}
use first_helios.Base.Order.{
  sort_by, In-sort_by, sort_by-In, sort_by-IsSorted, not_after, IsSorted, cons,
}
use first_helios.Menu.Model.{MenuPage}
use first_helios.Menu.Graph.{Node}
use first_helios.Menu.Heads.{Heads, values}
use first_helios.Menu.Rank.{cmp_rank, cmp_rank-IsOrder}
use first_helios.Menu.Session.{Session, SelectionRequest}
use first_helios.Menu.Content.{
  ContentCandidate, ContentResult, content_candidates, supplied_node, resolve_content, content_rank,
  first_content, select_content,
}

module _ (session : Session) (request : SelectionRequest) where
  -- a head with a node for the target
  abbrev pub Supplies : List MenuPage → ContentCandidate → Type 0
  Supplies pages c = In c.page pages × (supplied_node session request c.page ≡ some c.node)

  candidates_of : MenuPage → Option Node → List ContentCandidate → List ContentCandidate
  candidates_of page o rest = elim o [
    | none ↦ rest
    | some n ↦ record { page = page; node = n } ∷ rest
  ]

  In-candidates_of :
      (page : MenuPage) (pages : List MenuPage) (o : Option Node) (rest : List ContentCandidate)
      (c : ContentCandidate)
      → supplied_node session request page ≡ o
      → (In c rest → Supplies pages c)
      → In c (candidates_of page o rest)
      → Supplies (page ∷ pages) c
  unfolding candidates_of
  In-candidates_of page pages none rest c s h m = (inr (h m).0, (h m).1)
  In-candidates_of page pages (some n) rest c s h (inl p) = (inl (cc), cc)
  In-candidates_of page pages (some n) rest c s h (inr m) = (inr (h m).0, (h m).1)

  In-content_candidates :
      (pages : List MenuPage) (c : ContentCandidate)
      → In c (content_candidates session request pages)
      → Supplies pages c
  unfolding content_candidates candidates_of
  In-content_candidates [] c m = elim m [ ]
  In-content_candidates (page ∷ pages) c m =
      In-candidates_of page pages (supplied_node session request page)
        (content_candidates session request pages) c refl (In-content_candidates pages c) m

  candidates_of-In :
      (page : MenuPage) (pages : List MenuPage) (o : Option Node) (rest : List ContentCandidate)
      (c : ContentCandidate)
      → supplied_node session request page ≡ o
      → (Supplies pages c → In c rest)
      → Supplies (page ∷ pages) c
      → In c (candidates_of page o rest)
  unfolding candidates_of
  candidates_of-In page pages none rest c s h (inl p, e) = cc
  candidates_of-In page pages none rest c s h (inr m, e) = h (m, e)
  candidates_of-In page pages (some n) rest c s h (inl p, e) = inl (cc)
  candidates_of-In page pages (some n) rest c s h (inr m, e) = inr (h (m, e))

  content_candidates-In :
      (pages : List MenuPage) (c : ContentCandidate)
      → Supplies pages c
      → In c (content_candidates session request pages)
  unfolding content_candidates candidates_of
  content_candidates-In [] c h = elim h.0 [ ]
  content_candidates-In (page ∷ pages) c h =
      candidates_of-In page pages (supplied_node session request page)
        (content_candidates session request pages) c refl (content_candidates-In pages c) h

  -- What the content may be, given the heads.
  pub data ContentOutcome (pages : List MenuPage) : Option ContentResult → Type 0 where
    nothing :
        ((c : ContentCandidate) → Supplies pages c → resolve_content session request c ≡ none)
        → ContentOutcome pages none
    shown :
        (w : ContentCandidate) (content : ContentResult)
        → Supplies pages w
        → resolve_content session request w ≡ some content
        → ((d : ContentCandidate)
            → Supplies pages d
            → (resolve_content session request d ≡ none)
              ⊎ (not_after cmp_rank (content_rank session) w d ≡ true))
        → ContentOutcome pages (some content)

  FirstOf : List ContentCandidate → Option ContentResult → Type 0
  FirstOf cs none = (c : ContentCandidate) → In c cs → resolve_content session request c ≡ none
  FirstOf cs (some content) =
      (w : ContentCandidate) × In w cs
      × (resolve_content session request w ≡ some content)
      × ((d : ContentCandidate)
          → In d cs
          → (resolve_content session request d ≡ none)
            ⊎ (not_after cmp_rank (content_rank session) w d ≡ true))

  or_first : Option ContentResult → Option ContentResult → Option ContentResult
  or_first o rest = elim o [ none ↦ rest | some content ↦ some content ]

  FirstOf-skip :
      (c : ContentCandidate) (cs : List ContentCandidate) (r : Option ContentResult)
      → resolve_content session request c ≡ none
      → FirstOf cs r
      → FirstOf (c ∷ cs) r
  unfolding FirstOf
  FirstOf-skip c cs none e h = every
    where
      every : (d : ContentCandidate) → In d (c ∷ cs) → resolve_content session request d ≡ none
      every d (inl p) = rw p e
      every d (inr m) = h d m
  FirstOf-skip c cs (some content) e (w, m, r, h) = (w, inr m, r, every)
    where
      every :
          (d : ContentCandidate)
          → In d (c ∷ cs)
          → (resolve_content session request d ≡ none)
            ⊎ (not_after cmp_rank (content_rank session) w d ≡ true)
      every d (inl p) = inl (rw p e)
      every d (inr i) = h d i

  FirstOf-or_first :
      (c : ContentCandidate) (cs : List ContentCandidate) (o : Option ContentResult)
      → resolve_content session request c ≡ o
      → ((d : ContentCandidate)
          → In d (c ∷ cs)
          → not_after cmp_rank (content_rank session) c d ≡ true)
      → (rest : Option ContentResult) → FirstOf cs rest
      → FirstOf (c ∷ cs) (or_first o rest)
  unfolding or_first
  FirstOf-or_first c cs none e least rest h = FirstOf-skip c cs rest e h
  FirstOf-or_first c cs (some content) e least rest h =
      unfold FirstOf in (c, inl refl, e, λ d m. inr (least d m))

  first_content-FirstOf :
      (cs : List ContentCandidate)
      → IsSorted cmp_rank (content_rank session) cs
      → FirstOf cs (first_content session request cs)
  unfolding first_content or_first FirstOf
  first_content-FirstOf [] s = λ c m. absurd m
  first_content-FirstOf (c ∷ cs) (cons _ _ h s) =
      FirstOf-or_first c cs (resolve_content session request c) refl least
        (first_content session request cs) (first_content-FirstOf cs s)
    where
      least :
          (d : ContentCandidate)
          → In d (c ∷ cs)
          → not_after cmp_rank (content_rank session) c d ≡ true
      least d (inl p) =
          rw p (
            ground
              (arith, cmp_rank-IsOrder.flips (content_rank session c) (content_rank session c)))
      least d (inr m) = h d m

  FirstOf-ContentOutcome :
      (pages : List MenuPage) (r : Option ContentResult)
      → FirstOf
          (sort_by cmp_rank (content_rank session) (content_candidates session request pages))
          r
      → ContentOutcome pages r
  unfolding FirstOf
  FirstOf-ContentOutcome pages none h = nothing (λ c s. h c (
      sort_by-In cmp_rank (content_rank session) c (content_candidates session request pages)
        (content_candidates-In pages c s)))
  FirstOf-ContentOutcome pages (some content) (w, m, e, h) =
      shown w content
        (In-content_candidates pages w (
          In-sort_by cmp_rank (content_rank session) w (content_candidates session request pages)
            m))
        e
        (λ d s. h d (
          sort_by-In cmp_rank (content_rank session) d (content_candidates session request pages)
            (content_candidates-In pages d s)))

-- The content is what a head with a node for the target resolves to, and every other such head has no content or does not rank before it; there is no content exactly if no such head has any.
pub select_content-ContentOutcome :
    (session : Session) (request : SelectionRequest) (heads : Heads)
    → ContentOutcome session request (values heads) (select_content session request heads)
unfolding select_content
select_content-ContentOutcome session request heads =
    FirstOf-ContentOutcome session request (values heads) (first_content session request sorted) (
      first_content-FirstOf session request sorted (
        sort_by-IsSorted cmp_rank (content_rank session) cmp_rank-IsOrder
          (content_candidates session request (values heads))))
  where
    sorted : List ContentCandidate
    sorted =
        sort_by cmp_rank (content_rank session) (content_candidates session request (values heads))
