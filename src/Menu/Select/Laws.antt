-- ===== src/Menu/Select/Laws.antt =====
-- `select_price` over both modes.
use first_helios.Menu.Price.Winner.{Contends}
use first_helios.Base.{
  false, ◌≤◌, ℕ, true, Option, none, some, List, [], ◌∷◌, ◌==◌, arith, ◌≡◌, refl, In, In-select,
  all-In, inl, inr, ap,
}
use first_helios.Menu.Price.{
  PriceCandidate, PriceResult, no_price, price_result, select_local_price,
}
use first_helios.Menu.Heads.{
  stream_heads, in_family, by_cutoff, Heads, values, subject_heads, all_heads_withdrawn,
}
use first_helios.Base.Text.{Text}
use first_helios.Menu.Model.{MenuPage, SourceKind, is_withdrawal}
use first_helios.Menu.Heads.Sources.{In-stream_heads}
use first_helios.Menu.Session.{observed_ok, Session, SelectionRequest, LocalState}
use first_helios.Menu.Content.{ContentResult, select_content, supplied_node}
use first_helios.Menu.Content.Winner.{ContentOutcome, nothing, shown, select_content-ContentOutcome}
use first_helios.Menu.Price.Local.{Outcome, absent, unresolved, won, select_local_price-Outcome}
use first_helios.Menu.Organization.{organization_claims}
use first_helios.Menu.Select.{
  Selection, Mode, current, or_withdrawn, selection_over, gated, gate, select_mode, select_price,
}

In-values :
    (p : MenuPage) (heads : Heads) → In p (values heads) → (k : SourceKind) × In (k, p) heads
unfolding values
In-values p [] m = elim m [ ]
In-values p ((k, q) ∷ heads) (inl e) = (k, inl (cc))
In-values p ((k, q) ∷ heads) (inr m) = let (j, i) = In-values p heads m in (j, inr i)

values-subject_heads :
    (p : MenuPage) (heads : Heads) (subject_id : ℕ)
    → In p (values (subject_heads heads subject_id))
    → p.subject_id ≡ subject_id
unfolding subject_heads
values-subject_heads p heads subject_id m =
    let (k, i) = In-values p (subject_heads heads subject_id) m in
    let (j, e) =
      In-select (λ (head : SourceKind × MenuPage). head.1.subject_id == subject_id) (k, p) heads
        i in
    ground arith

Outcome-subject :
    (session : Session) (request : SelectionRequest) (pages : List MenuPage) {r : PriceResult}
    → Outcome session request pages r
    → ((p : MenuPage) → In p pages → p.subject_id ≡ request.subject_id)
    → r.scope_subject_id ≡ some request.subject_id
unfolding no_price price_result
Outcome-subject session request pages (absent h) own = refl
Outcome-subject session request pages (unresolved c h k) own = refl
Outcome-subject session request pages (won w h r b) own = ap some (own w.page h.page_in)

or_withdrawn-subject :
    (request : SelectionRequest) (heads : Heads) (content : Option ContentResult)
    (price : PriceResult)
    → price.scope_subject_id ≡ some request.subject_id
    → (or_withdrawn request heads content price).scope_subject_id ≡ some request.subject_id
unfolding or_withdrawn no_price
or_withdrawn-subject request heads content price h = ground arith

own_selection :
    (session : Session) (request : SelectionRequest) (mode : Mode) (heads : Heads)
    → ((p : MenuPage) → In p (values heads) → p.subject_id ≡ request.subject_id)
    → (selection_over session request mode heads).local_price.scope_subject_id
      ≡ some request.subject_id
unfolding selection_over
own_selection session request mode heads own =
    or_withdrawn-subject request heads (select_content session request heads)
      (select_local_price session request heads)
      (Outcome-subject session request (values heads)
        (select_local_price-Outcome session request heads) own)

gated-subject :
    (o : Option LocalState) (request : SelectionRequest) (below : Selection)
    → below.local_price.scope_subject_id ≡ some request.subject_id
    → (gated o request below).local_price.scope_subject_id ≡ some request.subject_id
unfolding gated no_price
gated-subject none request below h = h
gated-subject (some reason) request below h = refl

current-subject :
    (o : Option ℕ) (session : Session) (request : SelectionRequest) (heads : Heads)
    → o ≡ none
    → (select_mode o session request heads).local_price.scope_subject_id ≡ some request.subject_id
unfolding select_mode
current-subject (some cutoff) session request heads e = cc
current-subject none session request heads e =
    gated-subject (gate session request own) request (selection_over session request current own) (
      own_selection session request current own
        (λ p m. values-subject_heads p heads request.subject_id m))
  where
    own : Heads
    own = subject_heads heads request.subject_id

-- In current mode the local price, or the reason that there is none, is always the requested subject's own: no price of another subject stands in for it.
pub select_price-own_subject :
    (session : Session) (request : SelectionRequest)
    → request.knowledge_cutoff ≡ none
    → (select_price session request).local_price.scope_subject_id ≡ some request.subject_id
unfolding select_price
select_price-own_subject session request e =
    current-subject request.knowledge_cutoff session request _ e

-- a head that a tombstone closes supplies nothing
withdrawn-supplied :
    (session : Session) (request : SelectionRequest) (p : MenuPage)
    → is_withdrawal p.operation ≡ true
    → supplied_node session request p ≡ none
unfolding supplied_node
withdrawn-supplied session request p h = rw h

heads_withdrawn-In :
    (heads : Heads) (p : MenuPage)
    → all_heads_withdrawn heads ≡ true
    → In p (values heads)
    → is_withdrawal p.operation ≡ true
unfolding all_heads_withdrawn
heads_withdrawn-In [] p h m = cc
heads_withdrawn-In (x ∷ heads) p h m =
    all-In (λ (q : MenuPage). is_withdrawal q.operation) p (values (x ∷ heads)) h m

no_content :
    (session : Session) (request : SelectionRequest) (pages : List MenuPage)
    (r : Option ContentResult)
    → ((p : MenuPage) → In p pages → is_withdrawal p.operation ≡ true)
    → ContentOutcome session request pages r
    → r ≡ none
no_content session request pages r h (nothing k) = refl
no_content session request pages r h (shown w content (m, s) e b) =
    absurd (ground (arith, h w.page m, withdrawn-supplied session request w.page (h w.page m)))

no_contender :
    (session : Session) (request : SelectionRequest) (pages : List MenuPage) {r : PriceResult}
    → ((p : MenuPage) → In p pages → is_withdrawal p.operation ≡ true)
    → Outcome session request pages r
    → r ≡ no_price LocalState.absent request.subject_id
no_contender session request pages h (absent k) = refl
no_contender session request pages h (unresolved c k u) =
    absurd (ground (arith, h c.page k.page_in, k.live))
no_contender session request pages h (won w k u b) =
    absurd (ground (arith, h w.page k.page_in, k.live))

-- If the family has heads and a tombstone is the head of every one of its streams, then below the gate there is no content, no shared claim and no price, and the reason is `withdrawn`: no older page comes back.
pub selection_over-withdrawn :
    (session : Session) (request : SelectionRequest) (mode : Mode) (heads : Heads)
    → all_heads_withdrawn heads ≡ true
    → selection_over session request mode heads ≡ record {
      mode = mode;
      content = none;
      local_price = no_price LocalState.withdrawn request.subject_id;
      organization = [];
    }
unfolding selection_over or_withdrawn organization_claims
selection_over-withdrawn session request mode heads h =
    let c =
      no_content session request (values heads) (select_content session request heads)
        (λ p m. heads_withdrawn-In heads p h m)
        (select_content-ContentOutcome session request heads) in
    let q =
      no_contender session request (values heads) (λ p m. heads_withdrawn-In heads p h m)
        (select_local_price-Outcome session request heads) in
    rw (c, q, h) (unfold no_price in refl)

-- The page that a price result names, if it names one.
Outcome-page :
    (session : Session) (request : SelectionRequest) (pages : List MenuPage) {r : PriceResult}
    (i : ℕ)
    → Outcome session request pages r
    → r.page_id ≡ some i
    → (c : PriceCandidate) × Contends session request pages c × (c.page.id ≡ i)
unfolding no_price price_result
Outcome-page session request pages i (absent h) e = cc
Outcome-page session request pages i (unresolved c h k) e = cc
Outcome-page session request pages i (won w h r b) e = (w, h, cc)

or_withdrawn-page :
    (request : SelectionRequest) (heads : Heads) (content : Option ContentResult)
    (price : PriceResult) (i : ℕ)
    → (or_withdrawn request heads content price).page_id ≡ some i
    → price.page_id ≡ some i
unfolding or_withdrawn no_price
or_withdrawn-page request heads content price i e = ground arith

-- the page of a price, where it stands and what the cutoffs say of it
pub record Known (session : Session) (request : SelectionRequest) (cutoff : ℕ) (i : ℕ)
    (p : MenuPage) : Type 0 where
  pub named : p.id ≡ i
  pub committed : In p session.tables.pages
  pub family : p.source_record_id ≡ request.source_record_id
  pub accepted : p.accepted_at ≤ cutoff
  pub observed : by_cutoff request.observation_cutoff p.observed_at ≡ true
  pub live : is_withdrawal p.operation ≡ false

family_accepted :
    (record_id : ℕ) (root : Text) (cutoff : ℕ) (p : MenuPage)
    → in_family record_id root (some cutoff) p ≡ true
    → (p.source_record_id ≡ record_id) × (p.accepted_at ≤ cutoff)
unfolding in_family
family_accepted record_id root cutoff p h = ground arith

mode-Known :
    (o : Option ℕ) (session : Session) (request : SelectionRequest) (cutoff : ℕ) (i : ℕ)
    → o ≡ some cutoff
    → (select_mode o session request (
        stream_heads session.tables request.source_record_id request.root_key
          o)).local_price.page_id
      ≡ some i
    → (p : MenuPage) × Known session request cutoff i p
unfolding select_mode selection_over
mode-Known none session request cutoff i o e = cc
mode-Known (some k) session request cutoff i o e =
    let heads : Heads =
      stream_heads session.tables request.source_record_id request.root_key (some k) in
    let (c, h, n) =
      Outcome-page session request (values heads) i
        (select_local_price-Outcome session request heads)
        (or_withdrawn-page request heads (select_content session request heads)
          (select_local_price session request heads) i e) in
    let (m, f) =
      In-stream_heads session.tables request.source_record_id request.root_key (some k) c.page
        h.page_in in
    let (r, a) = family_accepted request.source_record_id request.root_key k c.page f in
    (
      c.page,
      record {
        named = n;
        committed = m;
        family = r;
        accepted = ground arith;
        observed = unfold observed_ok in h.observed;
        live = h.live;
      },
    )

-- In history mode a local price comes from a committed page of the request's source record that was accepted by the knowledge cutoff, observed by the observation cutoff and is no tombstone.
pub select_price-Known :
    (session : Session) (request : SelectionRequest) (cutoff : ℕ) (i : ℕ)
    → request.knowledge_cutoff ≡ some cutoff
    → (select_price session request).local_price.page_id ≡ some i
    → (p : MenuPage) × Known session request cutoff i p
unfolding select_price
select_price-Known session request cutoff i =
    mode-Known request.knowledge_cutoff session request cutoff i
