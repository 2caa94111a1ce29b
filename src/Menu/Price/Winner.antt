-- ===== src/Menu/Price/Winner.antt =====
-- The contenders of `_price_contenders`, apart from the loops that collect them.
use first_helios.Base.{
  ℕ, true, false, Option, none, some, List, [], ◌∷◌, ◌==◌, arith, ◌≡◌, ◌↔◌, refl, select, In,
  In-select, select-In, In-append, append-In, map-In, inl, inr, subst, sym, ap, In-map,
}
use first_helios.Base.Order.{In-sort_by, sort_by-In, cmp_ℕ}
use first_helios.Base.Text.{text_eq_iff}
use first_helios.Menu.Model.{MenuPage, PriceObservation, is_withdrawal, is_suppress, same_kind_iff}
use first_helios.Menu.Graph.{Node}
use first_helios.Menu.Paths.{target_node, effective_context}
use first_helios.Menu.Session.{Session, SelectionRequest, observed_ok}
use first_helios.Menu.Content.{supplied_node}
use first_helios.Menu.Price.{
  PriceCandidate, price_ok, context_ok, price_target_column, page_prices, page_contenders,
  price_contenders,
}

-- What it is to be a contender, apart from the loops that collect them.
pub record Contends (session : Session) (request : SelectionRequest) (pages : List MenuPage)
    (c : PriceCandidate) : Type 0 where
  pub page_in : In c.page pages
  pub live : is_withdrawal c.page.operation ≡ false
  pub observed : observed_ok request c.page ≡ true
  pub target : target_node session.tables c.page request.target ≡ some c.node
  pub shown : is_suppress c.node.effect ≡ false
  pub price_in : In c.price session.tables.prices
  pub same_page : c.price.page_id ≡ c.page.id
  pub currency : c.price.currency_code ≡ request.currency_code
  pub column : price_target_column c.price.target ≡ (c.node.kind, c.node.id)
  pub context :
      context_ok request
        (effective_context session.tables c.node.kind c.node.id c.price.applicability_id)
      ≡ true

supplied_node-some :
    (session : Session) (request : SelectionRequest) (page : MenuPage) {n : Node}
    → supplied_node session request page ≡ some n
    → (is_withdrawal page.operation ≡ false)
      × (observed_ok request page ≡ true)
      × (target_node session.tables page request.target ≡ some n)
      × (is_suppress n.effect ≡ false)
unfolding supplied_node
supplied_node-some session request page {n} e = ground arith

supplied_node_of :
    (session : Session) (request : SelectionRequest) (page : MenuPage) {n : Node}
    → is_withdrawal page.operation ≡ false
    → observed_ok request page ≡ true
    → target_node session.tables page request.target ≡ some n
    → is_suppress n.effect ≡ false
    → supplied_node session request page ≡ some n
unfolding supplied_node
supplied_node_of session request page w o t s = ground arith

price_ok-true :
    (session : Session) (request : SelectionRequest) (n : Node) (p : PriceObservation)
    → price_ok session request n p ≡ true
    → (p.currency_code ≡ request.currency_code)
      × (price_target_column p.target ≡ (n.kind, n.id))
      × (context_ok request (effective_context session.tables n.kind n.id p.applicability_id)
          ≡ true)
unfolding price_ok
price_ok-true session request n p h = ground (
  arith,
  text_eq_iff p.currency_code request.currency_code,
  same_kind_iff (price_target_column p.target).0 n.kind,
)

price_ok_of :
    (session : Session) (request : SelectionRequest) (n : Node) (p : PriceObservation)
    → p.currency_code ≡ request.currency_code
    → price_target_column p.target ≡ (n.kind, n.id)
    → context_ok request (effective_context session.tables n.kind n.id p.applicability_id) ≡ true
    → price_ok session request n p ≡ true
unfolding price_ok
price_ok_of session request n p c t e = ground (
  arith,
  text_eq_iff p.currency_code request.currency_code,
  same_kind_iff (price_target_column p.target).0 n.kind,
)

module _ (session : Session) (request : SelectionRequest) where
  In-page_prices :
      (p : PriceObservation) (page_id : ℕ)
      → In p (page_prices session page_id)
      → In p session.tables.prices × (p.page_id ≡ page_id)
  unfolding page_prices
  In-page_prices p page_id m =
      let (i, e) =
        In-select (λ (q : PriceObservation). q.page_id == page_id) p session.tables.prices
          (In-sort_by cmp_ℕ (λ (q : PriceObservation). q.id) p
            (select (λ (q : PriceObservation). q.page_id == page_id) session.tables.prices) m) in
      (i, ground arith)

  page_prices-In :
      (p : PriceObservation) (page_id : ℕ)
      → In p session.tables.prices
      → p.page_id ≡ page_id
      → In p (page_prices session page_id)
  unfolding page_prices
  page_prices-In p page_id m e =
      sort_by-In cmp_ℕ (λ (q : PriceObservation). q.id) p
        (select (λ (q : PriceObservation). q.page_id == page_id) session.tables.prices)
        (select-In (λ (q : PriceObservation). q.page_id == page_id) p session.tables.prices m
          (ground arith))

  In-page_contenders :
      (page : MenuPage) (n : Node) (c : PriceCandidate)
      → In c (page_contenders session request page n)
      → (c.page ≡ page)
        × (c.node ≡ n)
        × In c.price (page_prices session page.id)
        × (price_ok session request n c.price ≡ true)
  unfolding page_contenders
  In-page_contenders page n c m =
      let (p, i, e) =
        In-map (λ p. record { page = page; price = p; node = n }) c
          (select (price_ok session request n) (page_prices session page.id)) m in
      let (j, t) = In-select (price_ok session request n) p (page_prices session page.id) i in
      let same : c.price ≡ p = ap (λ (k : PriceCandidate). k.price) e in
      (
        ap (λ (k : PriceCandidate). k.page) e,
        ap (λ (k : PriceCandidate). k.node) e,
        subst (λ q. In q (page_prices session page.id)) (sym same) j,
        subst (λ q. price_ok session request n q ≡ true) (sym same) t,
      )

  Contends-cons :
      (page : MenuPage) (pages : List MenuPage) {c : PriceCandidate}
      → Contends session request pages c
      → Contends session request (page ∷ pages) c
  Contends-cons page pages h = record {
    page_in = inr h.page_in;
    live = h.live;
    observed = h.observed;
    target = h.target;
    shown = h.shown;
    price_in = h.price_in;
    same_page = h.same_page;
    currency = h.currency;
    column = h.column;
    context = h.context;
  }

  Contends-page :
      (page : MenuPage) (n : Node) (p : PriceObservation) (pages : List MenuPage)
      → supplied_node session request page ≡ some n
      → In p (page_prices session page.id)
      → price_ok session request n p ≡ true
      → Contends session request (page ∷ pages) (record { page = page; price = p; node = n })
  Contends-page page n p pages s i t =
      let (w, o, tn, sup) = supplied_node-some session request page s in
      let (pin, same) = In-page_prices p page.id i in
      let (cur, col, ctx) = price_ok-true session request n p t in
      record {
        page_in = inl refl;
        live = w;
        observed = o;
        target = tn;
        shown = sup;
        price_in = pin;
        same_page = same;
        currency = cur;
        column = col;
        context = ctx;
      }

  contenders_of : MenuPage → Option Node → List PriceCandidate
  contenders_of page o = elim o [ none ↦ [] | some n ↦ page_contenders session request page n ]

  In-contenders_of :
      (page : MenuPage) (o : Option Node) (pages : List MenuPage) (c : PriceCandidate)
      → supplied_node session request page ≡ o
      → In c (contenders_of page o)
      → Contends session request (page ∷ pages) c
  unfolding contenders_of
  In-contenders_of page none pages c s m = elim m [ ]
  In-contenders_of page (some n) pages c s m =
      let (ep, en, i, t) = In-page_contenders page n c m in
      subst (Contends session request (page ∷ pages)) (whole ep en)
        (Contends-page page n c.price pages s i t)
    where
      whole : c.page ≡ page → c.node ≡ n → record { page = page; price = c.price; node = n } ≡ c
      whole ep en = cc

  In-price_contenders :
      (pages : List MenuPage) (c : PriceCandidate)
      → In c (price_contenders session request pages)
      → Contends session request pages c
  unfolding price_contenders contenders_of
  In-price_contenders [] c m = elim m [ ]
  In-price_contenders (page ∷ pages) c m =
      elim (In-append c (contenders_of page (supplied_node session request page))
        (price_contenders session request pages) m) [
          | inl i ↦ In-contenders_of page (supplied_node session request page) pages c refl i
          | inr i ↦ Contends-cons page pages (In-price_contenders pages c i)
        ]

  page_contenders-In :
      (page : MenuPage) (n : Node) (p : PriceObservation)
      → In p (page_prices session page.id)
      → price_ok session request n p ≡ true
      → In (record { page = page; price = p; node = n }) (page_contenders session request page n)
  unfolding page_contenders
  page_contenders-In page n p i t =
      map-In (λ q. record { page = page; price = q; node = n }) p
        (select (price_ok session request n) (page_prices session page.id))
        (select-In (price_ok session request n) p (page_prices session page.id) i t)

  first-In :
      (c : PriceCandidate)
      → Contends session request (c.page ∷ []) c
      → In c (contenders_of c.page (supplied_node session request c.page))
  unfolding contenders_of
  first-In c h = rw (supplied_node_of session request c.page h.live h.observed h.target h.shown) (
      page_contenders-In c.page c.node c.price
        (page_prices-In c.price c.page.id h.price_in h.same_page)
        (price_ok_of session request c.node c.price h.currency h.column h.context))

  price_contenders-In :
      (pages : List MenuPage) (c : PriceCandidate)
      → Contends session request pages c
      → In c (price_contenders session request pages)
  unfolding price_contenders contenders_of
  price_contenders-In [] c h = elim h.page_in [ ]
  price_contenders-In (page ∷ pages) c h = elim h.page_in [
    | inl e ↦
        append-In c (contenders_of page (supplied_node session request page))
          (price_contenders session request pages)
          (inl (
            subst (λ q. In c (contenders_of q (supplied_node session request q))) e
              (first-In c (alone h))))
    | inr i ↦
        append-In c (contenders_of page (supplied_node session request page))
          (price_contenders session request pages) (inr (price_contenders-In pages c (tail h i)))
  ]
    where
      alone : Contends session request (page ∷ pages) c → Contends session request (c.page ∷ []) c
      alone k = record {
        page_in = inl refl;
        live = k.live;
        observed = k.observed;
        target = k.target;
        shown = k.shown;
        price_in = k.price_in;
        same_page = k.same_page;
        currency = k.currency;
        column = k.column;
        context = k.context;
      }

      tail :
          Contends session request (page ∷ pages) c
          → In c.page pages
          → Contends session request pages c
      tail k i = record {
        page_in = i;
        live = k.live;
        observed = k.observed;
        target = k.target;
        shown = k.shown;
        price_in = k.price_in;
        same_page = k.same_page;
        currency = k.currency;
        column = k.column;
        context = k.context;
      }

  -- The contenders are exactly the price rows of the heads that are live and observed by the cutoff, at the node that corresponds to the target and is not suppressed, in the requested currency and with the requested effective context, which holds at the effective instant.
  pub price_contenders_iff :
      (pages : List MenuPage) (c : PriceCandidate)
      → In c (price_contenders session request pages) ↔ Contends session request pages c
  price_contenders_iff pages c = (In-price_contenders pages c, price_contenders-In pages c)
