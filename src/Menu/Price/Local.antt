-- ===== src/Menu/Price/Local.antt =====
-- The local price of `_select_local_price` against its contract.
use first_helios.Base.{
  ◌<◌, ◌≤◌, true, false, List, [], ◌∷◌, arith, ◌≡◌, refl, select, In, In-select, select-In, inl,
  inr, ◌⊎◌, Bool-cases,
}
use first_helios.Base.Order.{sort_by, In-sort_by, sort_by-In, sort_by-least, not_after}
use first_helios.Menu.Model.{MenuPage, kind_rank}
use first_helios.Menu.Heads.{Heads, values}
use first_helios.Menu.Rank.{cmp_rank, cmp_rank-IsOrder, rank_key, leading}
use first_helios.Menu.Session.{Session, SelectionRequest, LocalState}
use first_helios.Menu.Price.{
  PriceCandidate, PriceResult, no_price, price_contenders, price_result, price_rank, is_resolvable,
  ranked_price, local_price_of, select_local_price,
}
use first_helios.Menu.Price.Winner.{Contends, price_contenders_iff}

module _ (session : Session) (request : SelectionRequest) (pages : List MenuPage) where
  -- What the local price may be, given the heads.
  pub data Outcome : PriceResult → Type 0 where
    absent :
        ((c : PriceCandidate) → ¬ Contends session request pages c)
        → Outcome (no_price LocalState.absent request.subject_id)
    unresolved :
        (c : PriceCandidate)
        → Contends session request pages c
        → ((d : PriceCandidate)
            → Contends session request pages d
            → is_resolvable session request d ≡ false)
        → Outcome (no_price LocalState.unresolved_base request.subject_id)
    won :
        (w : PriceCandidate)
        → Contends session request pages w
        → is_resolvable session request w ≡ true
        → ((d : PriceCandidate)
            → Contends session request pages d
            → is_resolvable session request d ≡ true
            → not_after cmp_rank (price_rank session) w d ≡ true)
        → Outcome (price_result session w.page w.price)

  resolvable_of : List PriceCandidate → List PriceCandidate
  resolvable_of cs = select (is_resolvable session request) cs

  ranked-Outcome :
      (cs : List PriceCandidate) (c : PriceCandidate) (ws : List PriceCandidate)
      → ((d : PriceCandidate) → In d cs → Contends session request pages d)
      → ((d : PriceCandidate) → Contends session request pages d → In d cs)
      → In c cs
      → sort_by cmp_rank (price_rank session) (resolvable_of cs) ≡ ws
      → Outcome (ranked_price session request ws)
  unfolding ranked_price resolvable_of
  ranked-Outcome cs c [] sound complete m e =
      unresolved c (sound c m)
        (λ d h. nothing d (complete d h) (Bool-cases (is_resolvable session request d)))
    where
      nothing :
          (d : PriceCandidate)
          → In d cs
          → (is_resolvable session request d ≡ true) ⊎ (is_resolvable session request d ≡ false)
          → is_resolvable session request d ≡ false
      nothing d i (inr f) = f
      nothing d i (inl t) = absurd (
          rw e at (
            sort_by-In cmp_rank (price_rank session) d (select (is_resolvable session request) cs)
              (select-In (is_resolvable session request) d cs i t)))
  ranked-Outcome cs c (w ∷ ws) sound complete m e = won w (sound w winner.0) winner.1 (λ d h r.
      sort_by-least cmp_rank (price_rank session) cmp_rank-IsOrder
        (select (is_resolvable session request) cs) e d
        (select-In (is_resolvable session request) d cs (complete d h) r))
    where
      winner : In w cs × (is_resolvable session request w ≡ true)
      winner = In-select (is_resolvable session request) w cs (
          In-sort_by cmp_rank (price_rank session) w (select (is_resolvable session request) cs)
            (rw e (inl refl)))

  local-Outcome :
      (cs : List PriceCandidate)
      → ((d : PriceCandidate) → In d cs → Contends session request pages d)
      → ((d : PriceCandidate) → Contends session request pages d → In d cs)
      → Outcome (local_price_of session request cs)
  unfolding local_price_of
  local-Outcome [] sound complete = absent (λ c h. complete c h)
  local-Outcome (c ∷ cs) sound complete =
      unfold resolvable_of in ranked-Outcome (c ∷ cs) c _ sound complete (inl refl) refl

-- The local price is that of a contender whose base, if it depends on one, is valid, and no other such contender ranks before it; it is `unresolved_base` if there are contenders and none has a valid base, and `absent` if there is no contender.
pub select_local_price-Outcome :
    (session : Session) (request : SelectionRequest) (heads : Heads)
    → Outcome session request (values heads) (select_local_price session request heads)
unfolding select_local_price
select_local_price-Outcome session request heads =
    local-Outcome session request (values heads) (price_contenders session request (values heads))
      (λ d. (price_contenders_iff session request (values heads) d).0)
      (λ d. (price_contenders_iff session request (values heads) d).1)

-- A candidate that may stand first has a better source kind than the other, or the same kind and a later observation, or the same of both and at least the other's price confidence.
pub price_rank-leading :
    (session : Session) (w d : PriceCandidate)
    → not_after cmp_rank (price_rank session) w d ≡ true
    → (kind_rank w.page.source_kind < kind_rank d.page.source_kind)
      ⊎ ((kind_rank w.page.source_kind ≡ kind_rank d.page.source_kind)
          × ((d.page.observed_at < w.page.observed_at)
              ⊎ ((w.page.observed_at ≡ d.page.observed_at)
                  × (d.price.confidence ≤ w.price.confidence))))
unfolding price_rank rank_key
price_rank-leading session w d h =
    leading _ _ _ _ _ _ (price_rank session w).1.1.1 (price_rank session d).1.1.1
      (λ e. ground arith)
