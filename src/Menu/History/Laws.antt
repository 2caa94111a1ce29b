-- ===== src/Menu/History/Laws.antt =====
-- Each trail of a price history is the history of the scope's own answers
-- (packages/helios_core/domains/menu/history.py).
use first_helios.Menu.History.{PriceTrail}
use first_helios.Base.Text.{Text}
use first_helios.Base.{
  select, map, ℕ, true, none, some, List, [], ◌∷◌, ◌==◌, ◌≡◌, refl, ap, sym, subst, In, inl, inr,
}
use first_helios.Menu.Model.{MenuPage}
use first_helios.Menu.Session.{Session}
use first_helios.Menu.History.{
  HistoryPoint, Claim, Family, claimed_contexts, family_pages, instants_of,
}
use first_helios.Menu.History.Trail.{
  point_of, answer_at, counts, trail_points, price_trail, trails_of, price_history,
}
use first_helios.Menu.History.Instants.{Ascending, instants_of-Ascending}
use first_helios.Menu.History.Points.{
  shown, shown_key, value_at, points, answer, IsAnswer, points_lem, In-points,
}

-- A trail is the history of the scope's own answers: each point records one, at an instant of
-- acceptance, and at every instant with one the last point known by then shows its state and amount.
pub record IsHistory (session : Session) (family : Family) (claim : Claim) (instants : List ℕ)
    (points : List HistoryPoint) : Type 0 where
  pub genuine :
      (p : HistoryPoint)
      → In p points
      → In p.known_from instants
        × (counts session family claim p.known_from ≡ true)
        × (p ≡ point_of p.known_from (answer_at session family claim p.known_from))
  pub complete :
      (k : ℕ)
      → In k instants
      → counts session family claim k ≡ true
      → value_at none points k ≡ some (shown (answer_at session family claim k))

trail_IsHistory :
    (session : Session) (family : Family) (claim : Claim) (instants : List ℕ)
    → Ascending instants
    → IsHistory session family claim instants (trail_points session family claim instants none)
unfolding points IsAnswer shown_key answer
trail_IsHistory session family claim instants a = record {
  genuine = λ p m. In-points session family claim instants none p m;
  complete = λ k m own. points_lem session family claim instants none k a m own;
}

In-map_lem :
    (f : Claim → PriceTrail) (claims : List Claim) (trail : PriceTrail)
    → In trail (map f claims)
    → (claim : Claim) × In claim claims × (trail ≡ f claim)
In-map_lem f [] trail m = elim m [ ]
In-map_lem f (c ∷ cs) trail (inl e) = (c, inl refl, e)
In-map_lem f (c ∷ cs) trail (inr m) = let (d, i, e) = In-map_lem f cs trail m in (d, inr i, e)

trails_of-map :
    (session : Session) (family : Family) (instants : List ℕ) (claims : List Claim)
    (trails : List PriceTrail)
    → trails_of session family instants claims ≡ some trails
    → map (λ c. price_trail session family c instants) claims ≡ trails
unfolding trails_of
trails_of-map session family instants [] trails h = cc
trails_of-map session family instants (c ∷ cs) trails h = cc

trails_of-IsHistory :
    (session : Session) (family : Family) (instants : List ℕ) (claims : List Claim)
    (trails : List PriceTrail) (trail : PriceTrail)
    → Ascending instants
    → trails_of session family instants claims ≡ some trails
    → In trail trails
    → (claim : Claim) × In claim claims
      × (trail.context ≡ claim.context)
      × (trail.currency_code ≡ claim.currency_code)
      × IsHistory session family claim instants trail.points
unfolding price_trail
trails_of-IsHistory session family instants claims trails trail a h m =
    let (claim, i, same) =
      In-map_lem (λ c. price_trail session family c instants) claims trail
        (subst (In trail) (sym (trails_of-map session family instants claims trails h)) m) in
    (
      claim,
      i,
      ap (λ (t : PriceTrail). t.context) same,
      ap (λ (t : PriceTrail). t.currency_code) same,
      subst (λ (t : PriceTrail). IsHistory session family claim instants t.points) (sym same)
          (trail_IsHistory session family claim instants a),
    )

-- Where the scope has trails for a target, each of them is of a context and currency that the scope's own pages
-- claim, and is the history of the scope's own answers from the first claim on: every point is the
-- own answer that the selector gives at an instant of acceptance, read and known at it, and at every
-- such instant with an own answer the last point known by then has its state and amount.
pub price_history-IsHistory :
    (iso : ℕ → Text) (session : Session) (family : Family) (trails : List PriceTrail)
    (trail : PriceTrail)
    → price_history iso session family ≡ some trails
    → In trail trails
    → (claim : Claim) × In claim (
        claimed_contexts iso session
          (select
            (λ (p : MenuPage). p.subject_id == family.subject_id)
            (family_pages session family))
          family.target)
      × (trail.context ≡ claim.context)
      × (trail.currency_code ≡ claim.currency_code)
      × IsHistory session family claim (instants_of (family_pages session family)) trail.points
unfolding price_history
price_history-IsHistory iso session family trails trail h m =
    trails_of-IsHistory session family (instants_of (family_pages session family)) _ trails trail
      (instants_of-Ascending (family_pages session family)) h m
