-- ===== src/Discovery/Closure/Missing.antt =====
-- The conditions of `_close_missing` on one venue.
use first_helios.Base.{
  ◌↔◌, ℕ, ◌<◌, true, false, none, some, List, arith, ◌≡◌, In, any, any-In, any-false-In,
  any-true-In, any_none, leb, ◌==◌, ◌&&◌, Bool,
}
use first_helios.Base.Text.{text_eq, text_eq_iff}
use first_helios.Discovery.Closure.{ReleaseCompletion, Establishment, Observation, close_venue}

since : ReleaseCompletion → Observation → Bool
since first_missing v = leb first_missing.release_at v.observed_at

seen_at : ReleaseCompletion → Observation → Bool
seen_at baseline v =
    v.observed_at == baseline.release_at && text_eq v.canonical_uri baseline.release_endpoint

-- the tests of the loop body, all passed
Tests : ReleaseCompletion → ReleaseCompletion → Establishment → List Observation → ℕ → Type 0
Tests first_missing baseline est versions t =
    (t ≡ first_missing.release_at)
    × ((est.is_current ≡ true)
        × (est.is_closed ≡ false)
        × (est.valid_to ≡ none)
        × (est.valid_from < first_missing.release_at))
    × (any (since first_missing) versions ≡ false)
    × (any (seen_at baseline) versions ≡ true)

close_venue-Tests :
    (first_missing baseline : ReleaseCompletion) (est : Establishment) (versions : List Observation)
    (t : ℕ)
    → (close_venue first_missing baseline est versions ≡ some t)
      ↔ Tests first_missing baseline est versions t
unfolding close_venue Tests since seen_at
close_venue-Tests first_missing baseline est versions t = (λ h. ground arith, λ h. ground arith)

-- A venue is closed exactly if it is current and open, was valid before the first release that misses it, was observed at the baseline release and never since; it then closes at the first release that misses it.
pub close_venue_iff :
    (first_missing baseline : ReleaseCompletion) (est : Establishment) (versions : List Observation)
    (t : ℕ)
    → (close_venue first_missing baseline est versions ≡ some t) ↔ (
        (t ≡ first_missing.release_at)
        × ((est.is_current ≡ true)
            × (est.is_closed ≡ false)
            × (est.valid_to ≡ none)
            × (est.valid_from < first_missing.release_at))
        × ((v : Observation) → In v versions → v.observed_at < first_missing.release_at)
        × ((v : Observation) × In v versions
            × (v.observed_at ≡ baseline.release_at)
            × (v.canonical_uri ≡ baseline.release_endpoint)))
unfolding Tests since seen_at
close_venue_iff first_missing baseline est versions t =
    let both = close_venue-Tests first_missing baseline est versions t in
    (
      λ h.
          let (e, g, n, s) = both.0 h in
          let (v, m, k) = any-true-In (seen_at baseline) versions s in
          (
            e,
            g,
            λ x i. ground (arith, any-false-In (since first_missing) x versions n i),
            (
              v,
              m,
              ground arith,
              ground (arith, text_eq_iff v.canonical_uri baseline.release_endpoint),
            ),
          ),
      λ h.
          let (e, g, n, (v, m, a, b)) = h in
          both.1 (
            e,
            g,
            any_none (since first_missing) versions (λ x i. ground (arith, n x i)),
            any-In (seen_at baseline) v versions m
                (ground (arith, text_eq_iff v.canonical_uri baseline.release_endpoint)),
          ),
    )
