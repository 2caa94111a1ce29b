-- ===== src/Discovery/Examples.antt =====
-- Three releases and a venue that the last two miss.
use first_helios.Base.{◌<◌, ◌≡◌, ◌↔◌, true, false, none, some, List, [], ◌∷◌, refl, any, select, In}
use first_helios.Base.Order.{sort_by, insert_sorted}
use first_helios.Base.Text.{codes, text_eq, option_text_eq}
use first_helios.Discovery.Closure.{
  ReleaseCompletion, Establishment, Observation, completions, claims_at, repeats, collect, follows,
  chain_ok, check_window, window_of, closure_window, close_venue,
}
use first_helios.Discovery.Closure.Missing.{close_venue_iff}

program : Unit {0}
unfolding any select sort_by insert_sorted text_eq option_text_eq completions claims_at repeats
    collect follows chain_ok check_window window_of closure_window close_venue
program = tt

abbrev oldest : ReleaseCompletion
oldest = record {
  id = 1;
  release_endpoint = codes "r1";
  release_at = 100;
  coverage_key = codes "k";
  poi_count = 1000;
  predecessor = none;
}

abbrev middle : ReleaseCompletion
middle = record {
  id = 2;
  release_endpoint = codes "r2";
  release_at = 200;
  coverage_key = codes "k";
  poi_count = 950;
  predecessor = some (codes "r1");
}

abbrev newest : ReleaseCompletion
newest = record {
  id = 3;
  release_endpoint = codes "r3";
  release_at = 300;
  coverage_key = codes "k";
  poi_count = 855;
  predecessor = some (codes "r2");
}

abbrev rows : List ReleaseCompletion
rows = oldest ∷ newest ∷ middle ∷ []

abbrev venue : Establishment
venue = record {
  subject_id = 7;
  is_current = true;
  is_closed = false;
  valid_from = 50;
  valid_to = none;
}

abbrev sighting : Observation
sighting = record { observed_at = 100; canonical_uri = codes "r1" }

close_venue_iff_example : (close_venue middle oldest venue (sighting ∷ []) ≡ some 200) ↔ (
    (200 ≡ middle.release_at)
    × ((venue.is_current ≡ true)
        × (venue.is_closed ≡ false)
        × (venue.valid_to ≡ none)
        × (venue.valid_from < middle.release_at))
    × ((v : Observation) → In v (sighting ∷ []) → v.observed_at < middle.release_at)
    × ((v : Observation) × In v (sighting ∷ [])
        × (v.observed_at ≡ oldest.release_at)
        × (v.canonical_uri ≡ oldest.release_endpoint)))
close_venue_iff_example = close_venue_iff middle oldest venue (sighting ∷ []) 200

-- The venue closes at the first release that misses it.
close_venue_run : close_venue middle oldest venue (sighting ∷ []) ≡ some 200
unfolding program
close_venue_run = refl
