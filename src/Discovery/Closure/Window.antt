-- ===== src/Discovery/Closure/Window.antt =====
-- The window of `_closure_window` against its contract.
use first_helios.Base.Text.{Text, text_eq}
use first_helios.Base.{◌⊎◌, ◌<◌, ◌≤◌, ◌*◌, true, false, some, List, [], ◌∷◌, ◌==◌, ◌≡◌, In}
use first_helios.Discovery.Closure.{ReleaseCompletion, claims_at, follows}

-- Three releases, the newest first, each the predecessor of the one before it.
pub record IsWindow (endpoint : Text) (seen : List ReleaseCompletion) (a b c : ReleaseCompletion)
    : Type 0 where
  pub current_release : a.release_endpoint ≡ endpoint
  pub newest_follows : a.predecessor ≡ some b.release_endpoint
  pub middle_follows : b.predecessor ≡ some c.release_endpoint
  pub newest_count : b.poi_count * 9 ≤ a.poi_count * 10
  pub middle_count : c.poi_count * 9 ≤ b.poi_count * 10
  pub newest_later : b.release_at < a.release_at
  pub middle_later : c.release_at < b.release_at
  pub others_older :
      (r : ReleaseCompletion)
      → In r seen
      → (r ≡ a) ⊎ ((r ≡ b) ⊎ ((r ≡ c) ⊎ (r.release_at < c.release_at)))

record Taken (endpoint : Text) (a b c : ReleaseCompletion) (rest : List ReleaseCompletion)
    (w : List ReleaseCompletion) : Type 0 where
  window : w ≡ a ∷ b ∷ c ∷ []
  first : text_eq a.release_endpoint endpoint ≡ true
  apart_ab : (b.release_at == a.release_at) ≡ false
  apart_bc : (c.release_at == b.release_at) ≡ false
  single : claims_at c.release_at (a ∷ b ∷ c ∷ rest) ≡ 1
  chain_ab : follows a b ≡ true
  chain_bc : follows b c ≡ true
