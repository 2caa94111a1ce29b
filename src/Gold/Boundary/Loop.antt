-- ===== src/Gold/Boundary/Loop.antt =====
-- The corners of an area as a loop (`Boundary.contains`).
use first_helios.Base.{
  Bool, true, false, List, [], ◌∷◌, ◌++◌, arith, ◌≡◌, refl, not, if◌then◌else◌, ◌∙◌, sym,
}
use first_helios.Base.Int.{ℤ}
use first_helios.Gold.Boundary.{Corner, differ, toggles, scan, last, contains}

module _ (y x : ℤ) where
  -- the edges of a path, counted modulo two
  crossings : Corner → List Corner → Bool
  crossings c [] = false
  crossings c (d ∷ ds) = differ (toggles y x d c) (crossings d ds)

  scan-crossings :
      (b : Bool) (c : Corner) (cs : List Corner) → scan y x b c cs ≡ differ b (crossings c cs)
  unfolding scan crossings
  scan-crossings b c [] = ground arith
  scan-crossings b c (d ∷ ds) =
      scan-crossings (if toggles y x d c then not b else b) d ds ∙ (ground arith)

  crossings-append :
      (c : Corner) (cs : List Corner) (d : Corner)
      → crossings c (cs ++ d ∷ []) ≡ differ (crossings c cs) (toggles y x d (last c cs))
  unfolding crossings last
  crossings-append c [] d = ground arith
  crossings-append c (a ∷ cs) d = ground (arith, crossings-append a cs d)

  last-append : (c : Corner) (cs : List Corner) (d : Corner) → last c (cs ++ d ∷ []) ≡ d
  unfolding last
  last-append c [] d = refl
  last-append c (a ∷ cs) d = last-append a cs d

  no_edge : (c : Corner) → toggles y x c c ≡ false
  unfolding toggles
  no_edge c = ground arith

  contains-crossings :
      (c : Corner) (cs : List Corner)
      → contains (c ∷ cs) y x ≡ differ (toggles y x c (last c cs)) (crossings c cs)
  unfolding contains scan
  contains-crossings c cs =
      scan-crossings (if toggles y x c (last c cs) then true else false) c cs ∙ (ground arith)

  -- The loop may start at its second corner.
  pub contains-rotated :
      (c d : Corner) (cs : List Corner)
      → contains (c ∷ d ∷ cs) y x ≡ contains (d ∷ cs ++ c ∷ []) y x
  unfolding crossings last
  contains-rotated c d cs =
      contains-crossings c (d ∷ cs) ∙ middle ∙ sym (contains-crossings d (cs ++ c ∷ []))
    where
      middle :
          differ (toggles y x c (last c (d ∷ cs))) (crossings c (d ∷ cs))
          ≡ differ (toggles y x d (last d (cs ++ c ∷ []))) (crossings d (cs ++ c ∷ []))
      middle = rw (last-append d cs c, crossings-append d cs c) (ground arith)

  -- A final corner equal to the first changes nothing, so dropping it keeps the area.
  pub contains-closed :
      (c : Corner) (cs : List Corner) → contains (c ∷ cs ++ c ∷ []) y x ≡ contains (c ∷ cs) y x
  contains-closed c cs =
      contains-crossings c (cs ++ c ∷ [])
      ∙ (rw (last-append c cs c, crossings-append c cs c, no_edge c)
          (ground (arith, contains-crossings c cs)))
