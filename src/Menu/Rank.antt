-- ===== src/Menu/Rank.antt =====
-- Ranking: interpretation kind, then later observation, then higher confidence, then the canonical
-- business key (`_orderable`, `_business_key`, `_rank_key`).
pub mod KeyOrder
use Prim.Native.Nat.{Ordering}
use first_helios.Base.{◌≢◌, ◌⊎◌, ◌<◌, ◌≤◌, ℕ, List, [], ◌∷◌, arith, ◌≡◌}
use first_helios.Base.Order.{
  IsOrder, cmp_ℕ, cmp_ℕ-IsOrder, desc, desc-IsOrder, cmp_pair, cmp_pair-IsOrder, sort_by,
}
use first_helios.Base.Text.{Text, cmp_text, cmp_text-IsOrder}
use first_helios.Menu.Model.{SourceKind, MenuPage, kind_rank}
use KeyOrder.{KeyParts, cmp_parts, cmp_parts-IsOrder}

-- `(kind, key)` of the claim: a node's kind, or "price", and its key.
abbrev pub ClaimLocator : Type 0
ClaimLocator = Text × Text

abbrev pub BusinessKey : Type 0
BusinessKey = KeyParts × ClaimLocator

abbrev pub RankKey : Type 0
RankKey = ℕ × (ℕ × (ℕ × BusinessKey))

-- The order of the rank keys: the source negates the second and the third part.
abbrev pub cmp_rank : RankKey → RankKey → Ordering
cmp_rank = cmp_pair cmp_ℕ (
    cmp_pair (desc cmp_ℕ) (cmp_pair (desc cmp_ℕ) (cmp_pair cmp_parts (cmp_pair cmp_text cmp_text))))

pub cmp_rank-IsOrder : IsOrder cmp_rank
cmp_rank-IsOrder = cmp_pair-IsOrder cmp_ℕ-IsOrder (
    cmp_pair-IsOrder (desc-IsOrder cmp_ℕ-IsOrder) (
      cmp_pair-IsOrder (desc-IsOrder cmp_ℕ-IsOrder)
        (cmp_pair-IsOrder cmp_parts-IsOrder (cmp_pair-IsOrder cmp_text-IsOrder cmp_text-IsOrder))))

-- The version's key is Provenance's, `canonical_key` of `get_record_version`.
unfoldable pub business_key : (ℕ → KeyParts) → MenuPage → ClaimLocator → BusinessKey
business_key canonical_key page locator = (canonical_key page.source_record_version_id, locator)

unfoldable pub rank_key : (ℕ → KeyParts) → MenuPage → ℕ → ℕ → ClaimLocator → RankKey
unfolding business_key
rank_key canonical_key page observed_at confidence locator = (
  kind_rank page.source_kind,
  (observed_at, (confidence, business_key canonical_key page locator)),
)

-- Which of the first three parts decide.
pub leading :
    (k o c k' o' c' : ℕ) (b b' : BusinessKey)
    → cmp_rank (k, (o, (c, b))) (k', (o', (c', b'))) ≢ Ordering.gt
    → (k < k') ⊎ ((k ≡ k') × ((o' < o) ⊎ ((o ≡ o') × (c' ≤ c))))
leading k o c k' o' c' b b' h = ground arith
