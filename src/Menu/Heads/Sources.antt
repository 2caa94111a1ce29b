-- ===== src/Menu/Heads/Sources.antt =====
-- The pages that the heads of `_stream_heads` come from.
use first_helios.Base.{
  ℕ, ◌<◌, true, false, Option, some, List, [], ◌∷◌, arith, ◌≡◌, select, In, In-select, inl, inr,
  ◌⊎◌,
}
use first_helios.Base.Order.{In-sort_by, cmp_ℕ, cmp_pair}
use first_helios.Base.Text.{Text}
use first_helios.Menu.Model.{MenuPage, SourceKind, Tables}
use first_helios.Menu.Heads.{
  Heads, put_head, keep_head, keep_heads, in_family, by_revision, stream_heads, values,
}

put_head-values :
    (q page : MenuPage) (kind : SourceKind) (heads : Heads)
    → In q (values (put_head kind page heads))
    → In q (page ∷ values heads)
unfolding put_head values
put_head-values q page kind [] m = m
put_head-values q page kind ((k, old) ∷ heads) m = ground (arith, put_head-values q page kind heads)

keep_head-values :
    (q page : MenuPage) (heads : Heads)
    → In q (values (keep_head heads page))
    → In q (page ∷ values heads)
unfolding keep_head
keep_head-values q page heads m = ground (arith, put_head-values q page page.source_kind heads)

keep_heads-values :
    (q : MenuPage) (heads : Heads) (pages : List MenuPage)
    → In q (values (keep_heads heads pages))
    → In q pages ⊎ In q (values heads)
unfolding keep_heads
keep_heads-values q heads [] m = inr m
keep_heads-values q heads (page ∷ pages) m =
    ground (arith, keep_heads-values q (keep_head heads page) pages, keep_head-values q page heads)

-- Every head is a page of the family that was accepted by the cutoff.
pub In-stream_heads :
    (tables : Tables) (record_id : ℕ) (root : Text) (cutoff : Option ℕ) (p : MenuPage)
    → In p (values (stream_heads tables record_id root cutoff))
    → In p tables.pages × (in_family record_id root cutoff p ≡ true)
unfolding stream_heads values
In-stream_heads tables record_id root cutoff p m =
    elim (keep_heads-values p []
      (by_revision (select (in_family record_id root cutoff) tables.pages)) m) [
        | inl i ↦ In-select (in_family record_id root cutoff) p tables.pages (
            In-sort_by (cmp_pair cmp_ℕ cmp_ℕ) (λ (q : MenuPage). (q.stream_revision, q.id)) p
              (select (in_family record_id root cutoff) tables.pages) i)
        | inr i ↦ absurd i
      ]

later_hidden :
    (record_id : ℕ) (root : Text) (cutoff : ℕ) (p : MenuPage)
    → cutoff < p.accepted_at
    → in_family record_id root (some cutoff) p ≡ false
unfolding in_family
later_hidden record_id root cutoff p h = ground arith

-- A page that is accepted after the knowledge cutoff changes no head of the history.
pub stream_heads-later :
    (tables : Tables) (record_id : ℕ) (root : Text) (cutoff : ℕ) (p : MenuPage)
    → cutoff < p.accepted_at
    → stream_heads (record tables { pages = p ∷ tables.pages }) record_id root (some cutoff)
      ≡ stream_heads tables record_id root (some cutoff)
unfolding stream_heads select
stream_heads-later tables record_id root cutoff p h = rw (later_hidden record_id root cutoff p h)
