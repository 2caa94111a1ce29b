-- ===== src/Menu/Heads.antt =====
-- The visible head page of each interpretation kind (`_stream_heads`, `_subject_heads`,
-- `_all_heads_withdrawn`). A Python dict from kinds is an association list in insertion order:
-- writing a key that stands there keeps its place.
pub mod Laws
pub mod Sources
use first_helios.Base.{
  ℕ, Bool, true, false, Option, none, some, List, [], ◌∷◌, ◌==◌, ◌&&◌, arith, ◌≡◌, leb, ltb,
  if◌then◌else◌, select, all, not,
}
use first_helios.Base.Order.{cmp_ℕ, cmp_pair, sort_by}
use first_helios.Base.Text.{Text, text_eq}
use first_helios.Menu.Model.{MenuPage, SourceKind, Tables, same_source_kind, is_withdrawal}

abbrev pub Heads : Type 0
Heads = List (SourceKind × MenuPage)

-- `heads.get(kind)`
unfoldable pub get_head : SourceKind → Heads → Option MenuPage
get_head kind [] = none
get_head kind ((k, page) ∷ heads) =
    if same_source_kind k kind then some page else get_head kind heads

-- `heads[kind] = page`
unfoldable pub put_head : SourceKind → MenuPage → Heads → Heads
put_head kind page [] = (kind, page) ∷ []
put_head kind page ((k, old) ∷ heads) =
    let rest = put_head kind page heads in
    if same_source_kind k kind then (k, page) ∷ heads else (k, old) ∷ rest

-- one round of the loop
unfoldable pub keep_head : Heads → MenuPage → Heads
keep_head heads page = elim (get_head page.source_kind heads) [
  | none ↦ put_head page.source_kind page heads
  | some current ↦
      if ltb current.stream_revision page.stream_revision
      then put_head page.source_kind page heads
      else heads
]

unfoldable pub keep_heads : Heads → List MenuPage → Heads
keep_heads heads [] = heads
keep_heads heads (page ∷ pages) = keep_heads (keep_head heads page) pages

-- `cutoff is None or value <= cutoff`
unfoldable pub by_cutoff : Option ℕ → ℕ → Bool
by_cutoff none value = true
by_cutoff (some cutoff) value = leb value cutoff

-- the `where` of the statement
unfoldable pub in_family : ℕ → Text → Option ℕ → MenuPage → Bool
unfolding by_cutoff
in_family source_record_id root_key cutoff page =
    page.source_record_id == source_record_id
    && text_eq page.root_key root_key
    && by_cutoff cutoff page.accepted_at

-- the order in which the rows are read
abbrev pub by_revision : List MenuPage → List MenuPage
by_revision = sort_by (cmp_pair cmp_ℕ cmp_ℕ) (λ page. (page.stream_revision, page.id))

unfoldable pub stream_heads : Tables → ℕ → Text → Option ℕ → Heads
unfolding keep_heads
stream_heads tables source_record_id root_key cutoff =
    keep_heads [] (by_revision (select (in_family source_record_id root_key cutoff) tables.pages))

-- `heads.values()`
unfoldable pub values : Heads → List MenuPage
values [] = []
values ((k, page) ∷ heads) = page ∷ values heads

unfoldable pub subject_heads : Heads → ℕ → Heads
subject_heads heads subject_id =
    select (λ (head : SourceKind × MenuPage). head.1.subject_id == subject_id) heads

unfoldable pub all_heads_withdrawn : Heads → Bool
unfolding values
all_heads_withdrawn [] = false
all_heads_withdrawn (head ∷ heads) =
    all (λ (page : MenuPage). is_withdrawal page.operation) (values (head ∷ heads))
