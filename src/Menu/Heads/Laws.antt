-- ===== src/Menu/Heads/Laws.antt =====
-- The heads of `_stream_heads` against the pages of the family.
use first_helios.Base.{
  ℕ, ◌≤◌, Bool, true, false, Option, none, some, List, [], ◌∷◌, arith, ◌≡◌, ◌≢◌, ◌↔◌, refl, ltb,
  if◌then◌else◌, select, In, In-select, select-In, inl, inr, ◌⊎◌, Option-cases, Bool-cases,
}
use first_helios.Base.Order.{In-sort_by, sort_by-In, cmp_ℕ, cmp_pair}
use first_helios.Base.Text.{Text}
use first_helios.Menu.Model.{MenuPage, SourceKind, Tables, same_source_kind, same_source_kind_iff}
use first_helios.Menu.Heads.{
  Heads, get_head, put_head, keep_head, keep_heads, in_family, by_revision, stream_heads,
}

get_head-put_head :
    (kind k : SourceKind) (page : MenuPage) (heads : Heads)
    → get_head k (put_head kind page heads)
      ≡ (if same_source_kind kind k then some page else get_head k heads)
unfolding get_head put_head
get_head-put_head kind k page [] = refl
get_head-put_head kind k page ((j, old) ∷ heads) = ground (
  arith,
  get_head-put_head kind k page heads,
  same_source_kind_iff j kind,
  same_source_kind_iff j k,
  same_source_kind_iff kind k,
)

-- the pages of the kind that have been read, and the one that is kept
IsHead : SourceKind → List MenuPage → Option MenuPage → Type 0
IsHead kind seen none = (q : MenuPage) → In q seen → q.source_kind ≢ kind
IsHead kind seen (some p) =
    In p seen
    × (p.source_kind ≡ kind)
    × ((q : MenuPage) → In q seen → q.source_kind ≡ kind → q.stream_revision ≤ p.stream_revision)

-- the pages read so far, the last first
read_onto : List MenuPage → List MenuPage → List MenuPage
read_onto [] seen = seen
read_onto (x ∷ xs) seen = read_onto xs (x ∷ seen)

newer : Option MenuPage → MenuPage → MenuPage
newer none page = page
newer (some current) page =
    if ltb current.stream_revision page.stream_revision then page else current

get_head-keep_head :
    (kind : SourceKind) (heads : Heads) (page : MenuPage)
    → get_head kind (keep_head heads page) ≡ (
        if same_source_kind page.source_kind kind
        then some (newer (get_head kind heads) page)
        else get_head kind heads)
unfolding keep_head newer
get_head-keep_head kind heads page = ground (
  arith,
  get_head-put_head page.source_kind kind page heads,
  same_source_kind_iff page.source_kind kind,
)

IsHead-skip :
    {kind : SourceKind} (o : Option MenuPage) (page : MenuPage) (seen : List MenuPage)
    → page.source_kind ≢ kind
    → IsHead kind seen o
    → IsHead kind (page ∷ seen) o
unfolding IsHead
IsHead-skip {kind} none page seen ne h = other
  where
    other : (q : MenuPage) → In q (page ∷ seen) → q.source_kind ≢ kind
    other q (inl p) e = ne (cc)
    other q (inr m) e = h q m e
IsHead-skip {kind} (some o) page seen ne (m, e, h) = (inr m, e, greatest)
  where
    greatest :
        (q : MenuPage)
        → In q (page ∷ seen)
        → q.source_kind ≡ kind
        → q.stream_revision ≤ o.stream_revision
    greatest q (inl p) k = absurd (ne (cc))
    greatest q (inr i) k = h q i k

IsHead-newer :
    {kind : SourceKind} (o : Option MenuPage) (page : MenuPage) (seen : List MenuPage)
    → page.source_kind ≡ kind
    → IsHead kind seen o
    → IsHead kind (page ∷ seen) (some (newer o page))
unfolding IsHead newer
IsHead-newer {kind} none page seen e h = (inl refl, e, greatest)
  where
    greatest :
        (q : MenuPage)
        → In q (page ∷ seen)
        → q.source_kind ≡ kind
        → q.stream_revision ≤ page.stream_revision
    greatest q (inl p) k = ground arith
    greatest q (inr i) k = absurd (h q i k)
IsHead-newer {kind} (some o) page seen e (m, oe, h) =
    pick (ltb o.stream_revision page.stream_revision) refl
  where
    pick :
        (b : Bool)
        → ltb o.stream_revision page.stream_revision ≡ b
        → IsHead kind (page ∷ seen) (some (if b then page else o))
    pick true b = (inl refl, e, above)
      where
        above :
            (q : MenuPage)
            → In q (page ∷ seen)
            → q.source_kind ≡ kind
            → q.stream_revision ≤ page.stream_revision
        above q (inl p) k = ground arith
        above q (inr i) k = ground (arith, h q i k)
    pick false b = (inr m, oe, below)
      where
        below :
            (q : MenuPage)
            → In q (page ∷ seen)
            → q.source_kind ≡ kind
            → q.stream_revision ≤ o.stream_revision
        below q (inl p) k = ground arith
        below q (inr i) k = h q i k

keep_head-IsHead :
    (kind : SourceKind) (heads : Heads) (page : MenuPage) (seen : List MenuPage)
    → IsHead kind seen (get_head kind heads)
    → IsHead kind (page ∷ seen) (get_head kind (keep_head heads page))
keep_head-IsHead kind heads page seen h =
    rw get_head-keep_head (elim (Bool-cases (same_source_kind page.source_kind kind)) [
      | inl e ↦ rw e (
          IsHead-newer (get_head kind heads) page seen
            ((same_source_kind_iff page.source_kind kind).0 e) h)
      | inr e ↦ rw e (
          IsHead-skip (get_head kind heads) page seen
            (λ p. ground (arith, same_source_kind_iff page.source_kind kind)) h)
    ])

keep_heads-IsHead :
    (kind : SourceKind) (heads : Heads) (pages seen : List MenuPage)
    → IsHead kind seen (get_head kind heads)
    → IsHead kind (read_onto pages seen) (get_head kind (keep_heads heads pages))
unfolding keep_heads read_onto
keep_heads-IsHead kind heads [] seen h = h
keep_heads-IsHead kind heads (x ∷ xs) seen h =
    keep_heads-IsHead kind (keep_head heads x) xs (x ∷ seen) (keep_head-IsHead kind heads x seen h)

In-read_onto :
    (q : MenuPage) (xs seen : List MenuPage) → In q (read_onto xs seen) → In q xs ⊎ In q seen
unfolding read_onto
In-read_onto q [] seen m = inr m
In-read_onto q (x ∷ xs) seen m = ground (arith, In-read_onto q xs (x ∷ seen) m)

read_onto-In :
    (q : MenuPage) (xs seen : List MenuPage) → In q xs ⊎ In q seen → In q (read_onto xs seen)
unfolding read_onto
read_onto-In q [] seen m = ground arith
read_onto-In q (x ∷ xs) seen m = ground (arith, read_onto-In q xs (x ∷ seen))

module _ (tables : Tables) (record_id : ℕ) (root : Text) (cutoff : Option ℕ) where
  abbrev visible : MenuPage → Bool
  visible = in_family record_id root cutoff

  In-read :
      (q : MenuPage)
      → In q (read_onto (by_revision (select visible tables.pages)) [])
      → In q tables.pages × (visible q ≡ true)
  In-read q m = elim (In-read_onto q (by_revision (select visible tables.pages)) [] m) [
    | inl i ↦ In-select visible q tables.pages (
        In-sort_by (cmp_pair cmp_ℕ cmp_ℕ) (λ (p : MenuPage). (p.stream_revision, p.id)) q
          (select visible tables.pages) i)
    | inr i ↦ absurd i
  ]

  read-In :
      (q : MenuPage)
      → In q tables.pages
      → visible q ≡ true
      → In q (read_onto (by_revision (select visible tables.pages)) [])
  read-In q m v = read_onto-In q (by_revision (select visible tables.pages)) [] (
      inl (
        sort_by-In (cmp_pair cmp_ℕ cmp_ℕ) (λ (p : MenuPage). (p.stream_revision, p.id)) q
          (select visible tables.pages) (select-In visible q tables.pages m v)))

  heads_lem :
      (kind : SourceKind)
      → IsHead kind
          (read_onto (by_revision (select visible tables.pages)) [])
          (get_head kind (stream_heads tables record_id root cutoff))
  unfolding stream_heads IsHead get_head
  heads_lem kind =
      keep_heads-IsHead kind [] (by_revision (select visible tables.pages)) [] (λ q m. absurd m)

  -- The head of a kind is a committed page of the family, of that kind and accepted by the cutoff, and no other such page has a greater stream revision.
  pub stream_heads-greatest :
      (kind : SourceKind) (p : MenuPage)
      → get_head kind (stream_heads tables record_id root cutoff) ≡ some p
      → In p tables.pages
        × (visible p ≡ true)
        × (p.source_kind ≡ kind)
        × ((q : MenuPage)
            → In q tables.pages
            → visible q ≡ true
            → q.source_kind ≡ kind
            → q.stream_revision ≤ p.stream_revision)
  unfolding IsHead
  stream_heads-greatest kind p e =
      let (m, k, h) = rw e at (heads_lem kind) in
      ((In-read p m).0, (In-read p m).1, k, λ q i v. h q (read-In q i v))

  -- A kind has no head exactly when the family has no page of that kind accepted by the cutoff.
  pub stream_heads-none_iff :
      (kind : SourceKind)
      → (get_head kind (stream_heads tables record_id root cutoff) ≡ none)
        ↔ ((q : MenuPage) → In q tables.pages → visible q ≡ true → q.source_kind ≢ kind)
  unfolding IsHead
  stream_heads-none_iff kind = (forth, back)
    where
      forth :
          get_head kind (stream_heads tables record_id root cutoff) ≡ none
          → (q : MenuPage) → In q tables.pages
          → visible q ≡ true
          → q.source_kind ≢ kind
      forth e q i v = (rw e at (heads_lem kind)) q (read-In q i v)

      back :
          ((q : MenuPage) → In q tables.pages → visible q ≡ true → q.source_kind ≢ kind)
          → get_head kind (stream_heads tables record_id root cutoff) ≡ none
      back h = elim (Option-cases (get_head kind (stream_heads tables record_id root cutoff))) [
        | inl e ↦ e
        | inr (p, e) ↦ let (m, v, k, g) = stream_heads-greatest kind p e in absurd (h p m v k)
      ]
