-- ===== src/Api/Cursor/Values.antt =====
-- The checks of apps/api/pagination.py on a payload, against the keys that can be stored.
use first_helios.Base.{ℕ, ◌≡◌, refl, ap, subst, false, ◌||◌, Option, none, some, arith}
use first_helios.Base.Int.{ℤ, pos}
use first_helios.Base.Text.{Text}
use first_helios.Base.Results.{ok, >>=-ok, ok->>=, guarded-ok, refused-ok, ok-injective}
use first_helios.Api.Json.{
  Json, null, str, int, array, nil, cons, invalid_cursor, in_range, has_nul, InBigint,
  in_range-InBigint, InBigint-in_range,
}
use first_helios.Api.Cursor.{
  over_limit, cursor_text, nullable_text, cursor_int, CellKey, cell_payload, cell_value, Clock,
  aware, AreaItemKey, text_or_null, area_item_array, written, wire_time, area_item_payload,
  with_offset, cursor_time, area_item_value, Fits, NullableFits, IsCellKey, IsAreaItemKey,
  bigint_min,
}

Fits_lem : (limit : Option ℕ) (t : Text) → (has_nul t || over_limit limit t) ≡ false → Fits limit t
Fits_lem limit t h = record { no_nul = ground arith; short = ground arith }

cursor_text-Fits :
    (limit : Option ℕ) (j : Json) (t : Text) → cursor_text limit j ≡ ok t → Fits limit t
unfolding cursor_text
cursor_text-Fits limit (str s) t h =
    let (fits, same) = refused-ok invalid_cursor (has_nul s || over_limit limit s) s t h in
    subst (Fits limit) same (Fits_lem limit s fits)
cursor_text-Fits limit j t h = cc

Fits-cursor_text : (limit : Option ℕ) (t : Text) → Fits limit t → cursor_text limit (str t) ≡ ok t
unfolding cursor_text
Fits-cursor_text limit t h = ground (arith, h.no_nul, h.short)

nullable_text-Fits :
    (limit : Option ℕ) (j : Json) (o : Option Text)
    → nullable_text limit j ≡ ok o
    → NullableFits limit o
unfolding nullable_text
nullable_text-Fits limit null o h = subst (NullableFits limit) (ok-injective none o h) tt
nullable_text-Fits limit j o h =
    let (t, ht, h') = >>=-ok (cursor_text limit j) (λ value. ok (some value)) h in
    subst (NullableFits limit) (ok-injective (some t) o h') (cursor_text-Fits limit j t ht)

Fits-nullable_text :
    (limit : Option ℕ) (o : Option Text)
    → NullableFits limit o
    → nullable_text limit (text_or_null o) ≡ ok o
unfolding nullable_text text_or_null
Fits-nullable_text limit none h = refl
Fits-nullable_text limit (some t) h = ok->>= _ (Fits-cursor_text limit t h) refl

cursor_int-InBigint : (low : ℤ) (j : Json) (n : ℤ) → cursor_int low j ≡ ok n → InBigint low n
unfolding cursor_int
cursor_int-InBigint low (int m) n h =
    let (t, same) = guarded-ok invalid_cursor (in_range low m) m n h in
    subst (InBigint low) same (in_range-InBigint low m t)
cursor_int-InBigint low j n h = cc

InBigint-cursor_int : (low n : ℤ) → InBigint low n → cursor_int low (int n) ≡ ok n
unfolding cursor_int
InBigint-cursor_int low n h = ground (arith, InBigint-in_range low n h)

pub cell_value-ok : (j : Json) (key : CellKey) → cell_value j ≡ ok key → IsCellKey key
unfolding cell_value
cell_value-ok (array (cons area (cons kind (cons category (cons currency nil))))) key h =
    let (a, ha, h1) = >>=-ok (cursor_text (some 64) area) _ h in
    let (k, hk, h2) = >>=-ok (cursor_text (some 32) kind) _ h1 in
    let (y, hy, h3) = >>=-ok (cursor_text (some 128) category) _ h2 in
    let (u, hu, h4) = >>=-ok (cursor_text (some 3) currency) _ h3 in
    subst IsCellKey (ok-injective _ key h4) record {
      area = cursor_text-Fits (some 64) area a ha;
      kind = cursor_text-Fits (some 32) kind k hk;
      category = cursor_text-Fits (some 128) category y hy;
      currency = cursor_text-Fits (some 3) currency u hu;
    }
cell_value-ok j key h = cc

pub cell_value_own : (key : CellKey) → IsCellKey key → cell_value (cell_payload key) ≡ ok key
unfolding cell_value cell_payload
cell_value_own key h = ok->>= _ (Fits-cursor_text (some 64) key.area_key h.area) (
    ok->>= _ (Fits-cursor_text (some 32) key.category_kind h.kind) (
      ok->>= _ (Fits-cursor_text (some 128) key.category_key h.category)
        (ok->>= _ (Fits-cursor_text (some 3) key.currency_code h.currency) refl)))

-- What is written for this value in UTC is read back as it: it is a datetime in UTC.
abbrev pub ReadsBack : {Time : Type 0} → Clock Time → Option Time → Type 0
ReadsBack clock none = Unit
ReadsBack clock (some v) = (t : Text) → clock.wire v ≡ some t → clock.fromisoformat t ≡ aware v

module _ {Time : Type 0} (clock : Clock Time) where
  pub area_item_value-ok :
      (j : Json) (key : AreaItemKey Time) → area_item_value clock j ≡ ok key → IsAreaItemKey key
  unfolding area_item_value
  area_item_value-ok
        (array (
          cons j0 (
            cons j1 (
              cons j2 (
                cons j3
                  (cons j4 (cons j5 (cons j6 (cons j7 (cons j8 (cons j9 (cons j10 nil))))))))))))
        key h =
      let (a, h0, h) = >>=-ok (cursor_int bigint_min j0) _ h in
      let (s, h1, h) = >>=-ok (cursor_int (pos 0) j1) _ h in
      let (k, h2, h) = >>=-ok (cursor_text (some 32) j2) _ h in
      let (r, h3, h) = >>=-ok (cursor_int (pos 0) j3) _ h in
      let (o, h4, h) = >>=-ok (cursor_text (some 512) j4) _ h in
      let (p, h5, h) = >>=-ok (cursor_text none j5) _ h in
      let (c, h6, h) = >>=-ok (cursor_text (some 16) j6) _ h in
      let (d, h7, h) = >>=-ok (nullable_text (some 128) j7) _ h in
      let (f, h8, h) = >>=-ok (cursor_time clock j8) _ h in
      let (t, h9, h) = >>=-ok (cursor_time clock j9) _ h in
      let (u, h10, h) = >>=-ok (cursor_text (some 3) j10) _ h in
      subst IsAreaItemKey (ok-injective _ key h) record {
        amount = cursor_int-InBigint bigint_min j0 a h0;
        subject = cursor_int-InBigint (pos 0) j1 s h1;
        kind = cursor_text-Fits (some 32) j2 k h2;
        source_record = cursor_int-InBigint (pos 0) j3 r h3;
        root = cursor_text-Fits (some 512) j4 o h4;
        path = cursor_text-Fits none j5 p h5;
        channel = cursor_text-Fits (some 16) j6 c h6;
        period = nullable_text-Fits (some 128) j7 d h7;
        currency = cursor_text-Fits (some 3) j10 u h10;
      }
  area_item_value-ok j key h = cc

  written-ok :
      (o : Option Text) (j : Json)
      → written clock o ≡ ok j
      → (t : Text) × (o ≡ some t) × (str t ≡ j)
  unfolding written
  written-ok none j h = cc
  written-ok (some t) j h = (t, refl, ok-injective (str t) j h)

  wire_time_back :
      (o : Option Time) (j : Json)
      → ReadsBack clock o
      → wire_time clock o ≡ ok j
      → cursor_time clock j ≡ ok o
  unfolding wire_time cursor_time with_offset
  wire_time_back none j back h =
      subst (λ x. cursor_time clock x ≡ ok none) (ok-injective null j h) refl
  wire_time_back (some v) j back h =
      let (t, wired, same) = written-ok (clock.wire v) j h in
      subst (λ x. cursor_time clock x ≡ ok (some v)) same (ap (with_offset clock) (back t wired))

  array_own :
      (key : AreaItemKey Time) (f t : Json)
      → IsAreaItemKey key
      → cursor_time clock f ≡ ok key.valid_from
      → cursor_time clock t ≡ ok key.valid_to
      → area_item_value clock (area_item_array key f t) ≡ ok key
  unfolding area_item_value area_item_array
  array_own key f t valid hf ht =
      ok->>= _ (InBigint-cursor_int bigint_min key.amount_minor valid.amount) (
        ok->>= _ (InBigint-cursor_int (pos 0) key.subject_id valid.subject) (
          ok->>= _ (Fits-cursor_text (some 32) key.subject_kind valid.kind) (
            ok->>= _ (InBigint-cursor_int (pos 0) key.source_record_id valid.source_record) (
              ok->>= _ (Fits-cursor_text (some 512) key.root_key valid.root) (
                ok->>= _ (Fits-cursor_text none key.target_path valid.path) (
                  ok->>= _ (Fits-cursor_text (some 16) key.channel valid.channel) (
                    ok->>= _ (Fits-nullable_text (some 128) key.service_period valid.period) (
                      ok->>= _ hf (
                        ok->>= _ ht (
                          ok->>= _ (Fits-cursor_text (some 3) key.currency_code valid.currency)
                            refl))))))))))

  pub area_item_value_own :
      (key : AreaItemKey Time) (j : Json)
      → IsAreaItemKey key
      → ReadsBack clock key.valid_from
      → ReadsBack clock key.valid_to
      → area_item_payload clock key ≡ ok j
      → area_item_value clock j ≡ ok key
  unfolding area_item_payload
  area_item_value_own key j valid from_back to_back h =
      let (f, hf, h') = >>=-ok (wire_time clock key.valid_from) _ h in
      let (t, ht, h'') = >>=-ok (wire_time clock key.valid_to) _ h' in
      subst (λ x. area_item_value clock x ≡ ok key) (ok-injective (area_item_array key f t) j h'')
        (array_own key f t valid (wire_time_back key.valid_from f from_back hf)
          (wire_time_back key.valid_to t to_back ht))
