-- ===== src/Api/Cursor/RoundTrip.antt =====
-- Encoding and decoding of the cursors (apps/api/pagination.py) are inverse, and what a refusal is.
use first_helios.Base.{subst}
use first_helios.Base.{◌≡◌, ◌↔◌, ap, none, some, arith, Option}
use first_helios.Base.Int.{ℤ, pos}
use first_helios.Base.Text.{Text}
use first_helios.Base.Results.{ok, raise, >>=-ok, guarded-ok}
use first_helios.Api.Json.{
  Json, invalid_cursor, overflow_error, in_range, InBigint, in_range-InBigint, InBigint-in_range,
}
use first_helios.Api.Codec.{Codec, Inverts, token_of, canonical_result}
use first_helios.Api.Codec.Laws.{decode_canonical-ok, decode_canonical_own, decode_canonical-raise}
use first_helios.Api.Cursor.{
  Digits, encode_cursor, decode_cursor, cursor_range, unpacked, CellKey, IsCellKey, cell_payload,
  cell_value, encode_cell_cursor, decode_cell_cursor, Clock, AreaItemKey, IsAreaItemKey,
  area_item_payload, area_item_value, wire_time, written, encode_area_item_cursor,
  decode_area_item_cursor,
}
use first_helios.Api.Cursor.Values.{
  cell_value-ok, cell_value_own, ReadsBack, area_item_value-ok, area_item_value_own,
}

module _ {Bytes : Type 0} (digits : Digits Bytes) where
  -- The subject cursor of an id is read back as it.
  decode_cursor-encode_cursor :
      (n : ℤ) (raw : Bytes)
      → InBigint (pos 0) n
      → digits.unpack (digits.write n) ≡ some raw
      → digits.read raw ≡ some n
      → decode_cursor digits (encode_cursor digits n) ≡ ok n
  unfolding decode_cursor encode_cursor unpacked cursor_range
  decode_cursor-encode_cursor n raw valid h k = ground (arith, InBigint-in_range (pos 0) n valid)

  cursor_range-InBigint : (o : Option ℤ) (n : ℤ) → cursor_range o ≡ ok n → InBigint (pos 0) n
  unfolding cursor_range
  cursor_range-InBigint none n h = cc
  cursor_range-InBigint (some m) n h =
      let (t, same) = guarded-ok invalid_cursor (in_range (pos 0) m) m n h in
      subst (InBigint (pos 0)) same (in_range-InBigint (pos 0) m t)

  unpacked-InBigint : (o : Option Bytes) (n : ℤ) → unpacked digits o ≡ ok n → InBigint (pos 0) n
  unfolding unpacked
  unpacked-InBigint none n h = cc
  unpacked-InBigint (some raw) n h = cursor_range-InBigint (digits.read raw) n h

  -- Whatever a forged subject cursor says, a key that is read fits a BIGINT.
  decode_cursor-InBigint :
      (cursor : Text) (n : ℤ) → decode_cursor digits cursor ≡ ok n → InBigint (pos 0) n
  unfolding decode_cursor
  decode_cursor-InBigint cursor n h = unpacked-InBigint (digits.unpack cursor) n h

module _ {Bytes : Type 0} (c : Codec Bytes) where
  -- The same of the cell cursor, whose texts fit their columns and hold no NUL.
  decode_cell_cursor_iff :
      (cursor : Text) (key : CellKey)
      → Inverts c (cell_payload key)
      → (decode_cell_cursor c cursor ≡ ok key)
        ↔ (IsCellKey key × (encode_cell_cursor c key ≡ ok cursor))
  unfolding decode_cell_cursor encode_cell_cursor
  decode_cell_cursor_iff cursor key i = (
    (λ h.
        let (j, read, canonical) =
          decode_canonical-ok c invalid_cursor (encode_cell_cursor c) cell_value cursor key h in
        (cell_value-ok j key read, canonical)),
    λ (valid, canonical).
        decode_canonical_own c invalid_cursor (encode_cell_cursor c) cell_value cursor key
          (cell_payload key) (cell_value_own key valid) i canonical canonical,
  )

  module _ {Time : Type 0} (clock : Clock Time) where
    -- Where JSON, UTF-8 and base64 read back this key's payload as it was written, and its times
    -- are datetimes in UTC that `fromisoformat` reads back, a cursor decodes to the key exactly when
    -- the key can be stored (numbers that fit a BIGINT, texts that fit their columns and hold no NUL)
    -- and the cursor is its own encoding.
    pub decode_area_item_cursor_iff :
        (cursor : Text) (key : AreaItemKey Time)
        → ((j : Json) → area_item_payload clock key ≡ ok j → Inverts c j)
        → ReadsBack clock key.valid_from
        → ReadsBack clock key.valid_to
        → (decode_area_item_cursor clock c cursor ≡ ok key)
          ↔ (IsAreaItemKey key × (encode_area_item_cursor clock c key ≡ ok cursor))
    unfolding decode_area_item_cursor encode_area_item_cursor
    decode_area_item_cursor_iff cursor key i from_back to_back = (
      (λ h.
          let (j, read, canonical) =
            decode_canonical-ok c invalid_cursor (encode_area_item_cursor clock c)
              (area_item_value clock) cursor key h in
          (area_item_value-ok clock j key read, canonical)),
      λ (valid, canonical).
          let (j, payload, token) = >>=-ok (area_item_payload clock key) (token_of c) canonical in
          decode_canonical_own c invalid_cursor (encode_area_item_cursor clock c)
            (area_item_value clock) cursor key j
            (area_item_value_own clock key j valid from_back to_back payload) (i j payload) token
            canonical,
    )

    no_wire :
        (key : AreaItemKey Time) (v : Time)
        → key.valid_from ≡ some v
        → clock.wire v ≡ none
        → encode_area_item_cursor clock c key ≡ raise overflow_error
    unfolding encode_area_item_cursor area_item_payload wire_time written
    no_wire key v h k = ground arith

    -- A cursor of a payload that JSON, UTF-8 and base64 read back, that passes every check, and
    -- whose start is a datetime with no UTC form, is not refused with InvalidCursorError: decoding
    -- raises OverflowError.
    pub decode_area_item_cursor-overflow :
        (cursor : Text) (j : Json) (key : AreaItemKey Time) (v : Time)
        → Inverts c j
        → token_of c j ≡ ok cursor
        → area_item_value clock j ≡ ok key
        → key.valid_from ≡ some v
        → clock.wire v ≡ none
        → decode_area_item_cursor clock c cursor ≡ raise overflow_error
    unfolding decode_area_item_cursor encode_area_item_cursor canonical_result
    decode_area_item_cursor-overflow cursor j key v i token read h k =
        decode_canonical-raise c invalid_cursor (encode_area_item_cursor clock c)
          (area_item_value clock) cursor key j overflow_error read i token
          (ap (canonical_result c invalid_cursor cursor key) (no_wire key v h k))
