-- ===== src/Api/Examples.antt =====
-- An item id and cursors with a concrete codec, and the theorems on tokens applied to them.
use first_helios.Base.{
  if◌then◌else◌, ◌==◌, subst, ℕ, ◌≡◌, ◌↔◌, refl, any, none, some, [], ◌∷◌, arith,
}
use first_helios.Base.Int.{ℤ, pos, negsuc}
use first_helios.Base.Text.{Text, codes, text_eq}
use first_helios.Base.Results.{ok-injective, ok, raise}
use first_helios.Api.Json.{Json, null, str, has_nul, overflow_error}
use first_helios.Api.Codec.{
  rstrip, before_stripped, pads, missing, padded, token_of_bytes, token_of, Inverts, IsPadded,
}
use first_helios.Api.Samples.{codec_of, codec_of-Inverts, dumps, b64encode}
use first_helios.Api.Cursor.Values.{ReadsBack}
use first_helios.Api.ItemId.{
  ItemId, path_items, item_payload, encode_item_id, decode_item_id, IsItemId,
}
use first_helios.Api.ItemId.RoundTrip.{decode_item_id_iff}
use first_helios.Api.Cursor.{
  cell_payload, encode_cell_cursor, Clock, aware, malformed, AreaItemKey, IsAreaItemKey,
  text_or_null, area_item_array, area_item_payload, area_item_value, encode_area_item_cursor,
  decode_area_item_cursor, over_limit, written, wire_time, with_offset, cursor_time, cursor_text,
  nullable_text, cursor_int,
}
use first_helios.Api.Json.{in_range}
use first_helios.Api.Cursor.RoundTrip.{
  decode_area_item_cursor_iff, decode_area_item_cursor-overflow,
}

program : Unit {0}
unfolding in_range any text_eq has_nul rstrip before_stripped pads missing padded token_of_bytes
    token_of path_items item_payload encode_item_id over_limit cell_payload encode_cell_cursor
    text_or_null area_item_array written wire_time area_item_payload encode_area_item_cursor
    with_offset cursor_time cursor_text nullable_text cursor_int area_item_value
program = tt

abbrev dish : ItemId
dish = record {
  subject_kind = codes "establishment";
  subject_id = pos 41;
  source_record_id = pos 7;
  root_key = codes "menu";
  target_path =
      (codes "base", codes "b") ∷ (codes "section", codes "s") ∷ (codes "item", codes "i") ∷ [];
}

abbrev dish_payload : Json
dish_payload = unfold program in item_payload dish

abbrev dish_token : Text
dish_token =
    codes
      "WyJlc3RhYmxpc2htZW50Iiw0MSw3LCJtZW51IixbWyJiYXNlIiwiYiJdLFsic2VjdGlvbiIsInMiXSxbIml0ZW0iLCJpIl1dXQ"

dish-IsPadded : IsPadded (b64encode (dumps (item_payload dish) []))
unfolding program
dish-IsPadded = record {
  body =
      codes
        "WyJlc3RhYmxpc2htZW50Iiw0MSw3LCJtZW51IixbWyJiYXNlIiwiYiJdLFsic2VjdGlvbiIsInMiXSxbIml0ZW0iLCJpIl1dXQ";
  fill = 2;
  joined = refl;
  unpadded = refl;
  short = ground arith;
  whole = refl;
}

dish-Inverts : Inverts (codec_of (item_payload dish)) (item_payload dish)
unfolding program
dish-Inverts = codec_of-Inverts (item_payload dish) dish-IsPadded refl

dish-encodes : encode_item_id (codec_of (item_payload dish)) dish ≡ ok dish_token
unfolding program
dish-encodes = refl

decode_item_id_iff_example :
    (decode_item_id (codec_of (item_payload dish)) dish_token ≡ ok dish)
    ↔ (IsItemId dish × (encode_item_id (codec_of (item_payload dish)) dish ≡ ok dish_token))
decode_item_id_iff_example =
    decode_item_id_iff (codec_of (item_payload dish)) dish_token dish dish-Inverts

-- Two datetimes: the start of 2026 in UTC, and the start of the year 1 at +23:00.
abbrev clock : Clock ℕ
clock = record {
  wire = λ v. if v == 0 then some (codes "2026-01-01T00:00:00+00:00") else none;
  fromisoformat = λ t.
      if text_eq t (codes "2026-01-01T00:00:00+00:00")
      then aware 0
      else if text_eq t (codes "0001-01-01T00:00:00+23:00")
      then aware 1
      else malformed;
}

abbrev row_key : ℤ → ℕ → AreaItemKey ℕ
row_key amount from = record {
  amount_minor = amount;
  subject_id = pos 3;
  subject_kind = codes "establishment";
  source_record_id = pos 7;
  root_key = codes "menu";
  target_path = codes "p";
  channel = codes "web";
  service_period = none;
  valid_from = some from;
  valid_to = none;
  currency_code = codes "EUR";
}

row_json : Json
unfolding program
row_json = area_item_array (row_key (negsuc 4) 0) (str (codes "2026-01-01T00:00:00+00:00")) null

row-IsPadded : IsPadded (b64encode (dumps row_json []))
unfolding program row_json
row-IsPadded = record {
  body =
      codes
        "Wy01LDMsImVzdGFibGlzaG1lbnQiLDcsIm1lbnUiLCJwIiwid2ViIixudWxsLCIyMDI2LTAxLTAxVDAwOjAwOjAwKzAwOjAwIixudWxsLCJFVVIiXQ";
  fill = 2;
  joined = refl;
  unpadded = refl;
  short = ground arith;
  whole = refl;
}

row-Inverts :
    (j : Json)
    → area_item_payload clock (row_key (negsuc 4) 0) ≡ ok j
    → Inverts (codec_of row_json) j
unfolding program row_json
row-Inverts j h =
    subst (Inverts (codec_of row_json)) (ok-injective row_json j h)
      (codec_of-Inverts row_json row-IsPadded refl)

row_token : Text
row_token =
    codes
      "Wy01LDMsImVzdGFibGlzaG1lbnQiLDcsIm1lbnUiLCJwIiwid2ViIixudWxsLCIyMDI2LTAxLTAxVDAwOjAwOjAwKzAwOjAwIixudWxsLCJFVVIiXQ"

row-ReadsBack : ReadsBack clock (some 0)
unfolding program
row-ReadsBack t h =
    subst (λ x. clock.fromisoformat x ≡ aware 0) (the_same (codes "2026-01-01T00:00:00+00:00") t h)
      refl
  where
    the_same : (s t : Text) → some s ≡ some t → s ≡ t
    the_same s t h = cc

decode_area_item_cursor_iff_example :
    (decode_area_item_cursor clock (codec_of row_json) row_token ≡ ok (row_key (negsuc 4) 0)) ↔ (
      IsAreaItemKey (row_key (negsuc 4) 0)
      × (encode_area_item_cursor clock (codec_of row_json) (row_key (negsuc 4) 0) ≡ ok row_token))
decode_area_item_cursor_iff_example =
    decode_area_item_cursor_iff (codec_of row_json) clock row_token (row_key (negsuc 4) 0)
      row-Inverts row-ReadsBack tt

forged_json : Json
unfolding program
forged_json = area_item_array (row_key (pos 1) 1) (str (codes "0001-01-01T00:00:00+23:00")) null

forged-IsPadded : IsPadded (b64encode (dumps forged_json []))
unfolding program forged_json
forged-IsPadded = record {
  body =
      codes
        "WzEsMywiZXN0YWJsaXNobWVudCIsNywibWVudSIsInAiLCJ3ZWIiLG51bGwsIjAwMDEtMDEtMDFUMDA6MDA6MDArMjM6MDAiLG51bGwsIkVVUiJd";
  fill = 0;
  joined = refl;
  unpadded = refl;
  short = ground arith;
  whole = refl;
}

forged-Inverts : Inverts (codec_of forged_json) forged_json
unfolding program forged_json
forged-Inverts = codec_of-Inverts forged_json forged-IsPadded refl

forged_token :
    token_of (codec_of forged_json) forged_json
    ≡ ok (
        codes
          "WzEsMywiZXN0YWJsaXNobWVudCIsNywibWVudSIsInAiLCJ3ZWIiLG51bGwsIjAwMDEtMDEtMDFUMDA6MDA6MDArMjM6MDAiLG51bGwsIkVVUiJd")
unfolding program forged_json
forged_token = refl

forged_value : area_item_value clock forged_json ≡ ok (row_key (pos 1) 1)
unfolding program forged_json
forged_value = refl

decode_area_item_cursor-overflow_example :
    decode_area_item_cursor clock (codec_of forged_json) (
      codes
        "WzEsMywiZXN0YWJsaXNobWVudCIsNywibWVudSIsInAiLCJ3ZWIiLG51bGwsIjAwMDEtMDEtMDFUMDA6MDA6MDArMjM6MDAiLG51bGwsIkVVUiJd")
    ≡ raise overflow_error
decode_area_item_cursor-overflow_example =
    decode_area_item_cursor-overflow (codec_of forged_json) clock
      (codes
        "WzEsMywiZXN0YWJsaXNobWVudCIsNywibWVudSIsInAiLCJ3ZWIiLG51bGwsIjAwMDEtMDEtMDFUMDA6MDA6MDArMjM6MDAiLG51bGwsIkVVUiJd")
      forged_json (row_key (pos 1) 1) 1 forged-Inverts forged_token forged_value refl refl
