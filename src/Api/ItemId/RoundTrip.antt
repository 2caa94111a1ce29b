-- ===== src/Api/ItemId/RoundTrip.antt =====
-- Encoding and decoding of item ids (apps/api/item_ids.py) are inverse, and what a refusal is.
use first_helios.Base.{◌≡◌, ◌↔◌}
use first_helios.Base.Text.{Text}
use first_helios.Base.Results.{ok}
use first_helios.Api.Json.{Json, invalid_item_id}
use first_helios.Api.Codec.{Codec, Inverts}
use first_helios.Api.Codec.Laws.{decode_canonical-ok, decode_canonical_own}
use first_helios.Api.ItemId.{
  ItemId, IsItemId, item_payload, encode_item_id, decode_item_id, item_value,
}
use first_helios.Api.ItemId.Values.{item_value-ok, item_value_own}

module _ {Bytes : Type 0} (c : Codec Bytes) where
  -- Where JSON, UTF-8 and base64 read back this item id's payload as it was written, a token
  -- decodes to the item id exactly when the item id is one (a scope kind, ids that fit a BIGINT, text
  -- without NUL, a path whose first node alone may be a pinned base and whose target is no base) and
  -- the token is its own encoding: what is encoded is read back, and no other token names it.
  pub decode_item_id_iff :
      (token : Text) (item : ItemId)
      → Inverts c (item_payload item)
      → (decode_item_id c token ≡ ok item) ↔ (IsItemId item × (encode_item_id c item ≡ ok token))
  unfolding decode_item_id encode_item_id
  decode_item_id_iff token item i = (
    (λ h.
        let (j, read, canonical) =
          decode_canonical-ok c invalid_item_id (encode_item_id c) item_value token item h in
        (item_value-ok j item read, canonical)),
    λ (valid, canonical).
        decode_canonical_own c invalid_item_id (encode_item_id c) item_value token item
          (item_payload item) (item_value_own item valid) i canonical canonical,
  )
