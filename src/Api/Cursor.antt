-- ===== src/Api/Cursor.antt =====
-- Pagination cursors (apps/api/pagination.py): the subject cursor, the cell cursor of the price
-- index and the cursor of a drawn area's items. Datetimes are a parameter `Clock`, the text of a
-- subject id a parameter `Digits`.
pub mod Values
pub mod RoundTrip
use first_helios.Base.{ℕ, ◌≡◌, Bool, false, ◌||◌, Option, none, some, length, ltb, if◌then◌else◌}
use first_helios.Base.Int.{ℤ, pos, negsuc}
use first_helios.Base.Text.{Text}
use first_helios.Base.Results.{Result, raise, ok, ◌>>=◌}
use first_helios.Api.Json.{
  Json, null, str, int, array, nil, cons, Failure, invalid_cursor, overflow_error, in_range,
  has_nul, InBigint,
}
use first_helios.Api.Codec.{Codec, token_of, decode_canonical}

-- The calls on a subject cursor, where `none` stands for the exception:
-- `urlsafe_b64encode(str(n).encode("ascii")).decode("ascii")`, and back
-- `urlsafe_b64decode(cursor.encode("ascii"))` and `int(raw.decode("ascii"))`.
pub record Digits (Bytes : Type 0) : Type 0 where
  pub write : ℤ → Text
  pub unpack : Text → Option Bytes
  pub read : Bytes → Option ℤ

unfoldable pub encode_cursor : {Bytes : Type 0} → Digits Bytes → ℤ → Text
encode_cursor digits subject_id = digits.write subject_id

unfoldable pub cursor_range : Option ℤ → Result Failure ℤ
unfolding in_range
cursor_range none = raise invalid_cursor
cursor_range (some value) = if in_range (pos 0) value then ok value else raise invalid_cursor

unfoldable pub unpacked : {Bytes : Type 0} → Digits Bytes → Option Bytes → Result Failure ℤ
unfolding cursor_range
unpacked digits none = raise invalid_cursor
unpacked digits (some raw) = cursor_range (digits.read raw)

unfoldable pub decode_cursor : {Bytes : Type 0} → Digits Bytes → Text → Result Failure ℤ
unfolding unpacked
decode_cursor digits cursor = unpacked digits (digits.unpack cursor)

-- `length is not None and len(value) > length`
unfoldable pub over_limit : Option ℕ → Text → Bool
over_limit none value = false
over_limit (some limit) value = ltb limit (length value)

-- `_cursor_text` of a value that may not be null
unfoldable pub cursor_text : Option ℕ → Json → Result Failure Text
unfolding has_nul over_limit
cursor_text limit (str value) =
    if has_nul value || over_limit limit value then raise invalid_cursor else ok value
cursor_text limit _ = raise invalid_cursor

-- `_cursor_text` with `nullable=True`
unfoldable pub nullable_text : Option ℕ → Json → Result Failure (Option Text)
unfolding cursor_text
nullable_text limit null = ok none
nullable_text limit j = cursor_text limit j >>= λ value. ok (some value)

unfoldable pub cursor_int : ℤ → Json → Result Failure ℤ
unfolding in_range
cursor_int low (int value) = if in_range low value then ok value else raise invalid_cursor
cursor_int low _ = raise invalid_cursor

pub record CellKey : Type 0 where
  pub area_key : Text
  pub category_kind : Text
  pub category_key : Text
  pub currency_code : Text

unfoldable pub cell_payload : CellKey → Json
cell_payload key = array (
    cons (str key.area_key) (
      cons (str key.category_kind)
        (cons (str key.category_key) (cons (str key.currency_code) nil))))

unfoldable pub encode_cell_cursor : {Bytes : Type 0} → Codec Bytes → CellKey → Result Failure Text
unfolding token_of cell_payload
encode_cell_cursor c key = token_of c (cell_payload key)

-- the loop over `CELL_KEY_LENGTHS`
unfoldable pub cell_value : Json → Result Failure CellKey
unfolding cursor_text
cell_value (array (cons area (cons kind (cons key (cons currency nil))))) =
    cursor_text (some 64) area >>= λ a. cursor_text (some 32) kind >>= λ k.
    cursor_text (some 128) key >>= λ y. cursor_text (some 3) currency >>= λ u.
    ok record { area_key = a; category_kind = k; category_key = y; currency_code = u }
cell_value _ = raise invalid_cursor

unfoldable pub decode_cell_cursor : {Bytes : Type 0} → Codec Bytes → Text → Result Failure CellKey
unfolding decode_canonical encode_cell_cursor cell_value
decode_cell_cursor c cursor =
    decode_canonical c invalid_cursor (encode_cell_cursor c) cell_value cursor

-- What `datetime.fromisoformat` gives: ValueError, or a datetime without or with an offset.
pub data Parsed (Time : Type 0) : Type 0 where
  malformed : Parsed Time
  naive : Parsed Time
  aware : Time → Parsed Time

-- A `Time` is a datetime with its offset. `wire` is `value.astimezone(UTC).isoformat()`, where
-- `none` stands for OverflowError: the value has no UTC form within the years 1 to 9999.
pub record Clock (Time : Type 0) : Type 0 where
  pub wire : Time → Option Text
  pub fromisoformat : Text → Parsed Time

abbrev pub bigint_min : ℤ
bigint_min = negsuc 9223372036854775807

pub record AreaItemKey (Time : Type 0) : Type 0 where
  pub amount_minor : ℤ
  pub subject_id : ℤ
  pub subject_kind : Text
  pub source_record_id : ℤ
  pub root_key : Text
  pub target_path : Text
  pub channel : Text
  pub service_period : Option Text
  pub valid_from : Option Time
  pub valid_to : Option Time
  pub currency_code : Text

-- a text or null
unfoldable pub text_or_null : Option Text → Json
text_or_null none = null
text_or_null (some t) = str t

-- the list that is written, its times ready
unfoldable pub area_item_array : {Time : Type 0} → AreaItemKey Time → Json → Json → Json
unfolding text_or_null
area_item_array key valid_from valid_to =
    let times = cons valid_from (cons valid_to (cons (str key.currency_code) nil)) in
    let place = cons (str key.channel) (cons (text_or_null key.service_period) times) in
    let target =
      cons (int key.source_record_id)
        (cons (str key.root_key) (cons (str key.target_path) place)) in
    array
      (cons (int key.amount_minor) (cons (int key.subject_id) (cons (str key.subject_kind) target)))

module _ {Time : Type 0} (clock : Clock Time) where
  unfoldable pub written : Option Text → Result Failure Json
  written none = raise overflow_error
  written (some t) = ok (str t)

  unfoldable pub wire_time : Option Time → Result Failure Json
  unfolding written
  wire_time none = ok null
  wire_time (some value) = written (clock.wire value)

  -- the `payload` of `encode_area_item_cursor`
  unfoldable pub area_item_payload : AreaItemKey Time → Result Failure Json
  unfolding wire_time area_item_array
  area_item_payload key = wire_time key.valid_from >>= λ valid_from.
      wire_time key.valid_to >>= λ valid_to. ok (area_item_array key valid_from valid_to)

  unfoldable pub with_offset : Parsed Time → Result Failure (Option Time)
  with_offset (aware value) = ok (some value)
  with_offset _ = raise invalid_cursor

  unfoldable pub cursor_time : Json → Result Failure (Option Time)
  unfolding with_offset
  cursor_time null = ok none
  cursor_time (str value) = with_offset (clock.fromisoformat value)
  cursor_time _ = raise invalid_cursor

  -- the eleven reads of `decode_area_item_cursor`, in their order
  unfoldable pub area_item_value : Json → Result Failure (AreaItemKey Time)
  unfolding cursor_int cursor_text nullable_text cursor_time
  area_item_value
        (array (
          cons j0 (
            cons j1 (
              cons j2 (
                cons j3
                  (cons j4 (cons j5 (cons j6 (cons j7 (cons j8 (cons j9 (cons j10 nil)))))))))))) =
      cursor_int bigint_min j0 >>= λ amount. cursor_int (pos 0) j1 >>= λ subject.
      cursor_text (some 32) j2 >>= λ kind. cursor_int (pos 0) j3 >>= λ source_record.
      cursor_text (some 512) j4 >>= λ root. cursor_text none j5 >>= λ path.
      cursor_text (some 16) j6 >>= λ channel. nullable_text (some 128) j7 >>= λ period.
      cursor_time j8 >>= λ valid_from. cursor_time j9 >>= λ valid_to.
      cursor_text (some 3) j10 >>= λ currency. ok record {
        amount_minor = amount;
        subject_id = subject;
        subject_kind = kind;
        source_record_id = source_record;
        root_key = root;
        target_path = path;
        channel = channel;
        service_period = period;
        valid_from = valid_from;
        valid_to = valid_to;
        currency_code = currency;
      }
  area_item_value _ = raise invalid_cursor

  unfoldable pub encode_area_item_cursor :
      {Bytes : Type 0} → Codec Bytes → AreaItemKey Time → Result Failure Text
  unfolding area_item_payload token_of
  encode_area_item_cursor c key = area_item_payload key >>= token_of c

  unfoldable pub decode_area_item_cursor :
      {Bytes : Type 0} → Codec Bytes → Text → Result Failure (AreaItemKey Time)
  unfolding decode_canonical encode_area_item_cursor area_item_value
  decode_area_item_cursor c cursor =
      decode_canonical c invalid_cursor (encode_area_item_cursor c) area_item_value cursor

-- The key's text as a column can store it: no NUL, and no longer than the column.
pub record Fits (limit : Option ℕ) (t : Text) : Type 0 where
  pub no_nul : has_nul t ≡ false
  pub short : over_limit limit t ≡ false

-- A null fits.
abbrev pub NullableFits : Option ℕ → Option Text → Type 0
NullableFits limit none = Unit
NullableFits limit (some t) = Fits limit t

pub record IsCellKey (key : CellKey) : Type 0 where
  pub area : Fits (some 64) key.area_key
  pub kind : Fits (some 32) key.category_kind
  pub category : Fits (some 128) key.category_key
  pub currency : Fits (some 3) key.currency_code

pub record IsAreaItemKey {Time : Type 0} (key : AreaItemKey Time) : Type 0 where
  pub amount : InBigint bigint_min key.amount_minor
  pub subject : InBigint (pos 0) key.subject_id
  pub kind : Fits (some 32) key.subject_kind
  pub source_record : InBigint (pos 0) key.source_record_id
  pub root : Fits (some 512) key.root_key
  pub path : Fits none key.target_path
  pub channel : Fits (some 16) key.channel
  pub period : NullableFits (some 128) key.service_period
  pub currency : Fits (some 3) key.currency_code
