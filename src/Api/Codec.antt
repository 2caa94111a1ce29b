-- ===== src/Api/Codec.antt =====
-- Tokens: `base64.urlsafe_b64encode(json.dumps(...).encode("utf-8")).decode("ascii").rstrip("=")`
-- and back, as apps/api/pagination.py and apps/api/item_ids.py write them. The calls of `json`,
-- `base64` and the UTF-8 codec are the parameter `Codec`; `Inverts` is what their documentation
-- says of one value that is written and read again.
pub mod Laws
use first_helios.Base.Results.{>>=-ok}
use first_helios.Base.{
  ℕ, zero, suc, ◌+◌, ◌-◌, ◌%◌, ◌<◌, ◌≡◌, refl, sym, ap, ◌∙◌, false, Option, none, some, [], ◌∷◌,
  ◌++◌, ◌==◌, length, any, if◌then◌else◌, arith,
}
use first_helios.Base.Text.{Text, text_eq, text_eq_iff}
use first_helios.Base.Results.{Result, raise, ok, ◌>>=◌, ok->>=, >>=-ok, OnlyRaises, >>=-OnlyRaises}
use first_helios.Api.Json.{Json, Failure, unicode_error, value_error}

-- `none` stands for the exception: UnicodeError of `encode` and `decode`, binascii.Error of
-- `b64decode`. `loads` raises ValueError, or RecursionError on text that nests too deep. `dumps` is called with `separators=(",", ":")` and
-- `ensure_ascii=False`.
pub record Codec (Bytes : Type 0) : Type 0 where
  pub dumps : Json → Text
  pub loads : Text → Result Failure Json
  pub utf8_encode : Text → Option Bytes
  pub utf8_decode : Bytes → Option Text
  pub b64encode : Bytes → Text
  pub b64decode : Text → Option Bytes

abbrev pub pad : ℕ
pad = 61

-- a character before text that is stripped already
unfoldable pub before_stripped : ℕ → Text → Text
before_stripped c [] = if c == pad then [] else c ∷ []
before_stripped c (d ∷ ds) = c ∷ d ∷ ds

-- `text.rstrip("=")`
unfoldable pub rstrip : Text → Text
unfolding before_stripped
rstrip [] = []
rstrip (c ∷ cs) = before_stripped c (rstrip cs)

-- `"=" * n`
unfoldable pub pads : ℕ → Text
pads zero = []
pads (suc n) = pad ∷ pads n

-- `-n % 4`
unfoldable pub missing : ℕ → ℕ
missing n = (4 - n % 4) % 4

-- `token + "=" * (-len(token) % 4)`
unfoldable pub padded : Text → Text
unfolding pads missing
padded token = token ++ pads (missing (length token))

-- What base64 promises of its own output: whole groups of four, the padding at the end only.
pub record IsPadded (t : Text) : Type 0 where
  pub body : Text
  pub fill : ℕ
  pub joined : t ≡ body ++ pads fill
  pub unpadded : any (λ c. c == pad) body ≡ false
  pub short : fill < 4
  pub whole : length t % 4 ≡ 0

module _ {Bytes : Type 0} (c : Codec Bytes) where
  -- `base64.urlsafe_b64encode(raw).decode("ascii").rstrip("=")`
  unfoldable pub token_of_bytes : Option Bytes → Result Failure Text
  token_of_bytes none = raise unicode_error
  token_of_bytes (some raw) = ok (rstrip (c.b64encode raw))

  unfoldable pub token_of : Json → Result Failure Text
  unfolding token_of_bytes
  token_of j = token_of_bytes (c.utf8_encode (c.dumps j))

  abbrev pub or_error {ℓ} : {A : Type ℓ} → Failure → Option A → Result Failure A
  or_error e none = raise e
  or_error e (some a) = ok a

  -- the `except` clause of a decoder's `try` block: what is no ValueError is not caught
  unfoldable pub caught {ℓ} : {A : Type ℓ} → Failure → Result Failure A → Result Failure A
  caught e (raise value_error) = raise e
  caught e (raise unicode_error) = raise e
  caught e (raise f) = raise f
  caught e (ok a) = ok a

  -- the `try` block of a decoder
  unfoldable pub payload_of : Failure → Text → Result Failure Json
  unfolding padded caught
  payload_of e token = or_error e (c.b64decode (padded token)) >>= λ raw.
      or_error e (c.utf8_decode raw) >>= λ text. caught e (c.loads text)

  -- the last test of a decoder, on what its value is encoded to: only a UnicodeError is caught
  unfoldable pub canonical_result {ℓ} :
      {A : Type ℓ} → Failure → Text → A → Result Failure Text → Result Failure A
  canonical_result e token a (raise unicode_error) = raise e
  canonical_result e token a (raise f) = raise f
  canonical_result e token a (ok canonical) = if text_eq canonical token then ok a else raise e

  -- What is written for this value is read back.
  pub record Inverts (j : Json) : Type 0 where
    pub loads-dumps : c.loads (c.dumps j) ≡ ok j
    pub decode-encode :
        (raw : Bytes) → c.utf8_encode (c.dumps j) ≡ some raw → c.utf8_decode raw ≡ some (c.dumps j)
    pub b64encode-IsPadded :
        (raw : Bytes) → c.utf8_encode (c.dumps j) ≡ some raw → IsPadded (c.b64encode raw)
    pub b64decode-b64encode :
        (raw : Bytes)
        → c.utf8_encode (c.dumps j) ≡ some raw
        → c.b64decode (c.b64encode raw) ≡ some raw

  -- A decoder: the payload, its values, and the test that the token is the value's own.
  unfoldable pub decode_canonical {ℓ} :
      {A : Type ℓ}
      → Failure
      → (A → Result Failure Text)
      → (Json → Result Failure A)
      → Text
      → Result Failure A
  unfolding payload_of canonical_result
  decode_canonical e encode values token =
      payload_of e token >>= λ j. values j >>= λ a. canonical_result e token a (encode a)

  -- No text nests too deep for the reader.
  abbrev pub Shallow : Type 0
  Shallow = (text : Text) → OnlyRaises value_error (c.loads text)
