-- ===== src/Api/Codec/Laws.antt =====
-- What the tokens of apps/api/pagination.py and apps/api/item_ids.py share: padding that is put back,
-- and decoders that accept a value's own token only.
use first_helios.Base.Results.{>>=-ok}
use first_helios.Base.{
  ℕ, zero, suc, ◌+◌, ◌%◌, ◌<◌, ◌≡◌, refl, sym, ap, ◌∙◌, false, Option, none, some, [], ◌∷◌, ◌++◌,
  ◌==◌, length, any, arith,
}
use first_helios.Base.Text.{Text, text_eq_iff}
use first_helios.Base.Results.{Result, raise, ok, ok->>=, >>=-ok, OnlyRaises, >>=-OnlyRaises}
use first_helios.Api.Json.{Json, Failure, unicode_error, value_error}
use first_helios.Api.Codec.{
  Codec, pad, rstrip, before_stripped, pads, missing, padded, IsPadded, token_of_bytes, token_of,
  caught, or_error, payload_of, canonical_result, Inverts, decode_canonical, Shallow,
}

rstrip-pads : (n : ℕ) → rstrip (pads n) ≡ []
unfolding rstrip before_stripped pads
rstrip-pads zero = refl
rstrip-pads (suc n) = ground (arith, rstrip-pads n)

rstrip_body : (b : Text) (n : ℕ) → any (λ c. c == pad) b ≡ false → rstrip (b ++ pads n) ≡ b
unfolding rstrip before_stripped any
rstrip_body [] n h = rstrip-pads n
rstrip_body (c ∷ []) n h = ground (arith, rstrip-pads n)
rstrip_body (c ∷ d ∷ ds) n h = ground (arith, rstrip_body (d ∷ ds) n)

length-pads : (n : ℕ) → length (pads n) ≡ n
unfolding pads
length-pads zero = refl
length-pads (suc n) = ground (arith, length-pads n)

length-++ : (a b : Text) → length (a ++ b) ≡ length a + length b
length-++ [] b = omega arith
length-++ (c ∷ cs) b = ground (arith, length-++ cs b)

missing_fill : (n fill : ℕ) → fill < 4 → (n + fill) % 4 ≡ 0 → missing n ≡ fill
unfolding missing
missing_fill n fill h k = omega arith

-- The padding that is stripped is the padding that is put back.
padded-rstrip : (t : Text) → IsPadded t → padded (rstrip t) ≡ t
unfolding padded
padded-rstrip t p = ground (
  arith,
  p.joined,
  rstrip_body p.body p.fill p.unpadded,
  missing_fill (length p.body) p.fill p.short,
  length-++ p.body (pads p.fill),
  length-pads p.fill,
  p.whole,
)

module _ {Bytes : Type 0} (c : Codec Bytes) where
  token_of_bytes-ok :
      (o : Option Bytes) (token : Text)
      → token_of_bytes c o ≡ ok token
      → (raw : Bytes) × (o ≡ some raw) × (rstrip (c.b64encode raw) ≡ token)
  unfolding token_of_bytes
  token_of_bytes-ok none token h = cc
  token_of_bytes-ok (some raw) token h = (raw, refl, cc)

  payload_of_steps :
      (e : Failure) (j : Json) (token : Text) (raw : Bytes) (text : Text)
      → c.b64decode (padded token) ≡ some raw
      → c.utf8_decode raw ≡ some text
      → c.loads text ≡ ok j
      → payload_of c e token ≡ ok j
  unfolding payload_of
  payload_of_steps e j token raw text h k l = ground arith

  padded_token :
      (token : Text) (raw : Bytes)
      → IsPadded (c.b64encode raw)
      → rstrip (c.b64encode raw) ≡ token
      → padded token ≡ c.b64encode raw
  padded_token token raw p k = ap padded (sym k) ∙ padded-rstrip (c.b64encode raw) p

  payload_of_raw :
      (e : Failure) (j : Json) (token : Text) (raw : Bytes)
      → Inverts c j
      → c.utf8_encode (c.dumps j) ≡ some raw
      → rstrip (c.b64encode raw) ≡ token
      → payload_of c e token ≡ ok j
  payload_of_raw e j token raw i h k =
      payload_of_steps e j token raw (c.dumps j)
        (ap c.b64decode (padded_token token raw (i.b64encode-IsPadded raw h) k)
          ∙ i.b64decode-b64encode raw h)
        (i.decode-encode raw h) i.loads-dumps

  payload_of-token_of :
      (e : Failure) (j : Json) (token : Text)
      → Inverts c j
      → token_of c j ≡ ok token
      → payload_of c e token ≡ ok j
  unfolding token_of
  payload_of-token_of e j token i h =
      let (raw, written, stripped) = token_of_bytes-ok (c.utf8_encode (c.dumps j)) token h in
      payload_of_raw e j token raw i written stripped

  canonical_result-ok :
      {A : Type 0} (e : Failure) (token : Text) (a b : A) (r : Result Failure Text)
      → canonical_result c e token a r ≡ ok b
      → (a ≡ b) × (r ≡ ok token)
  unfolding canonical_result
  canonical_result-ok e token a b (raise unicode_error) h = cc
  canonical_result-ok e token a b (raise f) h = cc
  canonical_result-ok e token a b (ok t) h = ground (arith, text_eq_iff t token)

  canonical_result-OnlyRaises :
      {A : Type 0} (e : Failure) (token : Text) (a : A) (r : Result Failure Text)
      → OnlyRaises unicode_error r
      → OnlyRaises e (canonical_result c e token a r)
  unfolding canonical_result
  canonical_result-OnlyRaises e token a (raise unicode_error) only = λ f h. cc
  canonical_result-OnlyRaises e token a (raise g) only = λ f h. ground (arith, only g refl)
  canonical_result-OnlyRaises e token a (ok t) only = λ f h. ground arith

  canonical_result_same :
      {A : Type 0} (e : Failure) (token : Text) (a : A) (r : Result Failure Text)
      → r ≡ ok token
      → canonical_result c e token a r ≡ ok a
  unfolding canonical_result
  canonical_result_same e token a (raise g) h = cc
  canonical_result_same e token a (ok t) h = ground (arith, text_eq_iff t token)

  caught-OnlyRaises :
      {A : Type 0} (e : Failure) (r : Result Failure A)
      → OnlyRaises value_error r
      → OnlyRaises e (caught c e r)
  unfolding caught
  caught-OnlyRaises e (raise value_error) only = λ f h. cc
  caught-OnlyRaises e (raise unicode_error) only = λ f h. cc
  caught-OnlyRaises e (raise g) only = λ f h. ground (arith, only g refl)
  caught-OnlyRaises e (ok a) only = λ f h. cc

  or_error-OnlyRaises : {A : Type 0} (e : Failure) (o : Option A) → OnlyRaises e (or_error c e o)
  or_error-OnlyRaises e none = λ f h. cc
  or_error-OnlyRaises e (some a) = λ f h. cc

  payload_of-OnlyRaises :
      (e : Failure) → Shallow c → (token : Text) → OnlyRaises e (payload_of c e token)
  unfolding payload_of
  payload_of-OnlyRaises e shallow token =
      >>=-OnlyRaises e (or_error c e (c.b64decode (padded token))) _
        (or_error-OnlyRaises e (c.b64decode (padded token)))
        (λ raw.
          >>=-OnlyRaises e (or_error c e (c.utf8_decode raw)) _
            (or_error-OnlyRaises e (c.utf8_decode raw))
            (λ text. caught-OnlyRaises e (c.loads text) (shallow text)))

  token_of_bytes-OnlyRaises : (o : Option Bytes) → OnlyRaises unicode_error (token_of_bytes c o)
  unfolding token_of_bytes
  token_of_bytes-OnlyRaises none = λ f h. cc
  token_of_bytes-OnlyRaises (some raw) = λ f h. cc

  pub token_of-OnlyRaises : (j : Json) → OnlyRaises unicode_error (token_of c j)
  unfolding token_of
  token_of-OnlyRaises j = token_of_bytes-OnlyRaises (c.utf8_encode (c.dumps j))

  module _ {A : Type 0} (e : Failure) (encode : A → Result Failure Text)
      (values : Json → Result Failure A) where
    pub decode_canonical-ok :
        (token : Text) (a : A)
        → decode_canonical c e encode values token ≡ ok a
        → (j : Json) × (values j ≡ ok a) × (encode a ≡ ok token)
    unfolding decode_canonical
    decode_canonical-ok token a h =
        let (j, read, h') = >>=-ok (payload_of c e token) _ h in
        let (b, found, h'') = >>=-ok (values j) _ h' in
        let (same, canonical) = canonical_result-ok e token b a (encode b) h'' in
        (j, found ∙ ap ok same, ap encode (sym same) ∙ canonical)

    -- A token of this value's payload, which is the value's own.
    pub decode_canonical_own :
        (token : Text) (a : A) (j : Json)
        → values j ≡ ok a
        → Inverts c j
        → token_of c j ≡ ok token
        → encode a ≡ ok token
        → decode_canonical c e encode values token ≡ ok a
    unfolding decode_canonical
    decode_canonical_own token a j v i t k =
        ok->>= _ (payload_of-token_of e j token i t)
          (ok->>= _ v (canonical_result_same e token a (encode a) k))

    pub decode_canonical-raise :
        (token : Text) (a : A) (j : Json) (f : Failure)
        → values j ≡ ok a
        → Inverts c j
        → token_of c j ≡ ok token
        → canonical_result c e token a (encode a) ≡ raise f
        → decode_canonical c e encode values token ≡ raise f
    unfolding decode_canonical
    decode_canonical-raise token a j f v i t k =
        ok->>= _ (payload_of-token_of e j token i t) (ok->>= _ v k)

    pub decode_canonical-OnlyRaises :
        Shallow c
        → ((j : Json) → OnlyRaises e (values j))
        → ((a : A) → OnlyRaises unicode_error (encode a))
        → (token : Text) → OnlyRaises e (decode_canonical c e encode values token)
    unfolding decode_canonical
    decode_canonical-OnlyRaises shallow only coded token =
        >>=-OnlyRaises e (payload_of c e token) _ (payload_of-OnlyRaises e shallow token) (λ j.
          >>=-OnlyRaises e (values j) _ (only j)
            (λ a. canonical_result-OnlyRaises e token a (encode a) (coded a)))
