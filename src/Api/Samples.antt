-- ===== src/Api/Samples.antt =====
-- A codec for the examples, which instantiates the parameters that the theorems on tokens take:
-- compact JSON of ASCII text without escapes, base64url, and a reader that knows one document.
use first_helios.Base.{sym, subst, arith, sym}
use first_helios.Base.Text.{text_eq_iff}
use first_helios.Base.{arith}
use first_helios.Api.Codec.{Inverts}
use first_helios.Base.{◌≡◌}
use first_helios.Api.Codec.{IsPadded}
use first_helios.Base.{
  ℕ, zero, suc, ◌+◌, ◌-◌, ◌*◌, ◌/◌, ◌%◌, Option, none, some, List, [], ◌∷◌, ◌++◌, ◌==◌, ltb,
  if◌then◌else◌,
}
use first_helios.Base.Int.{pos, negsuc}
use first_helios.Base.Text.{Text, codes, text_eq, text_eq_iff}
use first_helios.Base.Results.{raise, ok, guarded-OnlyRaises}
use first_helios.Api.Json.{
  Json, null, boolean, int, float, str, array, object, Items, nil, cons, value_error,
}
use first_helios.Api.Codec.{Codec, Inverts, IsPadded, Shallow}

abbrev quote : ℕ
quote = 34

abbrev comma : ℕ
comma = 44

abbrev closing : ℕ
closing = 93

-- the digits of a number, with fuel for their count
abbrev pub digits : ℕ → ℕ → Text → Text
digits zero n rest = rest
digits (suc fuel) n rest =
    let more = digits fuel (n / 10) ((48 + n % 10) ∷ rest) in
    if ltb n 10 then (48 + n) ∷ rest else more

abbrev mutual
  pub dumps : Json → Text → Text
  dumps null rest = codes "null" ++ rest
  dumps (boolean b) rest = rest
  dumps (int (pos n)) rest = digits 20 n rest
  dumps (int (negsuc n)) rest = 45 ∷ digits 20 (suc n) rest
  dumps (float t) rest = t ++ rest
  dumps (str t) rest = quote ∷ t ++ quote ∷ rest
  dumps (array items) rest = 91 ∷ dumps_items items rest
  dumps (object m) rest = rest

  dumps_items : Items → Text → Text
  dumps_items nil rest = closing ∷ rest
  dumps_items (cons j nil) rest = dumps j (closing ∷ rest)
  dumps_items (cons j (cons k items)) rest = dumps j (comma ∷ dumps_items (cons k items) rest)

-- the base64url alphabet, and back
abbrev letter : ℕ → ℕ
letter n =
    if ltb n 26
    then 65 + n
    else if ltb n 52
    then 71 + n
    else if ltb n 62
    then n - 4
    else if n == 62
    then 45
    else 95

abbrev sextet : ℕ → ℕ
sextet c =
    if c == 45
    then 62
    else if c == 95
    then 63
    else if ltb c 58
    then c + 4
    else if ltb c 91
    then c - 65
    else c - 71

abbrev pub b64encode : List ℕ → Text
b64encode [] = []
b64encode (a ∷ []) = letter (a / 4) ∷ letter (a % 4 * 16) ∷ 61 ∷ 61 ∷ []
b64encode (a ∷ b ∷ []) =
    letter (a / 4) ∷ letter (a % 4 * 16 + b / 16) ∷ letter (b % 16 * 4) ∷ 61 ∷ []
b64encode (a ∷ b ∷ c ∷ rest) =
    letter (a / 4)
    ∷ letter (a % 4 * 16 + b / 16)
    ∷ letter (b % 16 * 4 + c / 64)
    ∷ letter (c % 64)
    ∷ b64encode rest

-- the bytes of one group of four
abbrev group : ℕ → ℕ → ℕ → ℕ → List ℕ
group p q r s =
    let first = sextet p * 4 + sextet q / 16 in
    let second = sextet q % 16 * 16 + sextet r / 4 in
    if r == 61
    then first ∷ []
    else if s == 61
    then first ∷ second ∷ []
    else first ∷ second ∷ (sextet r % 4 * 64 + sextet s) ∷ []

abbrev join : List ℕ → Option (List ℕ) → Option (List ℕ)
join bytes none = none
join bytes (some rest) = some (bytes ++ rest)

abbrev b64decode : Text → Option (List ℕ)
b64decode [] = some []
b64decode (p ∷ q ∷ r ∷ s ∷ rest) = join (group p q r s) (b64decode rest)
b64decode _ = none

abbrev pub codec_of : Json → Codec (List ℕ)
codec_of known = record {
  dumps = λ j. dumps j [];
  loads = λ text. if text_eq text (dumps known []) then ok known else raise value_error;
  utf8_encode = some;
  utf8_decode = some;
  b64encode = b64encode;
  b64decode = b64decode;
}

pub codec_of-Shallow : (known : Json) → Shallow (codec_of known)
codec_of-Shallow known =
    λ text. guarded-OnlyRaises value_error (text_eq text (dumps known [])) known

-- The codec of a document reads it back, where base64 does.
pub codec_of-Inverts :
    (known : Json)
    → IsPadded (b64encode (dumps known []))
    → b64decode (b64encode (dumps known [])) ≡ some (dumps known [])
    → Inverts (codec_of known) known
codec_of-Inverts known p h = record {
  loads-dumps = knows (dumps known []);
  decode-encode = λ raw k. sym k;
  b64encode-IsPadded = λ raw k. subst (λ x. IsPadded (b64encode x)) (the_same raw k) p;
  b64decode-b64encode = λ raw k. subst (λ x. b64decode (b64encode x) ≡ some x) (the_same raw k) h;
}
  where
    the_same : (raw : List ℕ) → some (dumps known []) ≡ some raw → dumps known [] ≡ raw
    the_same raw k = cc

    knows : (t : Text) → (if text_eq t t then ok known else raise value_error) ≡ ok known
    knows t = ground (arith, text_eq_iff t t)
