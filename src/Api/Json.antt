-- ===== src/Api/Json.antt =====
-- The values `json.loads` returns, the errors the API's tokens meet (InvalidItemIdError of
-- apps/api/item_ids.py, InvalidCursorError of apps/api/errors.py, and Python's own), and the checks on one value that several tokens share.
use first_helios.Base.{◌≡◌, Bool, true, ◌&&◌, any, ◌==◌, arith}
use first_helios.Base.Int.{ℤ, pos, ◌≤ℤ◌, leb_ℤ}
use first_helios.Base.Text.{Text}

-- A number with a fraction or an exponent keeps its text.
mutual
  pub data Json : Type 0 where
    null : Json
    boolean : Bool → Json
    int : ℤ → Json
    float : Text → Json
    str : Text → Json
    array : Items → Json
    object : Members → Json

  pub data Items : Type 0 where
    nil : Items
    cons : Json → Items → Items

  pub data Members : Type 0 where
    end : Members
    member : Text → Json → Members → Members

pub data Failure : Type 0 where
  invalid_item_id : Failure
  invalid_cursor : Failure
  unicode_error : Failure
  value_error : Failure
  recursion_error : Failure
  overflow_error : Failure

-- `2**63 - 1` and `-(2**63)`
abbrev pub bigint_max : ℤ
bigint_max = pos 9223372036854775807

-- `low <= value <= BIGINT_MAX`
unfoldable pub in_range : ℤ → ℤ → Bool
in_range low value = leb_ℤ low value && leb_ℤ value bigint_max

-- `"\x00" in value`
unfoldable pub has_nul : Text → Bool
unfolding any
has_nul value = any (λ c. c == 0) value

pub record InBigint (low value : ℤ) : Type 0 where
  pub lower : low ≤ℤ value
  pub upper : value ≤ℤ bigint_max

pub in_range-InBigint : (low value : ℤ) → in_range low value ≡ true → InBigint low value
unfolding in_range
in_range-InBigint low value h = record { lower = ground arith; upper = ground arith }

pub InBigint-in_range : (low value : ℤ) → InBigint low value → in_range low value ≡ true
unfolding in_range
InBigint-in_range low value h = ground (arith, h.lower, h.upper)
