-- ===== src/Menu/Context.antt =====
-- Effective applicability: the intersection of the restrictions on a node's path
-- (`_effective_context`, `_matches_context`, `_contains_instant`).
pub mod Window
use first_helios.Base.{
  ℕ, Bool, true, false, Option, none, some, List, [], ◌∷◌, ◌==◌, ◌&&◌, ◌||◌, arith, ◌≡◌, ◌↔◌, refl,
  leb, ltb, not, if◌then◌else◌, select, all, any, is_none, option_eq, inl, inr, map,
}
use first_helios.Base.Text.{Text, text_eq, text_eq_iff, option_text_eq, option_text_eq_iff}
use first_helios.Menu.Model.{
  MenuApplicability, Channel, unspecified, same_channel, same_channel_iff,
}

pub record Effective : Type 0 where
  pub channel : Channel
  pub service_period : Option Text
  pub valid_from : Option ℕ
  pub valid_to : Option ℕ

pub record ContextRef : Type 0 where
  pub channel : Channel
  pub service_period : Option Text
  pub valid_from : Option ℕ
  pub valid_to : Option ℕ

-- `{row.channel for row in rows}` has at most one element
one_channel : List MenuApplicability → Bool
one_channel [] = true
one_channel (r ∷ rs) = all (λ s. same_channel r.channel s.channel) rs

-- `[row.service_period for row in rows if row.service_period is not None]`
periods : List MenuApplicability → List Text
periods [] = []
periods (r ∷ rs) = elim r.service_period [ none ↦ periods rs | some p ↦ p ∷ periods rs ]

one_period : List Text → Bool
one_period [] = true
one_period (p ∷ ps) = all (text_eq p) ps

first_period : List Text → Option Text
first_period [] = none
first_period (p ∷ ps) = some p

-- `max(lowers) if lowers else None`
unfoldable pub later : Option ℕ → Option ℕ → Option ℕ
later none b = b
later (some a) none = some a
later (some a) (some b) = if leb a b then some b else some a

-- `min(uppers) if uppers else None`
unfoldable pub sooner : Option ℕ → Option ℕ → Option ℕ
sooner none b = b
sooner (some a) none = some a
sooner (some a) (some b) = if leb a b then some a else some b

latest_start : List MenuApplicability → Option ℕ
unfolding later
latest_start [] = none
latest_start (r ∷ rs) = later r.valid_from (latest_start rs)

earliest_end : List MenuApplicability → Option ℕ
unfolding sooner
earliest_end [] = none
earliest_end (r ∷ rs) = sooner r.valid_to (earliest_end rs)

-- `valid_from is not None and valid_to is not None and valid_from >= valid_to`
empty_window : Option ℕ → Option ℕ → Bool
empty_window (some a) (some b) = leb b a
empty_window (some a) none = false
empty_window none b = false

-- The part of `_effective_context` below the reading of the rows. The foreign keys of a path's
-- context ids make the rows nonempty; for no row the source has no channel to return.
unfoldable pub intersection : List MenuApplicability → Option Effective
unfolding one_channel periods one_period empty_window latest_start earliest_end first_period
intersection [] = none
intersection (r ∷ rs) =
    let rows = r ∷ rs in
    let lower = latest_start rows in
    let upper = earliest_end rows in
    if not (one_channel rows)
    then none
    else if not (one_period (periods rows))
    then none
    else if empty_window lower upper
    then none
    else some (record {
      channel = r.channel;
      service_period = first_period (periods rows);
      valid_from = lower;
      valid_to = upper;
    })

unfoldable pub matches_context : Effective → ContextRef → Bool
matches_context effective context =
    same_channel effective.channel context.channel
    && option_text_eq effective.service_period context.service_period
    && option_eq effective.valid_from context.valid_from
    && option_eq effective.valid_to context.valid_to

-- `lower is None or lower <= instant`
unfoldable pub from_ok : Option ℕ → ℕ → Bool
from_ok none instant = true
from_ok (some a) instant = leb a instant

-- `upper is None or instant < upper`
unfoldable pub to_ok : Option ℕ → ℕ → Bool
to_ok none instant = true
to_ok (some b) instant = ltb instant b

unfoldable pub contains_instant : Effective → ℕ → Bool
unfolding from_ok to_ok
contains_instant effective instant =
    from_ok effective.valid_from instant && to_ok effective.valid_to instant
