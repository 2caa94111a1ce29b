-- ===== src/Menu/Model.antt =====
-- The committed Menu rows (packages/helios_core/domains/menu/models.py) and the read side's own
-- data classes (packages/helios_core/domains/menu/selection.py). A column that the schema's CHECK
-- limits to fixed words is a data type; "exactly one of these columns" is one constructor each.
-- Instants count microseconds; confidences count units of 10^-4, the columns' scale.
use first_helios.Base.{ℕ, Bool, true, false, Option, List, ◌==◌, arith, ◌≡◌, ◌↔◌}
use first_helios.Base.Text.{Text}
use first_helios.Base.Int.{ℤ}

pub data SourceKind : Type 0 where
  jsonld dom pdf llm : SourceKind

pub data Operation : Type 0 where
  initial observation correction restoration withdrawal : Operation

pub data PageState : Type 0 where
  published withdrawn : PageState

pub data NodeKind : Type 0 where
  section item variant modifier : NodeKind

pub data Effect : Type 0 where
  replace inherit suppress : Effect

pub data Support : Type 0 where
  direct inherited structural : Support

pub data Channel : Type 0 where
  unspecified dine_in takeaway : Channel

pub data PriceState : Type 0 where
  priced unknown unavailable : PriceState

pub record MenuPage : Type 0 where
  pub id : ℕ
  pub subject_id : ℕ
  pub source_record_id : ℕ
  pub source_record_version_id : ℕ
  pub resolution_event_id : ℕ
  pub root_key : Text
  pub source_kind : SourceKind
  pub stream_revision : ℕ
  pub observed_at : ℕ
  pub accepted_at : ℕ
  pub confidence : ℕ
  pub operation : Operation
  pub state : PageState
  pub base_organization_page_id : Option ℕ

-- The columns that the four node tables share; `name` is `name` or `label`.
pub record NodeColumns : Type 0 where
  pub id : ℕ
  pub page_id : ℕ
  pub key : Text
  pub base_id : Option ℕ
  pub applicability_id : Option ℕ
  pub source_native_key : Option Text
  pub effect : Effect
  pub support_kind : Support
  pub name : Option Text

pub record MenuSection : Type 0 where
  pub columns : NodeColumns
  pub parent_section_id : Option ℕ

pub record MenuItem : Type 0 where
  pub columns : NodeColumns
  pub section_id : ℕ
  pub description : Option Text

pub record MenuVariant : Type 0 where
  pub columns : NodeColumns
  pub item_id : ℕ

pub record MenuModifier : Type 0 where
  pub columns : NodeColumns
  pub item_id : Option ℕ
  pub section_id : Option ℕ

pub record MenuApplicability : Type 0 where
  pub id : ℕ
  pub channel : Channel
  pub service_period : Option Text
  pub valid_from : Option ℕ
  pub valid_to : Option ℕ

-- The one non-null column of `section_id`, `item_id`, `variant_id`, `modifier_id`.
pub data PriceTarget : Type 0 where
  section_id item_id variant_id modifier_id : ℕ → PriceTarget

pub record PriceObservation : Type 0 where
  pub id : ℕ
  pub page_id : ℕ
  pub observation_key : Text
  pub target : PriceTarget
  pub applicability_id : ℕ
  pub price_state : PriceState
  pub amount_minor : Option ℤ
  pub currency_code : Text
  pub confidence : ℕ

-- What an Evidence link supports: its page, one node, one price, or a context.
pub data LinkTarget : Type 0 where
  page : LinkTarget
  node : NodeKind → ℕ → LinkTarget
  applicability : ℕ → LinkTarget
  price : ℕ → LinkTarget

pub record EvidenceLink : Type 0 where
  pub page_id : ℕ
  pub evidence_id : ℕ
  pub target : LinkTarget

pub record Tables : Type 0 where
  pub pages : List MenuPage
  pub sections : List MenuSection
  pub items : List MenuItem
  pub variants : List MenuVariant
  pub modifiers : List MenuModifier
  pub applicabilities : List MenuApplicability
  pub prices : List PriceObservation
  pub links : List EvidenceLink

-- `is` tests on the fixed words
kind_number : NodeKind → ℕ
kind_number section = 0
kind_number item = 1
kind_number variant = 2
kind_number modifier = 3

unfoldable pub same_kind : NodeKind → NodeKind → Bool
unfolding kind_number
same_kind a b = kind_number a == kind_number b

pub same_kind_iff : (a b : NodeKind) → (same_kind a b ≡ true) ↔ (a ≡ b)
unfolding same_kind
same_kind_iff a b = ground arith

-- The rank of a source kind: `KIND_RANK`.
unfoldable pub kind_rank : SourceKind → ℕ
kind_rank jsonld = 0
kind_rank dom = 1
kind_rank pdf = 2
kind_rank llm = 3

unfoldable pub same_source_kind : SourceKind → SourceKind → Bool
unfolding kind_rank
same_source_kind a b = kind_rank a == kind_rank b

pub same_source_kind_iff : (a b : SourceKind) → (same_source_kind a b ≡ true) ↔ (a ≡ b)
unfolding same_source_kind
same_source_kind_iff a b = ground arith

unfoldable pub same_channel : Channel → Channel → Bool
same_channel unspecified unspecified = true
same_channel dine_in dine_in = true
same_channel takeaway takeaway = true
same_channel _ _ = false

pub same_channel_iff : (a b : Channel) → (same_channel a b ≡ true) ↔ (a ≡ b)
unfolding same_channel
same_channel_iff a b = ground arith

unfoldable pub is_withdrawal : Operation → Bool
is_withdrawal withdrawal = true
is_withdrawal _ = false

unfoldable pub is_published : PageState → Bool
is_published published = true
is_published withdrawn = false

unfoldable pub is_suppress : Effect → Bool
is_suppress suppress = true
is_suppress _ = false

unfoldable pub is_inherit : Effect → Bool
is_inherit inherit = true
is_inherit _ = false

unfoldable pub is_structural : Support → Bool
is_structural structural = true
is_structural _ = false
