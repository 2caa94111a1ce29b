-- ===== src/Api/ItemId.antt =====
-- Opaque menu item ids (apps/api/item_ids.py): `encode_item_id` and `decode_item_id`.
pub mod Values
pub mod RoundTrip
use first_helios.Base.{
  ℕ, suc, ◌≡◌, Bool, false, ◌&&◌, ◌||◌, ◌==◌, List, [], ◌∷◌, any, In, if◌then◌else◌,
}
use first_helios.Base.Int.{ℤ, pos}
use first_helios.Base.Text.{Text, codes, text_eq}
use first_helios.Base.Results.{Result, raise, ok, ◌>>=◌}
use first_helios.Api.Json.{
  Json, str, int, array, Items, nil, cons, Failure, invalid_item_id, in_range, has_nul, InBigint,
}
use first_helios.Api.Codec.{Codec, token_of, decode_canonical}

abbrev pub scope_kinds : List Text
scope_kinds = codes "establishment" ∷ codes "organization" ∷ []

abbrev pub node_kinds : List Text
node_kinds = codes "section" ∷ codes "item" ∷ codes "variant" ∷ codes "modifier" ∷ []

abbrev pub base_kind : Text
base_kind = codes "base"

-- a node of a path: its kind and its native key
abbrev pub IdNode : Type 0
IdNode = Text × Text

pub record ItemId : Type 0 where
  pub subject_kind : Text
  pub subject_id : ℤ
  pub source_record_id : ℤ
  pub root_key : Text
  pub target_path : List IdNode

-- `[[kind, key] for kind, key in item.target_path]`
unfoldable pub path_items : List IdNode → Items
path_items [] = nil
path_items ((kind, key) ∷ rest) =
    cons (array (cons (str kind) (cons (str key) nil))) (path_items rest)

-- the `payload` of `encode_item_id`
unfoldable pub item_payload : ItemId → Json
unfolding path_items
item_payload item = array (
    cons (str item.subject_kind) (
      cons (int item.subject_id) (
        cons (int item.source_record_id)
          (cons (str item.root_key) (cons (array (path_items item.target_path)) nil)))))

unfoldable pub encode_item_id : {Bytes : Type 0} → Codec Bytes → ItemId → Result Failure Text
unfolding token_of item_payload
encode_item_id c item = token_of c (item_payload item)

-- `value in values`
unfoldable pub one_of : List Text → Text → Bool
unfolding any
one_of values value = any (λ v. text_eq v value) values

unfoldable pub text_value : Json → Result Failure Text
unfolding has_nul
text_value (str value) = if has_nul value then raise invalid_item_id else ok value
text_value _ = raise invalid_item_id

unfoldable pub bigint_value : Json → Result Failure ℤ
unfolding in_range
bigint_value (int value) = if in_range (pos 0) value then ok value else raise invalid_item_id
bigint_value _ = raise invalid_item_id

-- `kind not in _NODE_KINDS and not (kind == _BASE_KIND and position == 0)`, negated
unfoldable pub kind_allowed : ℕ → Text → Bool
unfolding one_of
kind_allowed position kind = one_of node_kinds kind || (text_eq kind base_kind && position == 0)

unfoldable pub node_of : ℕ → Text → Text → Result Failure IdNode
unfolding kind_allowed
node_of position kind key =
    if kind_allowed position kind then ok (kind, key) else raise invalid_item_id

unfoldable pub path_node : ℕ → Json → Result Failure IdNode
unfolding text_value node_of
path_node position (array (cons k (cons v nil))) =
    text_value k >>= λ kind. text_value v >>= λ key. node_of position kind key
path_node position _ = raise invalid_item_id

-- the loop of `_path`, from a position
unfoldable pub path_nodes : ℕ → Items → Result Failure (List IdNode)
unfolding path_node
path_nodes position nil = ok []
path_nodes position (cons node rest) =
    path_node position node >>= λ n. path_nodes (suc position) rest >>= λ ns. ok (n ∷ ns)

-- `path[-1][0] == _BASE_KIND`
unfoldable pub ends_with_base : List IdNode → Bool
ends_with_base [] = false
ends_with_base ((kind, key) ∷ []) = text_eq kind base_kind
ends_with_base (_ ∷ n ∷ rest) = ends_with_base (n ∷ rest)

unfoldable pub closed_path : List IdNode → Result Failure (List IdNode)
unfolding ends_with_base
closed_path path = if ends_with_base path then raise invalid_item_id else ok path

unfoldable pub path_value : Json → Result Failure (List IdNode)
unfolding path_nodes closed_path
path_value (array (cons node rest)) = path_nodes 0 (cons node rest) >>= closed_path
path_value _ = raise invalid_item_id

unfoldable pub subject_kind_value : Json → Result Failure Text
unfolding one_of
subject_kind_value (str kind) = if one_of scope_kinds kind then ok kind else raise invalid_item_id
subject_kind_value _ = raise invalid_item_id

unfoldable pub item_value : Json → Result Failure ItemId
unfolding subject_kind_value bigint_value text_value path_value
item_value (array (cons kind (cons subject (cons record_id (cons root (cons path nil)))))) =
    subject_kind_value kind >>= λ k. bigint_value subject >>= λ s. bigint_value record_id >>= λ r.
    text_value root >>= λ t. path_value path >>= λ p.
    ok record {
      subject_kind = k;
      subject_id = s;
      source_record_id = r;
      root_key = t;
      target_path = p;
    }
item_value _ = raise invalid_item_id

unfoldable pub decode_item_id : {Bytes : Type 0} → Codec Bytes → Text → Result Failure ItemId
unfolding decode_canonical encode_item_id item_value
decode_item_id c token = decode_canonical c invalid_item_id (encode_item_id c) item_value token

-- An item id as its fields are documented: a scope kind, ids that fit a BIGINT, text without
-- NUL, and a path from the root, where only the first node may be a pinned base and the target
-- is no base.
pub record IsNode (kinds : List Text) (n : IdNode) : Type 0 where
  pub known : In n.0 kinds
  pub kind_text : has_nul n.0 ≡ false
  pub key_text : has_nul n.1 ≡ false

-- the nodes after the first
abbrev pub AreNodes : List IdNode → Type 0
AreNodes [] = Unit
AreNodes (n ∷ rest) = IsNode node_kinds n × AreNodes rest

abbrev pub IsPath : List IdNode → Type 0
IsPath [] = ⊥
IsPath (n ∷ []) = IsNode node_kinds n
IsPath (n ∷ m ∷ rest) = IsNode (base_kind ∷ node_kinds) n × AreNodes (m ∷ rest)

pub record IsItemId (item : ItemId) : Type 0 where
  pub scope : In item.subject_kind scope_kinds
  pub subject : InBigint (pos 0) item.subject_id
  pub source_record : InBigint (pos 0) item.source_record_id
  pub root : has_nul item.root_key ≡ false
  pub path : IsPath item.target_path
