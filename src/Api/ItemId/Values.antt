-- ===== src/Api/ItemId/Values.antt =====
-- The checks of apps/api/item_ids.py on a payload, against the documented fields of an item id.
use first_helios.Base.Results.{ok->>=}
use first_helios.Base.Results.{ok-injective, ok-∷-injective, refused-ok}
use first_helios.Base.{ap}
use first_helios.Base.{◌∙◌}
use first_helios.Base.{subst}
use first_helios.Base.{ℕ, zero, suc, ◌≡◌, refl, inr, true, false, List, [], ◌∷◌, any, In, arith}
use first_helios.Base.Int.{ℤ, pos}
use first_helios.Base.Text.{Text, text_eq, text_eq_iff}
use first_helios.Base.Results.{ok, >>=-ok, guarded-ok}
use first_helios.Api.Json.{
  Json, str, int, array, Items, nil, cons, invalid_item_id, in_range, has_nul, InBigint,
  in_range-InBigint, InBigint-in_range,
}
use first_helios.Api.ItemId.{
  ItemId, IdNode, scope_kinds, node_kinds, base_kind, path_items, item_payload, one_of, text_value,
  bigint_value, kind_allowed, node_of, path_node, path_nodes, ends_with_base, closed_path,
  path_value, subject_kind_value, item_value, IsNode, AreNodes, IsPath, IsItemId,
}

one_of_In : (values : List Text) (value : Text) → one_of values value ≡ true → In value values
unfolding one_of any
one_of_In [] value h = cc
one_of_In (v ∷ vs) value h = ground (arith, text_eq_iff v value, one_of_In vs value)

In-one_of : (values : List Text) (value : Text) → In value values → one_of values value ≡ true
unfolding one_of any
In-one_of [] value m = elim m [ ]
In-one_of (v ∷ vs) value m = ground (arith, text_eq_iff v value, In-one_of vs value)

text_value-ok : (j : Json) (t : Text) → text_value j ≡ ok t → has_nul t ≡ false
unfolding text_value
text_value-ok (str s) t h =
    let (t', same) = refused-ok invalid_item_id (has_nul s) s t h in
    subst (λ x. has_nul x ≡ false) same t'
text_value-ok j t h = cc

text_value_own : (t : Text) → has_nul t ≡ false → text_value (str t) ≡ ok t
unfolding text_value
text_value_own t h = ground arith

bigint_value-ok : (j : Json) (n : ℤ) → bigint_value j ≡ ok n → InBigint (pos 0) n
unfolding bigint_value
bigint_value-ok (int m) n h =
    let (t, same) = guarded-ok invalid_item_id (in_range (pos 0) m) m n h in
    subst (InBigint (pos 0)) same (in_range-InBigint (pos 0) m t)
bigint_value-ok j n h = cc

bigint_value_own : (n : ℤ) → InBigint (pos 0) n → bigint_value (int n) ≡ ok n
unfolding bigint_value
bigint_value_own n h = ground (arith, InBigint-in_range (pos 0) n h)

subject_kind_value-ok : (j : Json) (k : Text) → subject_kind_value j ≡ ok k → In k scope_kinds
unfolding subject_kind_value
subject_kind_value-ok (str s) k h =
    let (t, same) = guarded-ok invalid_item_id (one_of scope_kinds s) s k h in
    subst (λ x. In x scope_kinds) same (one_of_In scope_kinds s t)
subject_kind_value-ok j k h = cc

subject_kind_value_own : (k : Text) → In k scope_kinds → subject_kind_value (str k) ≡ ok k
unfolding subject_kind_value
subject_kind_value_own k m = ground (arith, In-one_of scope_kinds k m)

-- A base may only stand at the start.
abbrev kinds_at : ℕ → List Text
kinds_at zero = base_kind ∷ node_kinds
kinds_at (suc position) = node_kinds

kind_allowed_In :
    (position : ℕ) (kind : Text) → kind_allowed position kind ≡ true → In kind (kinds_at position)
unfolding kind_allowed
kind_allowed_In zero kind h = ground (arith, text_eq_iff kind base_kind, one_of_In node_kinds kind)
kind_allowed_In (suc position) kind h =
    ground (arith, text_eq_iff kind base_kind, one_of_In node_kinds kind)

In-kind_allowed :
    (position : ℕ) (kind : Text) → In kind (kinds_at position) → kind_allowed position kind ≡ true
unfolding kind_allowed
In-kind_allowed zero kind m = ground (arith, text_eq_iff kind base_kind, In-one_of node_kinds kind)
In-kind_allowed (suc position) kind m =
    ground (arith, text_eq_iff kind base_kind, In-one_of node_kinds kind)

node_of-ok :
    (position : ℕ) (kind key : Text) (n : IdNode)
    → has_nul kind ≡ false
    → has_nul key ≡ false
    → node_of position kind key ≡ ok n
    → IsNode (kinds_at position) n
unfolding node_of
node_of-ok position kind key n h k l =
    let (t, same) = guarded-ok invalid_item_id (kind_allowed position kind) (kind, key) n l in
    subst (IsNode (kinds_at position)) same
      record { known = kind_allowed_In position kind t; kind_text = h; key_text = k }

path_node-ok :
    (position : ℕ) (j : Json) (n : IdNode)
    → path_node position j ≡ ok n
    → IsNode (kinds_at position) n
unfolding path_node
path_node-ok position (array (cons k (cons v nil))) n h =
    let (kind, hk, h') = >>=-ok (text_value k) _ h in
    let (key, hv, h'') = >>=-ok (text_value v) _ h' in
    node_of-ok position kind key n (text_value-ok k kind hk) (text_value-ok v key hv) h''
path_node-ok position j n h = cc

path_nodes-AreNodes :
    (position : ℕ) (items : Items) (ns : List IdNode)
    → path_nodes (suc position) items ≡ ok ns
    → AreNodes ns
unfolding path_nodes
path_nodes-AreNodes position nil [] h = tt
path_nodes-AreNodes position nil (n ∷ ns) h = cc
path_nodes-AreNodes position (cons node rest) [] h =
    let (n, hn, h') = >>=-ok (path_node (suc position) node) _ h in
    let (ns, hns, h'') = >>=-ok (path_nodes (suc (suc position)) rest) _ h' in cc
path_nodes-AreNodes position (cons node rest) (m ∷ ms) h =
    let (n, hn, h') = >>=-ok (path_node (suc position) node) _ h in
    let (ns, hns, h'') = >>=-ok (path_nodes (suc (suc position)) rest) _ h' in
    let (same, rest_same) = ok-∷-injective n m ns ms h'' in
    (
      path_node-ok (suc position) node m (hn ∙ ap ok same),
      path_nodes-AreNodes (suc position) rest ms (hns ∙ ap ok rest_same),
    )

no_base :
    (n : IdNode)
    → IsNode (base_kind ∷ node_kinds) n
    → text_eq n.0 base_kind ≡ false
    → IsNode node_kinds n
no_base n h k = record {
  known = ground (arith, h.known, text_eq_iff n.0 base_kind);
  kind_text = h.kind_text;
  key_text = h.key_text;
}

checked-IsPath :
    (n : IdNode) (ns : List IdNode)
    → IsNode (base_kind ∷ node_kinds) n
    → AreNodes ns
    → ends_with_base (n ∷ ns) ≡ false
    → IsPath (n ∷ ns)
unfolding ends_with_base
checked-IsPath n [] h k l = no_base n h l
checked-IsPath n (m ∷ ms) h k l = (h, k)

closed_path-ok :
    (path path' : List IdNode)
    → closed_path path ≡ ok path'
    → (ends_with_base path ≡ false) × (path ≡ path')
unfolding closed_path
closed_path-ok path path' h = refused-ok invalid_item_id (ends_with_base path) path path' h

path_value-ok : (j : Json) (path : List IdNode) → path_value j ≡ ok path → IsPath path
unfolding path_value
path_value-ok (array (cons node rest)) path h =
    let (ns, hns, h') = >>=-ok (path_nodes 0 (cons node rest)) closed_path h in
    let (n, hn, h'') = >>=-ok (path_node 0 node) _ hns in
    let (ms, hms, joined) = >>=-ok (path_nodes 1 rest) _ h'' in
    let whole = ok-injective (n ∷ ms) ns joined in
    let (open_end, same) = closed_path-ok ns path h' in
    subst IsPath (whole ∙ same) (
      checked-IsPath n ms (path_node-ok 0 node n hn) (path_nodes-AreNodes 0 rest ms hms)
        (ap ends_with_base whole ∙ open_end))
path_value-ok j path h = cc

-- What a payload is read as has the documented fields.
pub item_value-ok : (j : Json) (item : ItemId) → item_value j ≡ ok item → IsItemId item
unfolding item_value
item_value-ok (array (cons kind (cons subject (cons record_id (cons root (cons path nil)))))) item
      h =
    let (k, hk, h1) = >>=-ok (subject_kind_value kind) _ h in
    let (s, hs, h2) = >>=-ok (bigint_value subject) _ h1 in
    let (r, hr, h3) = >>=-ok (bigint_value record_id) _ h2 in
    let (t, ht, h4) = >>=-ok (text_value root) _ h3 in
    let (p, hp, h5) = >>=-ok (path_value path) _ h4 in
    subst IsItemId (ok-injective _ item h5) record {
      scope = subject_kind_value-ok kind k hk;
      subject = bigint_value-ok subject s hs;
      source_record = bigint_value-ok record_id r hr;
      root = text_value-ok root t ht;
      path = path_value-ok path p hp;
    }
item_value-ok j item h = cc

no_base_sub : (n : IdNode) → IsNode node_kinds n → text_eq n.0 base_kind ≡ false
no_base_sub n h = ground (arith, h.known, text_eq_iff n.0 base_kind)

path_node_own :
    (position : ℕ) (n : IdNode)
    → IsNode (kinds_at position) n
    → path_node position (array (cons (str n.0) (cons (str n.1) nil))) ≡ ok n
unfolding path_node node_of
path_node_own position n h = ok->>= _ (text_value_own n.0 h.kind_text) (
    ok->>= _ (text_value_own n.1 h.key_text) (ground (arith, In-kind_allowed position n.0 h.known)))

path_nodes_own :
    (position : ℕ) (ns : List IdNode)
    → AreNodes ns
    → path_nodes (suc position) (path_items ns) ≡ ok ns
unfolding path_nodes path_items
path_nodes_own position [] h = refl
path_nodes_own position (n ∷ ns) h =
    ok->>= _ (path_node_own (suc position) n h.0)
      (ok->>= _ (path_nodes_own (suc position) ns h.1) refl)

first_IsNode : (n : IdNode) (ns : List IdNode) → IsPath (n ∷ ns) → IsNode (base_kind ∷ node_kinds) n
first_IsNode n [] h = record { known = inr h.known; kind_text = h.kind_text; key_text = h.key_text }
first_IsNode n (m ∷ ms) h = h.0

rest_AreNodes : (n : IdNode) (ns : List IdNode) → IsPath (n ∷ ns) → AreNodes ns
rest_AreNodes n [] h = tt
rest_AreNodes n (m ∷ ms) h = h.1

AreNodes-ends_with_base :
    (n : IdNode) (ns : List IdNode) → AreNodes (n ∷ ns) → ends_with_base (n ∷ ns) ≡ false
unfolding ends_with_base
AreNodes-ends_with_base n [] h = no_base_sub n h.0
AreNodes-ends_with_base n (m ∷ ms) h = AreNodes-ends_with_base m ms h.1

IsPath-ends_with_base :
    (n : IdNode) (ns : List IdNode) → IsPath (n ∷ ns) → ends_with_base (n ∷ ns) ≡ false
unfolding ends_with_base
IsPath-ends_with_base n [] h = no_base_sub n h
IsPath-ends_with_base n (m ∷ ms) h = AreNodes-ends_with_base m ms h.1

path_value_own : (path : List IdNode) → IsPath path → path_value (array (path_items path)) ≡ ok path
unfolding path_value path_items path_nodes
path_value_own [] h = elim h [ ]
path_value_own (n ∷ ns) h =
    ok->>= closed_path
      (ok->>= _ (path_node_own 0 n (first_IsNode n ns h))
        (ok->>= _ (path_nodes_own 0 ns (rest_AreNodes n ns h)) refl))
      (closed_path_own (n ∷ ns) (IsPath-ends_with_base n ns h))
  where
    closed_path_own :
        (path : List IdNode) → ends_with_base path ≡ false → closed_path path ≡ ok path
    closed_path_own path h = unfold closed_path in ground arith

-- The payload of a documented item id is read as that item id.
pub item_value_own : (item : ItemId) → IsItemId item → item_value (item_payload item) ≡ ok item
unfolding item_value item_payload
item_value_own item h = ok->>= _ (subject_kind_value_own item.subject_kind h.scope) (
    ok->>= _ (bigint_value_own item.subject_id h.subject) (
      ok->>= _ (bigint_value_own item.source_record_id h.source_record) (
        ok->>= _ (text_value_own item.root_key h.root)
          (ok->>= _ (path_value_own item.target_path h.path) refl))))
