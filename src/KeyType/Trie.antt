-- ===== src/KeyType/Trie.antt =====
-- `TrieNode` and `KeyDataTypeMatcher` of THEO/common.go. The children of a node are a Go map from
-- bytes to nodes; here they are a list in the same mutual block.
use theo_extension.Common.{
  ℕ, ◌≡◌, refl, Option, none, some, List, [], ◌∷◌, arith, ◌==◌, if◌then◌else◌,
}
use theo_extension.Common.Bytes.{Bytes}
use theo_extension.KeyType.{DataType, KeyPrefixInfo, unknown_type, key_prefixes}

mutual
  pub data TrieNode : Type 0 where
    node : DataType → Children → TrieNode

  pub data Children : Type 0 where
    empty : Children
    child : ℕ → TrieNode → Children → Children

abbrev pub data_type_of : TrieNode → DataType
data_type_of (node d cs) = d

abbrev pub children_of : TrieNode → Children
children_of (node d cs) = cs

-- `node.Children[b]`
unfoldable pub get_child : ℕ → Children → Option TrieNode
get_child b empty = none
get_child b (child c t cs) = if c == b then some t else get_child b cs

-- `node.Children[b] = t`
unfoldable pub set_child : ℕ → TrieNode → Children → Children
set_child b t empty = child b t empty
set_child b t (child c u cs) = if c == b then child b t cs else child c u (set_child b t cs)

abbrev pub new_trie_node : TrieNode
new_trie_node = node unknown_type empty

abbrev pub child_or_new : Option TrieNode → TrieNode
child_or_new none = new_trie_node
child_or_new (some t) = t

-- The loop of `Insert`: a missing child is made on the way, and the last node gets the type.
unfoldable pub insert : TrieNode → Bytes → DataType → TrieNode
unfolding get_child set_child
insert (node d cs) [] data_type = node data_type cs
insert (node d cs) (b ∷ prefix) data_type =
    node d (set_child b (insert (child_or_new (get_child b cs)) prefix data_type) cs)

-- The body of the loop of `NewKeyDataTypeMatcher`: `if len(kpi.Prefix) > 0`.
unfoldable pub insert_row : TrieNode → Bytes → DataType → TrieNode
unfolding insert
insert_row t [] data_type = t
insert_row t (b ∷ prefix) data_type = insert t (b ∷ prefix) data_type

unfoldable pub insert_all : TrieNode → List KeyPrefixInfo → TrieNode
unfolding insert_row
insert_all t [] = t
insert_all t (kpi ∷ kpis) = insert_all (insert_row t kpi.prefix kpi.data_type) kpis

unfoldable pub new_key_data_type_matcher : List KeyPrefixInfo → TrieNode
unfolding insert_all
new_key_data_type_matcher = insert_all new_trie_node

-- The loop of `GetDataType`: `longest` is the type of the longest prefix matched so far.
unfoldable pub match_from : TrieNode → DataType → Bytes → DataType
unfolding get_child
match_from t longest [] = longest
match_from t longest (b ∷ key) = elim (get_child b (children_of t)) [
  | none ↦ longest
  | some c ↦ match_from c (if data_type_of c == unknown_type then longest else data_type_of c) key
]

unfoldable pub get_data_type : TrieNode → Bytes → DataType
unfolding match_from
get_data_type t key = match_from t unknown_type key

-- `GetDataTypeFromKey`, over the matcher that is built once.
unfoldable pub get_data_type_from_key : Bytes → DataType
unfolding new_key_data_type_matcher get_data_type
get_data_type_from_key key = get_data_type (new_key_data_type_matcher key_prefixes) key

pub get_child-set_child :
    (b c : ℕ) (t : TrieNode) (cs : Children)
    → get_child c (set_child b t cs) ≡ (if b == c then some t else get_child c cs)
unfolding get_child set_child
get_child-set_child b c t empty = refl
get_child-set_child b c t (child i u cs) = ground (arith, get_child-set_child b c t cs)
