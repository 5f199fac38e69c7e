-- ===== src/KeyType/Match.antt =====
-- The matcher of THEO/common.go finds the longest registered prefix of a key.
use theo_extension.Common.{
  ℕ, ◌≡◌, refl, sym, ap, ◌∙◌, Option, none, some, List, [], ◌∷◌, arith, ◌==◌, if◌then◌else◌, inl,
  inr, Option-cases,
}
use theo_extension.Common.Bytes.{Bytes, bytes_beq}
use theo_extension.KeyType.{DataType, KeyPrefixInfo, unknown_type, key_prefixes}
use theo_extension.KeyType.Trie.{
  TrieNode, node, data_type_of, children_of, get_child, new_trie_node, child_or_new, insert,
  insert_row, insert_all, new_key_data_type_matcher, match_from, get_data_type,
  get_data_type_from_key, get_child-set_child,
}

-- The type stored for exactly this string.
exact : TrieNode → Bytes → DataType
exact t [] = data_type_of t
exact t (b ∷ q) = elim (get_child b (children_of t)) [ none ↦ unknown_type | some c ↦ exact c q ]

exact-new : (q : Bytes) → exact new_trie_node q ≡ unknown_type
unfolding exact get_child
exact-new [] = refl
exact-new (b ∷ q) = refl

exact-child_or_new :
    (o : Option TrieNode) (q : Bytes)
    → exact (child_or_new o) q ≡ elim o [ none ↦ unknown_type | some c ↦ exact c q ]
exact-child_or_new none q = exact-new q
exact-child_or_new (some c) q = refl

exact-insert :
    (t : TrieNode) (p q : Bytes) (d : DataType)
    → exact (insert t p d) q ≡ (if bytes_beq p q then d else exact t q)
unfolding exact insert bytes_beq
exact-insert (node e cs) [] [] d = refl
exact-insert (node e cs) [] (c ∷ q) d = refl
exact-insert (node e cs) (b ∷ p) [] d = refl
exact-insert (node e cs) (b ∷ p) (c ∷ q) d = ground (
  arith,
  get_child-set_child b c (insert (child_or_new (get_child b cs)) p d) cs,
  exact-insert (child_or_new (get_child b cs)) p q d,
  exact-child_or_new (get_child b cs) q,
)

-- The type that a table gives a string: that of the last row with it, or `d` if no row has it.
pub registered : DataType → List KeyPrefixInfo → Bytes → DataType
registered d [] q = d
registered d (kpi ∷ kpis) q =
    registered (if bytes_beq kpi.prefix q then kpi.data_type else d) kpis q

exact-insert_row :
    (t : TrieNode) (p : Bytes) (b : ℕ) (q : Bytes) (d : DataType)
    → exact (insert_row t p d) (b ∷ q) ≡ (if bytes_beq p (b ∷ q) then d else exact t (b ∷ q))
unfolding insert_row bytes_beq
exact-insert_row t [] b q d = refl
exact-insert_row t (c ∷ p) b q d = exact-insert t (c ∷ p) (b ∷ q) d

exact-insert_all :
    (t : TrieNode) (kpis : List KeyPrefixInfo) (b : ℕ) (q : Bytes)
    → exact (insert_all t kpis) (b ∷ q) ≡ registered (exact t (b ∷ q)) kpis (b ∷ q)
unfolding insert_all registered bytes_beq
exact-insert_all t [] b q = refl
exact-insert_all t (kpi ∷ kpis) b q =
    exact-insert_all (insert_row t kpi.prefix kpi.data_type) kpis b q
    ∙ ap (λ d. registered d kpis (b ∷ q)) (exact-insert_row t kpi.prefix b q kpi.data_type)

-- The types of the non-empty prefixes of a key, the shortest first.
pub prefix_types : (Bytes → DataType) → Bytes → List DataType
prefix_types f [] = []
prefix_types f (b ∷ key) = f (b ∷ []) ∷ prefix_types (λ p. f (b ∷ p)) key

-- The last known type of a list, or `d` if all are unknown.
pub last_known : DataType → List DataType → DataType
last_known d [] = d
last_known d (x ∷ xs) = last_known (if x == unknown_type then d else x) xs

prefix_types-ext :
    (f g : Bytes → DataType) (key : Bytes)
    → ((b : ℕ) (p : Bytes) → f (b ∷ p) ≡ g (b ∷ p))
    → prefix_types f key ≡ prefix_types g key
unfolding prefix_types
prefix_types-ext f g [] h = refl
prefix_types-ext f g (b ∷ key) h =
    rw (h b [], prefix_types-ext (λ p. f (b ∷ p)) (λ p. g (b ∷ p)) key (λ c p. h b (c ∷ p)))

last_known-unknown :
    (f : Bytes → DataType) (d : DataType) (key : Bytes)
    → ((b : ℕ) (p : Bytes) → f (b ∷ p) ≡ unknown_type)
    → last_known d (prefix_types f key) ≡ d
unfolding prefix_types last_known
last_known-unknown f d [] h = refl
last_known-unknown f d (b ∷ key) h =
    rw (h b []) (last_known-unknown (λ p. f (b ∷ p)) d key (λ c p. h b (c ∷ p)))

module _ (t : TrieNode) (b : ℕ) where
  exact_miss : get_child b (children_of t) ≡ none → (p : Bytes) → exact t (b ∷ p) ≡ unknown_type
  unfolding exact
  exact_miss e p = rw (e, exact)

  exact_hit :
      (c : TrieNode)
      → get_child b (children_of t) ≡ some c
      → (p : Bytes) → exact t (b ∷ p) ≡ exact c p
  unfolding exact
  exact_hit c e p = rw (e, exact)

  exact_hit_nil :
      (c : TrieNode) → get_child b (children_of t) ≡ some c → exact t (b ∷ []) ≡ data_type_of c
  unfolding exact
  exact_hit_nil c e = rw (e, exact)

match_from-eq :
    (t : TrieNode) (d : DataType) (key : Bytes)
    → match_from t d key ≡ last_known d (prefix_types (exact t) key)
unfolding match_from prefix_types last_known
match_from-eq t d [] = refl
match_from-eq t d (b ∷ key) = elim (Option-cases (get_child b (children_of t))) [
  | inl e ↦
      rw (e, match_from, exact_miss t b e [])
        (sym (last_known-unknown (λ p. exact t (b ∷ p)) d key (λ c p. exact_miss t b e (c ∷ p))))
  | inr (c, e) ↦
      rw
        (
          e,
          match_from,
          exact_hit_nil t b c e,
          prefix_types-ext (λ p. exact t (b ∷ p)) (exact c) key
              (λ c' p. exact_hit t b c e (c' ∷ p)),
        )
        (match_from-eq c (if data_type_of c == unknown_type then d else data_type_of c) key)
]

-- What a table that is put into a new matcher answers for every key.
get_data_type-longest :
    (kpis : List KeyPrefixInfo) (key : Bytes)
    → get_data_type (new_key_data_type_matcher kpis) key
      ≡ last_known unknown_type (prefix_types (registered unknown_type kpis) key)
unfolding get_data_type new_key_data_type_matcher
get_data_type-longest kpis key =
    match_from-eq (insert_all new_trie_node kpis) unknown_type key
    ∙ ap (last_known unknown_type) (
        prefix_types-ext _ _ key (λ b p.
          exact-insert_all new_trie_node kpis b p
          ∙ ap (λ d. registered d kpis (b ∷ p)) (exact-new (b ∷ p))))

-- For every key the type is that of the longest non-empty prefix which `key_prefixes` registers
-- with a known type (the last row where several have the prefix), and unknown where none is.
pub get_data_type_from_key-longest :
    (key : Bytes)
    → get_data_type_from_key key
      ≡ last_known unknown_type (prefix_types (registered unknown_type key_prefixes) key)
unfolding get_data_type_from_key
get_data_type_from_key-longest key = get_data_type-longest key_prefixes key
