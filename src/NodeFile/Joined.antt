-- ===== src/NodeFile/Joined.antt =====
-- The unsorted part of a node file as a list of entries and tags, and a lookup in it.
use theo_extension.Common.{
  ℕ, ◌*◌, ◌^◌, ◌≤◌, ◌<◌, ◌≡◌, refl, sym, ap, ◌∙◌, inl, inr, none, some, List, [], ◌∷◌, ◌++◌, ◌==◌,
  arith, if◌then◌else◌, length, length-append, take_prefix, drop_prefix, Bool-cases, append_assoc,
  append-nil, All,
}
use theo_extension.Common.Bytes.{Bytes}
use theo_extension.NodeFile.Entry.{
  NodeInfo, node_entry_size, encode_node_entry, encode_node_entries, append_node_commit_tag,
  node_commit_tag, is_node_info_tombstone,
}
use theo_extension.NodeFile.Entry.RoundTrip.{
  length-encode_node_entry, length-node_commit_tag, node_commit_tag_block_id-node_commit_tag,
}
use theo_extension.NodeFile.Find.{find_entry, IsSorted}
use theo_extension.NodeFile.BinarySearch.{IsEntry, short_key}
use theo_extension.NodeFile.Compact.{merged_with}
use theo_extension.NodeFile.Search.{
  entries_in, entries_of_slice, entry_count, find_node_info_in_sorted_slice, live_only,
  scan_unsorted, reversed, merged_hits, get_from_slices,
}
use theo_extension.NodeFile.Slices.{reversed-append, reversed-eq}
use theo_extension.NodeFile.Lookup.{find_node_info_in_sorted_slice-eq}
use theo_extension.NodeFile.Hits.{
  is_hit, Misses, Misses-reversed, scan-Misses, scan-one, one_hit, merged-one_hit, read-eq-merged,
}

-- The entries and tags of an unsorted part, each of the size of an entry.
unfoldable pub joined : List Bytes → Bytes
joined [] = []
joined (e ∷ es) = e ++ joined es

abbrev pub AreSized : List Bytes → Type 0
AreSized = All (λ e. length e ≡ node_entry_size)

pub length-joined :
    (es : List Bytes) → AreSized es → length (joined es) ≡ length es * node_entry_size
unfolding joined
length-joined [] a = omega arith
length-joined (e ∷ es) a = omega (arith, length-append e (joined es), a.0, length-joined es a.1)

entries_in-joined : (es : List Bytes) → AreSized es → entries_in (length es) (joined es) ≡ es
unfolding entries_in joined
entries_in-joined [] a = refl
entries_in-joined (e ∷ es) a =
    rw
      (
        take_prefix node_entry_size e (joined es) (sym a.0),
        drop_prefix node_entry_size e (joined es) (sym a.0),
      )
      (ap (λ t. e ∷ t) (entries_in-joined es a.1))

pub entries_of_slice-joined :
    (es : List Bytes) → AreSized es → length es < 2 ^ 32 → entries_of_slice (joined es) ≡ es
entries_of_slice-joined es a h =
    let c : entry_count (joined es) ≡ length es = omega (arith, length-joined es a) in
    ap (λ c. entries_in c (joined es)) c ∙ entries_in-joined es a

pub joined-append : (es fs : List Bytes) → joined (es ++ fs) ≡ joined es ++ joined fs
unfolding joined
joined-append [] fs = refl
joined-append (e ∷ es) fs =
    ap (λ t. e ++ t) (joined-append es fs) ∙ sym (append_assoc e (joined es) (joined fs))

-- The tag that a write adds.
abbrev pub tag_of : ℕ → List Bytes
tag_of block_id = if block_id == 0 then [] else node_commit_tag block_id ∷ []

pub tag_sized : (i : ℕ) → AreSized (tag_of i)
tag_sized i = elim (Bool-cases (i == 0)) [
  | inl e ↦ rw e tt
  | inr e ↦ rw e (length-node_commit_tag i, tt)
]

pub length-tag_of : (i : ℕ) → length (tag_of i) ≤ 1
length-tag_of i = elim (Bool-cases (i == 0)) [
  | inl e ↦ rw e (omega arith)
  | inr e ↦ rw e (omega arith)
]

sized-append : (es fs : List Bytes) → AreSized es → AreSized fs → AreSized (es ++ fs)
sized-append [] fs a b = b
sized-append (e ∷ es) fs a b = (a.0, sized-append es fs a.1 b)

pub written-eq :
    (n : NodeInfo) (i : ℕ)
    → append_node_commit_tag (encode_node_entries (n ∷ [])) i
      ≡ joined (encode_node_entry n ∷ tag_of i)
unfolding append_node_commit_tag encode_node_entries joined
written-eq n i = elim (Bool-cases (i == 0)) [
  | inl e ↦ rw e refl
  | inr e ↦ rw e (
      append_assoc (encode_node_entry n) [] (node_commit_tag i)
      ∙ ap (λ t. encode_node_entry n ++ t) (sym (append-nil (node_commit_tag i))))
]

pub tag-Misses : (key : Bytes) (i : ℕ) → i < 2 ^ 64 → Misses key (tag_of i)
unfolding is_hit
tag-Misses key i h = elim (Bool-cases (i == 0)) [
  | inl e ↦ rw e tt
  | inr e ↦
      let p : 0 < i = ground arith in
      rw e (rw (node_commit_tag_block_id-node_commit_tag i p h) refl, tt)
]

scan-joined :
    (n : NodeInfo) (es fs : List Bytes)
    → IsEntry n
    → Misses n.key es
    → Misses n.key fs
    → scan_unsorted n.key (reversed (es ++ encode_node_entry n ∷ fs) []) none none ≡ one_hit n
unfolding reversed
scan-joined n es fs h m m' =
    let e = encode_node_entry n in
    ap (λ ls. scan_unsorted n.key ls none none)
      (reversed-append es (e ∷ fs) [] ∙ reversed-eq fs (e ∷ reversed es []))
    ∙ scan-Misses n.key (reversed fs []) (e ∷ reversed es []) none none
        (Misses-reversed n.key fs [] m' tt)
    ∙ scan-one n (reversed es []) h (Misses-reversed n.key es [] m tt)

-- What a lookup of `n` finds behind entries and tags `es` without its key.
pub get-joined :
    (sorted : List NodeInfo) (n : NodeInfo) (es fs : List Bytes)
    → All IsEntry sorted
    → IsSorted sorted
    → length sorted ≤ 2 ^ 31
    → IsEntry n
    → AreSized es
    → AreSized fs
    → Misses n.key es
    → Misses n.key fs
    → length (es ++ encode_node_entry n ∷ fs) < 2 ^ 32
    → get_from_slices (encode_node_entries sorted) (joined (es ++ encode_node_entry n ∷ fs)) n.key
      ≡ (if is_node_info_tombstone n
          then none
          else some (merged_with (live_only (find_entry n.key sorted)) n))
unfolding get_from_slices
get-joined sorted n es fs hs o b h a a' m m' fits =
    let k = short_key n.key h.short in
    let all = es ++ encode_node_entry n ∷ fs in
    let found = live_only (find_entry n.key sorted) in
    let sized = sized-append es (encode_node_entry n ∷ fs) a (length-encode_node_entry n, a') in
    ap
      (λ j.
        merged_hits (live_only (find_node_info_in_sorted_slice (encode_node_entries sorted) j))
          (scan_unsorted j (reversed (entries_of_slice (joined all)) []) none none))
      k
    ∙ ap
        (λ ls.
          merged_hits
            (live_only (find_node_info_in_sorted_slice (encode_node_entries sorted) n.key))
            (scan_unsorted n.key (reversed ls []) none none))
        (entries_of_slice-joined all sized fits)
    ∙ ap (merged_hits _) (scan-joined n es fs h m m')
    ∙ ap (λ f. merged_hits (live_only f) (one_hit n))
        (find_node_info_in_sorted_slice-eq sorted n.key hs o b ∙ ap (λ j. find_entry j sorted) k)
    ∙ merged-one_hit found n
    ∙ ap (λ r. if is_node_info_tombstone n then none else some r) (read-eq-merged found n)
