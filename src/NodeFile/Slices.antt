-- ===== src/NodeFile/Slices.antt =====
-- The slices of a node file as lists of entries.
use theo_extension.Common.{
  ◌*◌, ◌^◌, ◌<◌, ◌≡◌, refl, sym, ap, ◌∙◌, List, [], ◌∷◌, ◌++◌, map, arith, length, take_prefix,
  drop_prefix, length-append, append_assoc,
}
use theo_extension.Common.Bytes.{Bytes}
use theo_extension.NodeFile.Entry.{
  NodeInfo, node_entry_size, encode_node_entry, encode_node_entries,
}
use theo_extension.NodeFile.Entry.RoundTrip.{length-encode_node_entry}
use theo_extension.NodeFile.Search.{entries_in, entries_of_slice, entry_count, reversed}

pub encode_node_entries-append :
    (ns ms : List NodeInfo)
    → encode_node_entries (ns ++ ms) ≡ encode_node_entries ns ++ encode_node_entries ms
unfolding encode_node_entries
encode_node_entries-append [] ms = refl
encode_node_entries-append (n ∷ ns) ms =
    ap (λ t. encode_node_entry n ++ t) (encode_node_entries-append ns ms)
    ∙ sym (append_assoc (encode_node_entry n) (encode_node_entries ns) (encode_node_entries ms))

pub length-encode_node_entries :
    (ns : List NodeInfo) → length (encode_node_entries ns) ≡ length ns * node_entry_size
unfolding encode_node_entries
length-encode_node_entries [] = omega arith
length-encode_node_entries (n ∷ ns) = omega (
  arith,
  length-append (encode_node_entry n) (encode_node_entries ns),
  length-encode_node_entry n,
  length-encode_node_entries ns,
)

pub entries_in-encode_node_entries :
    (ns : List NodeInfo)
    → entries_in (length ns) (encode_node_entries ns) ≡ map encode_node_entry ns
unfolding entries_in encode_node_entries
entries_in-encode_node_entries [] = refl
entries_in-encode_node_entries (n ∷ ns) =
    let e = encode_node_entry n in
    let k : node_entry_size ≡ length e = sym (length-encode_node_entry n) in
    rw
      (
        take_prefix node_entry_size e (encode_node_entries ns) k,
        drop_prefix node_entry_size e (encode_node_entries ns) k,
      )
      (ap (λ t. e ∷ t) (entries_in-encode_node_entries ns))

pub entry_count-encode_node_entries :
    (ns : List NodeInfo) → length ns < 2 ^ 32 → entry_count (encode_node_entries ns) ≡ length ns
entry_count-encode_node_entries ns h = omega (arith, length-encode_node_entries ns)

pub entries_of_slice-encode_node_entries :
    (ns : List NodeInfo)
    → length ns < 2 ^ 32
    → entries_of_slice (encode_node_entries ns) ≡ map encode_node_entry ns
entries_of_slice-encode_node_entries ns h =
    ap (λ c. entries_in c (encode_node_entries ns)) (entry_count-encode_node_entries ns h)
    ∙ entries_in-encode_node_entries ns

pub reversed-append :
    (xs ys acc : List Bytes) → reversed (xs ++ ys) acc ≡ reversed ys (reversed xs acc)
unfolding reversed
reversed-append [] ys acc = refl
reversed-append (x ∷ xs) ys acc = reversed-append xs ys (x ∷ acc)

pub reversed-eq : (xs acc : List Bytes) → reversed xs acc ≡ reversed xs [] ++ acc
unfolding reversed
reversed-eq [] acc = refl
reversed-eq (x ∷ xs) acc =
    reversed-eq xs (x ∷ acc)
    ∙ sym (append_assoc (reversed xs []) (x ∷ []) acc)
    ∙ ap (λ t. t ++ acc) (sym (reversed-eq xs (x ∷ [])))
