-- ===== src/BlockLog/Skiplist/Assoc.antt =====
-- An association list meets the interface of the skip list.
use theo_extension.Common.{◌≡◌, refl, true, none, some, List, [], ◌∷◌, All, Option-cases, inl, inr}
use theo_extension.Common.Bytes.{Bytes, bytes_eq}
use theo_extension.Common.Maps.{lookup, insert, erase, lookup-insert, lookup-erase}
use theo_extension.BlockLog.Entry.{KvPointer}
use theo_extension.BlockLog.Skiplist.{SkipList}

abbrev pub Pointers : Type 0
Pointers = List (Bytes × KvPointer)

-- What a walk over the list shows: each key with the pointer that a lookup finds.
unfoldable pub walk : Pointers → Pointers → Pointers
walk whole [] = []
walk whole ((k, p) ∷ m) = elim (lookup k whole) [
  | none ↦ walk whole m
  | some q ↦ (k, q) ∷ walk whole m
]

pub walk_sound : (whole m : Pointers) → All (λ e. lookup e.0 whole ≡ some e.1) (walk whole m)
unfolding walk
walk_sound whole [] = tt
walk_sound whole ((k, p) ∷ m) = elim (Option-cases (lookup k whole)) [
  | inl e ↦ rw (e, walk) (walk_sound whole m)
  | inr (q, e) ↦ rw (e, walk) (e, walk_sound whole m)
]

pub lookup-nil : (k : Bytes) → lookup {V = KvPointer} k [] ≡ none
unfolding lookup
lookup-nil k = refl

abbrev pub assoc_skiplist : SkipList
assoc_skiplist = record {
  T = Pointers;
  new = [];
  set = insert;
  get = lookup;
  remove = erase;
  elements = λ t. walk t t;
  next_survives = λ t k. true;
  get-new = lookup-nil;
  get-set = λ k j p t. lookup-insert k j p t;
  get-remove = λ k j t. lookup-erase k j t;
  elements_sound = λ t. walk_sound t t;
}
