-- ===== src/BlockLog/Skiplist.antt =====
-- The skip list that the block log indexes its recent keys with (github.com/huandu/skiplist), as an
-- interface: the log relies on a map that it can also go through.
pub mod Assoc
use theo_extension.Common.{ℕ, ◌≡◌, Bool, Option, none, some, List, ◌∷◌, if◌then◌else◌, All}
use theo_extension.Common.Bytes.{Bytes, bytes_beq}
use theo_extension.BlockLog.Entry.{KvPointer}

pub record SkipList : Type 1 where
  pub T : Type 0
  pub new : T
  pub set : Bytes → KvPointer → T → T
  pub get : Bytes → T → Option KvPointer
  pub remove : Bytes → T → T
  -- What `Front` and `Next` go through.
  pub elements : T → List (Bytes × KvPointer)
  -- Whether `Next` goes on from an element that has just been removed.
  pub next_survives : T → Bytes → Bool
  pub get-new : (k : Bytes) → get k new ≡ none
  pub get-set :
      (k j : Bytes) (p : KvPointer) (t : T)
      → get j (set k p t) ≡ (if bytes_beq k j then some p else get j t)
  pub get-remove :
      (k j : Bytes) (t : T) → get j (remove k t) ≡ (if bytes_beq k j then none else get j t)
  pub elements_sound : (t : T) → All (λ e. get e.0 t ≡ some e.1) (elements t)
