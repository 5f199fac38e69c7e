-- ===== src/Tests/Caches.antt =====
-- Runs of the account hash cache, with room for two keys.
use theo_extension.Common.{List, ℕ, ◌≡◌, refl, some, none, [], ◌∷◌, arith, replicate}
use theo_extension.Tests.Program.{program}
use theo_extension.Common.Bytes.{Bytes, bytes_eq}
use theo_extension.AccountCache.{
  AccountHashToKeyCache, new_account_hash_to_key_cache, get_key, put_key,
}
use theo_extension.AccountCache.Range.{IsInRange}
use theo_extension.AccountCache.Reached.{Call, getting, putting, run, run-IsInRange}
use theo_extension.AccountCache.ReadBack.{get_key-put_key}

abbrev hash : ℕ → Bytes
hash n = replicate 32 n

abbrev two_keys : AccountHashToKeyCache
two_keys =
    put_key (hash 2) (7 ∷ 8 ∷ []) (put_key (hash 1) (9 ∷ []) (new_account_hash_to_key_cache 2))

-- A third key takes the place of the first.
evicted : (get_key (hash 1) (put_key (hash 3) (5 ∷ []) two_keys)).0 ≡ none
unfolding program
evicted = refl

-- A key that was read stays.
kept :
    (get_key (hash 1) (put_key (hash 3) (5 ∷ []) (get_key (hash 1) two_keys).1)).0 ≡ some (9 ∷ [])
unfolding program
kept = refl

abbrev two_calls : List Call
two_calls = putting (hash 1) (9 ∷ []) ∷ putting (hash 2) (7 ∷ 8 ∷ []) ∷ getting (hash 1) ∷ []

run-IsInRange_example : IsInRange (run two_calls (new_account_hash_to_key_cache 2))
run-IsInRange_example = run-IsInRange 2 two_calls

get_key-put_key_example :
    (get_key
      (hash 3)
      (put_key (hash 3) (5 ∷ 6 ∷ []) (run two_calls (new_account_hash_to_key_cache 2)))).0
    ≡ some (5 ∷ 6 ∷ [])
get_key-put_key_example =
    get_key-put_key 2 two_calls (hash 3) (5 ∷ 6 ∷ []) refl (omega arith) (omega arith)
