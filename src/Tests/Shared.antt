-- ===== src/Tests/Shared.antt =====
-- A shared cache of 100 bytes, and an instance of each theorem on it that has hypotheses.
use theo_extension.Common.{ℕ, ◌≡◌, refl, some, List, [], ◌∷◌, arith}
use theo_extension.Common.Bytes.{bytes_beq}
use theo_extension.SharedCache.{
  SharedByteCache, new_shared_byte_cache, is_item, find_item, unlink, touch_entry, candidates,
  from_back, worst, worst_of, evict, push_entry, add, get, get_no_touch, bump_item, remove,
  remove_all, remove_namespace,
}
use theo_extension.SharedCache.Added.{IsCache}
use theo_extension.SharedCache.Reached.{
  Call, add_value, get_value, get_value_no_touch, remove_value, remove_values, call, calls,
  calls-IsCache, get-add,
}

abbrev history : List (Call ℕ)
history =
    add_value 0 (1 ∷ []) 11 40
    ∷ add_value 1 (1 ∷ []) 12 30
    ∷ get_value 0 (1 ∷ [])
    ∷ add_value 0 (2 ∷ []) 13 50
    ∷ get_value_no_touch 1 (1 ∷ [])
    ∷ remove_value 1 (1 ∷ [])
    ∷ remove_values 2
    ∷ []

abbrev used_cache : SharedByteCache ℕ
used_cache = calls history (new_shared_byte_cache 100)

calls-IsCache_example : IsCache used_cache
calls-IsCache_example = calls-IsCache history 100 (omega arith)

get-add_example : (get 0 (3 ∷ []) (add 0 (3 ∷ []) 14 60 used_cache)).0 ≡ some 14
unfolding calls call is_item find_item unlink touch_entry candidates from_back worst worst_of evict
    push_entry add get get_no_touch bump_item remove remove_all remove_namespace bytes_beq
get-add_example =
    get-add 0 (3 ∷ []) 14 60 used_cache (calls-IsCache history 100 (omega arith)) (omega arith)
      (omega arith)

evicted : used_cache.used_bytes ≡ 90
unfolding calls call is_item find_item unlink touch_entry candidates from_back worst worst_of evict
    push_entry add get get_no_touch bump_item remove remove_all remove_namespace bytes_beq
evicted = refl
