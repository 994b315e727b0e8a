-- ===== src/Tests/CapacityRuns.antt =====
-- Runs of the capacity cache on a state of two entries, and of the LRU cache over it.
use drt_go_chain_storage.Base.{
  ℕ, nat_eq, ◌≡◌, refl, Bool, true, false, not, ◌&&◌, none, some, [], ◌∷◌, arith, ltb, length,
  is_some, if◌then◌else◌,
}
use drt_go_chain_storage.Base.GoMap.{GoMap, lookup, has}
use drt_go_chain_storage.Base.Keyed.{find, find_key, erase}
use drt_go_chain_storage.Base.Linked.{find_id}
use drt_go_chain_storage.Base.Bytes.{bytes_eq}
use mathlib.Core.Option
use drt_go_chain_storage.Capacity.{
  CapacityLru, add_sized, add_sized_and_return_evicted, get, remove,
}
use drt_go_chain_storage.Capacity.Valid.{entries, entry_key, IsValid}
use drt_go_chain_storage.Capacity.Add.{touch, Added, add_sized-Added}
use drt_go_chain_storage.Capacity.Collect.{
  gone, add_sized_and_return_evicted_new, add_sized_update_silent,
}
use drt_go_chain_storage.Capacity.Reads.{Recalled, get-Recalled, remove-erase}
use drt_go_chain_storage.Lru.{LruCache, put, has_or_add}
use drt_go_chain_storage.Lru.Handlers.{has_or_add-put}

-- the keys 2 and 1, of 20 and 10 bytes, in a cache of two items and 100 bytes
abbrev two_entries : CapacityLru ℕ ℕ
two_entries = record {
  size = 2;
  max_capacity_in_bytes = 100;
  current_capacity_in_bytes = 30;
  evict_list = record {
    next = 2;
    elems =
        (1, record { key = 2; value = 200; size = 20 })
        ∷ (0, record { key = 1; value = 100; size = 10 })
        ∷ [];
  };
  items = (1, 0) ∷ (2, 1) ∷ [];
}

two_entries-IsValid : IsValid two_entries
unfolding lookup find find_key find_id
two_entries-IsValid = record {
  coherent = record {
    agree = record {
      ids = (refl, omega arith, (refl, omega arith, tt));
      keys = (refl, (refl, tt));
      once = (refl, (refl, tt));
      points = λ k. ground arith;
      count = refl;
    };
    bytes = refl;
    sizes = (omega arith, (omega arith, tt));
    positive = omega arith;
    capacity = omega arith;
  };
  within = refl;
}

add_sized-Added_example :
    (c' : CapacityLru ℕ ℕ) × (r : Bool) × (add_sized 3 300 40 two_entries ≡ some (c', r))
    × Added 3 300 40 two_entries c'
    × (r ≡ (
        not (has 3 two_entries.items)
        && ltb (length (entries c')) (length (touch 3 300 40 (entries two_entries)))))
unfolding erase
add_sized-Added_example =
    add_sized-Added 3 300 40 two_entries two_entries-IsValid (omega arith) (omega arith)

add_sized_and_return_evicted_new_example :
    (c' : CapacityLru ℕ ℕ) × (evicted : GoMap ℕ ℕ) × (add_sized_and_return_evicted 3 300 40
        two_entries
      ≡ some (c', evicted))
    × Added 3 300 40 two_entries c'
    × ((q : ℕ) → lookup q evicted ≡ gone q (touch 3 300 40 (entries two_entries)) (entries c') none)
unfolding lookup erase
add_sized_and_return_evicted_new_example =
    add_sized_and_return_evicted_new 3 300 40 two_entries two_entries-IsValid (omega arith)
      (omega arith) refl

add_sized_update_silent_example :
    (c' : CapacityLru ℕ ℕ) × (add_sized 1 300 90 two_entries ≡ some (c', false))
    × (add_sized_and_return_evicted 1 300 90 two_entries ≡ some (c', []))
    × Added 1 300 90 two_entries c'
unfolding lookup erase
add_sized_update_silent_example =
    add_sized_update_silent 1 300 90 two_entries two_entries-IsValid (omega arith) (omega arith) 0
      refl

get-Recalled_example :
    Recalled 1 two_entries (get 1 two_entries).0
    × ((get 1 two_entries).1 ≡ Option.map (λ x. x.value) (find entry_key 1 (entries two_entries)))
get-Recalled_example = get-Recalled 1 two_entries two_entries-IsValid

remove-erase_example :
    IsValid (remove 1 two_entries).0
    × (entries (remove 1 two_entries).0 ≡ erase entry_key 1 (entries two_entries))
    × ((remove 1 two_entries).1 ≡ is_some (find entry_key 1 (entries two_entries)))
remove-erase_example = remove-erase 1 two_entries two_entries-IsValid

-- an LRU cache of one item, with one handler
abbrev one_item : LruCache ℕ ℕ
one_item = record {
  cache = record {
    size = 1;
    max_capacity_in_bytes = 100;
    current_capacity_in_bytes = 10;
    evict_list = record {
      next = 1;
      elems = (0, record { key = 7 ∷ []; value = 70; size = 10 }) ∷ [];
    };
    items = (7 ∷ [], 0) ∷ [];
  };
  maxsize = 1;
  map_data_handlers = (1 ∷ [], 5) ∷ [];
}

has_or_add-put_example : has_or_add (8 ∷ []) 80 20 one_item ≡ (
    if has (8 ∷ []) one_item.cache.items
    then some (one_item, true, false, [])
    else Option.map (λ r. (r.0, false, true, r.2)) (put (8 ∷ []) 80 20 one_item))
has_or_add-put_example = has_or_add-put (8 ∷ []) 80 20 one_item refl
