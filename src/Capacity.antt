-- ===== src/Capacity.antt =====
-- lrucache/capacity/capacityLRUCache.go: the LRU cache with a capacity in items and in bytes.
-- An operation returns the new state; the loops of the evictions take fuel, one round for each
-- element and one for the last test, and give `none` when it runs out. `int` sizes are bit
-- patterns (Base/Words). The mutex serialises the operations, so each is one step. Keys and
-- values are any types, the key's with an equality; logging is left out.
pub mod Valid
pub mod Evict
pub mod Add
pub mod Collect
pub mod Reads
use drt_go_chain_storage.Base.{
  ℕ, zero, suc, Eq, Bool, true, false, ◌||◌, Option, none, some, List, [], map, ltb, ◌==◌,
  if◌then◌else◌, ◌>>=◌, add64, sub64, is_negative, ltb_int64,
}
use drt_go_chain_storage.Base.GoMap.{GoMap, lookup, insert, delete, has}
use drt_go_chain_storage.Base.Linked
use drt_go_chain_storage.Base.Linked.{LinkedList, values, value?, elem_count, back}
use mathlib.Core.Option
use mathlib.Core.List.{reverse}

-- common.ErrCacheSizeInvalid, common.ErrCacheCapacityInvalid
pub data Error : Type 0 where
  cache_size_invalid cache_capacity_invalid : Error

pub data Result {ℓ} (A : Type ℓ) : Type ℓ where
  ok : A → Result A
  err : Error → Result A

pub record Entry {ℓ} (K V : Type ℓ) : Type ℓ where
  pub key : K
  pub value : V
  pub size : ℕ

pub record CapacityLru {ℓ} (K V : Type ℓ) : Type ℓ where
  pub size : ℕ
  pub max_capacity_in_bytes : ℕ
  pub current_capacity_in_bytes : ℕ
  pub evict_list : LinkedList (Entry K V)
  pub items : GoMap K ℕ

unfoldable pub new_capacity_lru {ℓ} : {K V : Type ℓ} → ℕ → ℕ → Result (CapacityLru K V)
new_capacity_lru size byte_capacity =
    if ltb_int64 size 1
    then err cache_size_invalid
    else if ltb_int64 byte_capacity 1
    then err cache_capacity_invalid
    else ok (record {
      size = size;
      max_capacity_in_bytes = byte_capacity;
      current_capacity_in_bytes = 0;
      evict_list = Linked.new_list;
      items = [];
    })

module _ {ℓ} {K V : Type ℓ} ⦃e : Eq K⦄ where
  unfoldable pub purge : CapacityLru K V → CapacityLru K V
  purge c = record c {
    items = [];
    evict_list = record { next = c.evict_list.next; elems = [] };
    current_capacity_in_bytes = 0;
  }

  unfoldable pub should_evict : CapacityLru K V → Bool
  should_evict c =
      if elem_count c.evict_list == 1
      then false
      else ltb c.size (elem_count c.evict_list)
        || ltb_int64 c.max_capacity_in_bytes c.current_capacity_in_bytes

  -- `e` is the element with its value
  unfoldable pub remove_element : ℕ × Entry K V → CapacityLru K V → CapacityLru K V
  remove_element (i, kv) c = record c {
    evict_list = Linked.remove i c.evict_list;
    items = delete kv.key c.items;
    current_capacity_in_bytes = sub64 c.current_capacity_in_bytes kv.size;
  }

  unfoldable pub remove_oldest : CapacityLru K V → CapacityLru K V
  remove_oldest c = elim (back c.evict_list) [ none ↦ c | some ent ↦ remove_element ent c ]

  unfoldable pub evict_loop : ℕ → Bool → CapacityLru K V → Option (CapacityLru K V × Bool)
  evict_loop zero evicted c = none
  evict_loop (suc fuel) evicted c =
      let rest = evict_loop fuel true (remove_oldest c) in
      if should_evict c then rest else some (c, evicted)

  unfoldable pub evict_if_needed : CapacityLru K V → Option (CapacityLru K V × Bool)
  evict_if_needed c = evict_loop (suc (elem_count c.evict_list)) false c

  unfoldable pub add_new : K → V → ℕ → CapacityLru K V → CapacityLru K V
  add_new key value size_in_bytes c =
      let ent : Entry K V = record { key = key; value = value; size = size_in_bytes } in
      let pushed = Linked.push_front ent c.evict_list in
      record c {
        evict_list = pushed.1;
        items = insert key pushed.0 c.items;
        current_capacity_in_bytes = add64 c.current_capacity_in_bytes size_in_bytes;
      }

  unfoldable pub adjust_size : K → ℕ → CapacityLru K V → Option (CapacityLru K V)
  adjust_size key size_in_bytes c = elim (lookup key c.items) [
    | none ↦ some c
    | some i ↦ elim (value? c.evict_list i) [
      | none ↦ some c
      | some v ↦
          Option.map (λ r. r.0)
            (evict_if_needed (record c {
              evict_list = Linked.write i (record v { size = size_in_bytes }) c.evict_list;
              current_capacity_in_bytes =
                  add64 (sub64 c.current_capacity_in_bytes v.size) size_in_bytes;
            }))
    ]
  ]

  -- `ent` is the element that the map holds under the key
  unfoldable pub update : K → V → ℕ → ℕ → CapacityLru K V → Option (CapacityLru K V)
  update key value size_in_bytes ent c =
      let moved = Linked.move_to_front ent c.evict_list in
      elim (value? moved ent) [
        | none ↦ none
        | some v ↦ adjust_size key size_in_bytes (record c {
          evict_list = Linked.write ent (record v { value = value; size = size_in_bytes }) moved;
          current_capacity_in_bytes =
              add64 c.current_capacity_in_bytes (sub64 size_in_bytes v.size);
        })
      ]

  -- the private `addSized`
  unfoldable pub add_sized_no_evict : K → V → ℕ → CapacityLru K V → Option (CapacityLru K V)
  add_sized_no_evict key value size_in_bytes c =
      if is_negative size_in_bytes then some c else elim (lookup key c.items) [
        | some ent ↦ update key value size_in_bytes ent c
        | none ↦ some (add_new key value size_in_bytes c)
      ]

  -- `AddSized`: the new state, and whether it reports an eviction
  unfoldable pub add_sized : K → V → ℕ → CapacityLru K V → Option (CapacityLru K V × Bool)
  add_sized key value size_in_bytes c = do
    c' ← add_sized_no_evict key value size_in_bytes c
    evict_if_needed c'

  unfoldable pub evict_and_collect :
      ℕ → GoMap K V → CapacityLru K V → Option (CapacityLru K V × GoMap K V)
  evict_and_collect zero evicted_values c = none
  evict_and_collect (suc fuel) evicted_values c =
      let rest : Option (CapacityLru K V × GoMap K V) = elim (back c.evict_list) [
        | none ↦ evict_and_collect fuel evicted_values c
        | some evicted ↦
            evict_and_collect fuel (insert evicted.1.key evicted.1.value evicted_values)
              (remove_element evicted c)
      ] in
      if should_evict c then rest else some (c, evicted_values)

  unfoldable pub add_sized_and_return_evicted :
      K → V → ℕ → CapacityLru K V → Option (CapacityLru K V × GoMap K V)
  add_sized_and_return_evicted key value size_in_bytes c = do
    c' ← add_sized_no_evict key value size_in_bytes c
    evict_and_collect (suc (elem_count c'.evict_list)) [] c'

  -- `AddSizedIfMissing`: the new state, whether the key was found, and whether one was evicted
  unfoldable pub add_sized_if_missing :
      K → V → ℕ → CapacityLru K V → Option (CapacityLru K V × Bool × Bool)
  add_sized_if_missing key value size_in_bytes c =
      if is_negative size_in_bytes
      then some (c, false, false)
      else if has key c.items
      then some (c, true, false)
      else do
        (c', evicted) ← evict_if_needed (add_new key value size_in_bytes c)
        some (c', false, evicted)

  unfoldable pub get : K → CapacityLru K V → CapacityLru K V × Option V
  get key c = elim (lookup key c.items) [
    | none ↦ (c, none)
    | some ent ↦
        let moved = Linked.move_to_front ent c.evict_list in
        (record c { evict_list = moved }, Option.map (λ v. v.value) (value? moved ent))
  ]

  unfoldable pub contains : K → CapacityLru K V → Bool
  contains key c = has key c.items

  unfoldable pub peek : K → CapacityLru K V → Option V
  peek key c = elim (lookup key c.items) [
    | none ↦ none
    | some ent ↦ Option.map (λ v. v.value) (value? c.evict_list ent)
  ]

  unfoldable pub remove : K → CapacityLru K V → CapacityLru K V × Bool
  remove key c = elim (lookup key c.items) [
    | none ↦ (c, false)
    | some ent ↦ elim (value? c.evict_list ent) [
      | none ↦ (c, true)
      | some kv ↦ (remove_element (ent, kv) c, true)
    ]
  ]

  -- oldest to newest
  unfoldable pub keys : CapacityLru K V → List K
  keys c = map (λ v. v.key) (reverse (values c.evict_list.elems))

  unfoldable pub size_in_bytes_contained : CapacityLru K V → ℕ
  size_in_bytes_contained c = c.current_capacity_in_bytes
