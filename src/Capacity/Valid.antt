-- ===== src/Capacity/Valid.antt =====
-- The state of capacityLRUCache.go: the map and the list agree, the byte counter is the sum of the
-- sizes modulo 2 ^ 64, and the cache is within its limits or holds one entry.
use drt_go_chain_storage.Base.{
  ℕ, ◌+◌, ◌^◌, ◌%◌, ◌<◌, Eq, ◌≡◌, refl, Bool, some, false, ◌||◌, List, [], ◌∷◌, ltb, ◌==◌,
  if◌then◌else◌, length, All, arith, length-map,
}
use drt_go_chain_storage.Base.Linked.{values, remove_id}
use drt_go_chain_storage.Base.Keyed.{find, erase, values-remove_key}
use drt_go_chain_storage.Base.Agree.{Agree, Hit, remove-Agree}
use drt_go_chain_storage.Capacity.{Entry, CapacityLru, should_evict, remove_element}

-- the abstract cache: the entries, most recently used first
abbrev pub entries {ℓ} : {K V : Type ℓ} → CapacityLru K V → List (Entry K V)
entries c = values c.evict_list.elems

-- the sum of the sizes, with no bound
abbrev pub total {ℓ} : {K V : Type ℓ} → List (Entry K V) → ℕ
total [] = 0
total (x ∷ l) = x.size + total l

-- the entries break a limit, and are more than one
abbrev pub over {ℓ} : {K V : Type ℓ} → ℕ → ℕ → List (Entry K V) → Bool
over size max l = if length l == 1 then false else ltb size (length l) || ltb max (total l)

abbrev pub entry_key {ℓ} : {K V : Type ℓ} → Entry K V → K
entry_key x = x.key

within-small_entries {ℓ} :
    {K V : Type ℓ} (size max : ℕ) (l : List (Entry K V))
    → max < 2 ^ 63
    → All (λ x. x.size < 2 ^ 63) l
    → over size max l ≡ false
    → total l < 2 ^ 63
within-small_entries size max [] m a h = omega arith
within-small_entries size max (x ∷ []) m a h = omega arith
within-small_entries size max (x ∷ y ∷ l) m a h = ground arith

module _ {ℓ} {K V : Type ℓ} ⦃e : Eq K⦄ where
  -- what holds at every moment, also between the steps of an operation
  pub record IsCoherent (c : CapacityLru K V) : Type ℓ where
    pub agree : Agree entry_key c.items c.evict_list.next c.evict_list.elems
    pub bytes : c.current_capacity_in_bytes ≡ total (entries c) % 2 ^ 64
    pub sizes : All (λ x. x.size < 2 ^ 63) (entries c)
    pub positive : 0 < c.size
    pub capacity : c.max_capacity_in_bytes < 2 ^ 63

  -- what holds between the operations
  pub record IsValid (c : CapacityLru K V) : Type ℓ where
    pub coherent : IsCoherent c
    pub within : over c.size c.max_capacity_in_bytes (entries c) ≡ false

  pub length-entries : (c : CapacityLru K V) → length (entries c) ≡ length c.evict_list.elems
  length-entries c = length-map _ c.evict_list.elems

  pub should_evict-over :
      (c : CapacityLru K V)
      → IsCoherent c
      → total (entries c) < 2 ^ 63
      → should_evict c ≡ over c.size c.max_capacity_in_bytes (entries c)
  unfolding should_evict
  should_evict-over c h small = ground (arith, h.bytes, h.capacity, length-entries c)

  pub within-small : (c : CapacityLru K V) → IsValid c → total (entries c) < 2 ^ 63
  within-small c v =
      within-small_entries c.size c.max_capacity_in_bytes (entries c) v.coherent.capacity
        v.coherent.sizes v.within

module _ {ℓ} {K V : Type ℓ} ⦃e : Eq K⦄ where
  pub total-erase :
      (k : K) (l : List (Entry K V)) (a : Entry K V)
      → find entry_key k l ≡ some a
      → total (erase entry_key k l) + a.size ≡ total l
  unfolding find erase
  total-erase k [] a h = cc
  total-erase k (x ∷ l) a h = ground (arith, total-erase k l a)

  pub sizes-erase :
      (k : K) (l : List (Entry K V))
      → All (λ x. x.size < 2 ^ 63) l
      → All (λ x. x.size < 2 ^ 63) (erase entry_key k l)
  unfolding erase
  sizes-erase k [] a = tt
  sizes-erase k (x ∷ l) a = ground (arith, sizes-erase k l a.1)

  pub size-find :
      (k : K) (l : List (Entry K V)) (x : Entry K V)
      → All (λ x. x.size < 2 ^ 63) l
      → find entry_key k l ≡ some x
      → x.size < 2 ^ 63
  unfolding find
  size-find k [] x a h = cc
  size-find k (y ∷ l) x a h = ground (arith, size-find k l x a.1)

  -- what is left when the element of one key goes
  pub record Removed (c : CapacityLru K V) (k : K) (c' : CapacityLru K V) : Type ℓ where
    pub coherent : IsCoherent c'
    pub left : entries c' ≡ erase entry_key k (entries c)
    pub size : c'.size ≡ c.size
    pub capacity : c'.max_capacity_in_bytes ≡ c.max_capacity_in_bytes

  pub remove_element-Removed :
      (c : CapacityLru K V) (k : K) (i : ℕ) (a : Entry K V)
      → IsCoherent c
      → Hit entry_key k i c.evict_list.elems a
      → Removed c k (remove_element (i, a) c)
  unfolding remove_element
  remove_element-Removed c k i a h hit =
      let l = c.evict_list.elems in
      let left : values (remove_id i l) ≡ erase entry_key k (entries c) =
        rw hit.removed (values-remove_key entry_key k l) in
      let sum = total-erase k (entries c) a hit.found in
      let fine = size-find k (entries c) a h.sizes hit.found in
      record {
        coherent = record {
          agree = rw hit.keyed (remove-Agree entry_key l h.agree k i a hit);
          bytes = rw left (omega (arith, h.bytes));
          sizes = rw left (sizes-erase k (entries c) h.sizes);
          positive = h.positive;
          capacity = h.capacity;
        };
        left = left;
        size = refl;
        capacity = refl;
      }
