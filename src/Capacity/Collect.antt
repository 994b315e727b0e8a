-- ===== src/Capacity/Collect.antt =====
-- AddSizedAndReturnEvicted of capacityLRUCache.go: its loop is the one of AddSized, and it collects
-- the values of the entries that go.
use drt_go_chain_storage.Base.{
  ℕ, zero, suc, ◌^◌, ◌<◌, Eq, ◌≡◌, refl, sym, ◌∙◌, ap, subst, Bool, true, false, Option, none, some,
  List, [], if◌then◌else◌, length, arith, Bool-cases, Option-cases, inl, inr, is_some, last?,
  drop_last, last?-eq-none,
}
use drt_go_chain_storage.Base.GoMap.{GoMap, lookup, insert, lookup-insert}
use drt_go_chain_storage.Base.Keyed.{DistinctKeys, find, find-erase, find-last, erase-last}
use drt_go_chain_storage.Base.Agree.{find_key-last}
use drt_go_chain_storage.Capacity.{
  Entry, CapacityLru, should_evict, remove_oldest, remove_element, evict_loop, evict_and_collect,
  add_sized, add_sized_no_evict, add_sized_and_return_evicted, evict_if_needed, add_new,
}
use drt_go_chain_storage.Capacity.Valid.{
  entries, total, entry_key, IsCoherent, IsValid, should_evict-over, length-entries, within-small,
}
use drt_go_chain_storage.Capacity.Evict.{over-nonempty, remove_oldest-Dropped, total-drop_last}
use drt_go_chain_storage.Capacity.Add.{
  touch, Added, add_sized-Added, add_new-IsCoherent, update-Added,
}
use mathlib.Core.Option

module _ {ℓ} {K V : Type ℓ} ⦃e : Eq K⦄ where
  evict_and_collect-evict_loop :
      (fuel : ℕ) (before : Bool) (acc : GoMap K V) (c : CapacityLru K V)
      → Option.map (λ r. r.0) (evict_and_collect fuel acc c)
        ≡ Option.map (λ r. r.0) (evict_loop fuel before c)
  unfolding evict_and_collect evict_loop remove_oldest
  evict_and_collect-evict_loop zero before acc c = refl
  evict_and_collect-evict_loop (suc fuel) before acc c = elim (Bool-cases (should_evict c)) [
    | inr done ↦ rw done
    | inl more ↦ elim (Option-cases (last? c.evict_list.elems)) [
      | inl empty ↦ rw (more, empty, remove_oldest) (evict_and_collect-evict_loop fuel true acc c)
      | inr (x, last) ↦
          rw (more, last, remove_oldest)
            (evict_and_collect-evict_loop fuel true (insert x.1.key x.1.value acc)
              (remove_element x c))
    ]
  ]

  -- AddSizedAndReturnEvicted leaves the cache that AddSized leaves.
  pub add_sized_and_return_evicted-add_sized :
      (k : K) (v : V) (s : ℕ) (c : CapacityLru K V)
      → Option.map (λ r. r.0) (add_sized_and_return_evicted k v s c)
        ≡ Option.map (λ r. r.0) (add_sized k v s c)
  unfolding add_sized_and_return_evicted add_sized evict_if_needed
  add_sized_and_return_evicted-add_sized k v s c =
      elim (Option-cases (add_sized_no_evict k v s c)) [
        | inl stuck ↦ rw stuck
        | inr (c', run) ↦
            rw run (evict_and_collect-evict_loop (suc (length c'.evict_list.elems)) false [] c')
      ]

  -- the value of a key that went, by the entries before and after
  abbrev pub gone : K → List (Entry K V) → List (Entry K V) → Option V → Option V
  gone q before after kept =
      if is_some (find entry_key q after)
      then kept
      else elim (find entry_key q before) [ none ↦ kept | some x ↦ some x.value ]

  -- what was collected under `q`, and that no key came in
  pub record Collected (q : K) (before after : List (Entry K V)) (kept evicted : Option V)
      : Type ℓ where
    pub shrunk : is_some (find entry_key q after) ≡ true → is_some (find entry_key q before) ≡ true
    pub values : evicted ≡ gone q before after kept

  Collected-here : (q : K) (l : List (Entry K V)) (kept : Option V) → Collected q l l kept kept
  Collected-here q l kept = record { shrunk = λ h. h; values = ground arith }

  -- after the last entry of `l` went into the map, the rest of the run is accounted for
  Collected-step :
      (q : K) (x : Entry K V) (l after : List (Entry K V)) (acc : GoMap K V) (evicted : Option V)
      → DistinctKeys entry_key l
      → last? l ≡ some x
      → Collected q (drop_last l) after (lookup q (insert x.key x.value acc)) evicted
      → Collected q l after (lookup q acc) evicted
  Collected-step q x l after acc evicted d last r =
      let left = erase-last entry_key l x d last in
      let found = find-erase entry_key x.key q l d in
      record {
        shrunk = λ h. ground (arith, r.shrunk h, left, found);
        values = ground (
          arith,
          r.shrunk,
          r.values,
          e.beq_iff x.key q,
          lookup-insert x.key q x.value acc,
          find-last entry_key l x d last,
          left,
          found,
        );
      }

  evict_and_collect-Collected :
      (fuel : ℕ) (acc : GoMap K V) (c : CapacityLru K V)
      → IsCoherent c
      → total (entries c) < 2 ^ 63
      → (c' : CapacityLru K V) (evicted : GoMap K V)
      → evict_and_collect fuel acc c ≡ some (c', evicted)
      → (q : K) → Collected q (entries c) (entries c') (lookup q acc) (lookup q evicted)
  unfolding evict_and_collect remove_oldest
  evict_and_collect-Collected zero acc c h small c' evicted run q = absurd (cc)
  evict_and_collect-Collected (suc fuel) acc c h small c' evicted run q =
      elim (Bool-cases (should_evict c)) [
        | inr done ↦
            let same : c ≡ c' = ground (arith, done, run) in
            let none_more : acc ≡ evicted = ground (arith, done, run) in
            subst (λ m. Collected q (entries c) (entries m) (lookup q acc) (lookup q evicted)) same
              (subst (λ m. Collected q (entries c) (entries c) (lookup q acc) (lookup q m))
                none_more (Collected-here q (entries c) (lookup q acc)))
        | inl more ↦
            let broken = sym (should_evict-over c h small) ∙ more in
            let many = over-nonempty c.size c.max_capacity_in_bytes (entries c) broken in
            let d = remove_oldest-Dropped c h many in
            let less = total-drop_last (entries c) in
            elim (Option-cases (last? c.evict_list.elems)) [
              | inl empty ↦
                  absurd (omega (arith, last?-eq-none c.evict_list.elems empty, length-entries c))
              | inr (x, last) ↦
                  let one : remove_oldest c ≡ remove_element x c = rw (last, remove_oldest) refl in
                  let here = (find_key-last entry_key c.evict_list.elems x h.agree.keys last).1 in
                  let left : entries (remove_element x c) ≡ drop_last (entries c) =
                    ap (entries {K = K} {V = V}) (sym one) ∙ d.left in
                  let acc' = insert x.1.key x.1.value acc in
                  let ran : evict_and_collect fuel acc' (remove_element x c) ≡ some (c', evicted) =
                    ground (arith, more, last, run) in
                  let rest =
                    evict_and_collect-Collected fuel acc' (remove_element x c)
                      (subst IsCoherent one d.coherent) (omega (arith, ap total left)) c' evicted
                      ran q in
                  Collected-step q x.1 (entries c) (entries c') acc (lookup q evicted) h.agree.keys
                    here
                    (subst (λ l. Collected q l (entries c') (lookup q acc') (lookup q evicted)) left
                      rest)
            ]
      ]

module _ {ℓ} {K V : Type ℓ} ⦃e : Eq K⦄ (k : K) (v : V) (s : ℕ) (c : CapacityLru K V)
    (valid : IsValid c) (fine : s < 2 ^ 63) (small : total (touch k v s (entries c)) < 2 ^ 63) where
  start_new :
      lookup k c.items ≡ none
      → add_sized_and_return_evicted k v s c
        ≡ evict_and_collect (suc (length (add_new k v s c).evict_list.elems)) [] (add_new k v s c)
  unfolding add_sized_and_return_evicted add_sized_no_evict
  start_new miss = ground (arith, miss)

  -- AddSizedAndReturnEvicted of a key that is not in the cache ends as AddSized does, and returns
  -- under each key the value of the entry that went, and nothing under the keys that stay. The size
  -- is not negative and the sizes add up to less than 2 ^ 63.
  pub add_sized_and_return_evicted_new :
      lookup k c.items ≡ none
      → (c' : CapacityLru K V) × (evicted : GoMap K V) × (add_sized_and_return_evicted k v s c
          ≡ some (c', evicted))
        × Added k v s c c'
        × ((q : K) → lookup q evicted ≡ gone q (touch k v s (entries c)) (entries c') none)
  unfolding lookup
  add_sized_and_return_evicted_new miss =
      let (c', r, run, added, flag) = add_sized-Added k v s c valid fine small in
      let same = add_sized_and_return_evicted-add_sized k v s c in
      let (coherent, left) = add_new-IsCoherent k v s c valid.coherent fine miss in
      elim (Option-cases (add_sized_and_return_evicted k v s c)) [
        | inl stuck ↦ absurd (ground (arith, stuck, run, same))
        | inr ((c'', evicted), ran) ↦
            let state : c' ≡ c'' = ground (arith, ran, run, same) in
            (
              c'',
              evicted,
              ran,
              subst (Added k v s c) state added,
              λ q.
                  subst (λ l. lookup q evicted ≡ gone q l (entries c'') none) left
                    (evict_and_collect-Collected _ [] (add_new k v s c) coherent
                      (omega (arith, ap total left)) c'' evicted (sym (start_new miss) ∙ ran)
                      q).values,
            )
      ]

  -- On a key that is in the cache, AddSizedAndReturnEvicted returns nothing and AddSized reports no
  -- eviction, whatever entries go. The cache is valid, the size is not negative and the sizes add up
  -- to less than 2 ^ 63.
  pub add_sized_update_silent :
      (i : ℕ)
      → lookup k c.items ≡ some i
      → (c' : CapacityLru K V) × (add_sized k v s c ≡ some (c', false))
        × (add_sized_and_return_evicted k v s c ≡ some (c', []))
        × Added k v s c c'
  unfolding add_sized_and_return_evicted add_sized add_sized_no_evict evict_and_collect
  add_sized_update_silent i there =
      let (c', run, added, again) = update-Added k v s c valid fine small i there in
      let calm =
        should_evict-over c' added.valid.coherent (within-small c' added.valid)
        ∙ added.valid.within in
      (c', ground (arith, there, run, again), ground (arith, there, run, calm), added)
