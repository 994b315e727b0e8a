-- ===== src/TimeCache/Kept.antt =====
-- upsert and put of timecache/timeCacheCore.go on the entry of one key.
use drt_go_chain_storage.Base.{
  ℕ, ◌<◌, ◌≤◌, ◌^◌, ◌≡◌, refl, ◌∙◌, subst, false, Option, none, some, ◌==◌, if◌then◌else◌, arith,
  ltb_int64, is_some, length, Option-cases, inl, inr,
}
use drt_go_chain_storage.Base.Bytes.{Bytes, bytes_eq, bytes_beq, bytes_beq_iff}
use drt_go_chain_storage.Base.GoMap.{lookup, insert, Distinct, lookup-insert, insert-Distinct}
use drt_go_chain_storage.TimeCache.{Entry, TimeCacheCore, store, upsert, put, sweep}
use drt_go_chain_storage.TimeCache.Swept.{is_old, Fate, sweep-Fate}

module _ {V M : Type 0} where
  -- the entry that upsert leaves: the longer span, the new reading and the old value
  abbrev pub upserted : M → Option V → ℕ → Option (Entry V M) → Entry V M
  upserted now value duration none = record { timestamp = now; span = duration; value = value }
  upserted now value duration (some e) = record {
    timestamp = now;
    span = if ltb_int64 e.span duration then duration else e.span;
    value = e.value;
  }

  -- On a key that is not empty, upsert of a time cache in which no key stands twice reports whether
  -- the key was there, writes the reading of the clock, the longer of the two spans and the old
  -- value under the key, or the new entry if there was none, and touches no other key; no key
  -- stands twice afterwards.
  pub upsert-upserted :
      (now : M) (key : Bytes) (value : Option V) (duration : ℕ) (c : TimeCacheCore V M)
      → Distinct c.entries
      → 0 < length key
      → (c' : TimeCacheCore V M) × (upsert now key value duration c
          ≡ some (c', is_some (lookup key c.entries)))
        × Distinct c'.entries
        × (c'.default_span ≡ c.default_span)
        × ((q : Bytes)
            → lookup q c'.entries ≡ (
                if bytes_beq key q
                then some (upserted now value duration (lookup key c.entries))
                else lookup q c.entries))
  unfolding upsert store
  upsert-upserted now key value duration c d long =
      let not_empty : (length key == 0) ≡ false = ground (arith, long) in
      elim (Option-cases (lookup key c.entries)) [
        | inl absent ↦ (
          store now key value duration c,
          rw (not_empty, absent) refl,
          insert-Distinct key (upserted now value duration none) c.entries d,
          refl,
          λ q. rw absent (lookup-insert key q (upserted now value duration none) c.entries),
        )
        | inr (e, there) ↦ (
          record c { entries = insert key (upserted now value duration (some e)) c.entries },
          rw (not_empty, there) refl,
          insert-Distinct key (upserted now value duration (some e)) c.entries d,
          refl,
          λ q. rw there (lookup-insert key q (upserted now value duration (some e)) c.entries),
        )
      ]

  -- A value that is put under a key that is not empty is still there after a sweep at whose readings of
  -- the clock no more than its span has gone by. No key stands twice; the span and the times gone by
  -- are below 2 ^ 63.
  pub put-sweep :
      (since : M → M → ℕ) (readings : ℕ → M) (now : M) (key : Bytes) (value : Option V)
      (duration : ℕ) (c : TimeCacheCore V M)
      → Distinct c.entries
      → 0 < length key
      → duration < 2 ^ 63
      → ((i : ℕ) → since (readings i) now ≤ duration)
      → (c' : TimeCacheCore V M) × (put now key value duration c ≡ some c')
        × (lookup key (sweep since readings c').entries
            ≡ some (record { timestamp = now; span = duration; value = value }))
  unfolding put store
  put-sweep since readings now key value duration c d long short young =
      let not_empty : (length key == 0) ≡ false = ground (arith, long) in
      let e : Entry V M = record { timestamp = now; span = duration; value = value } in
      let c' = store now key value duration c in
      let distinct = insert-Distinct key e c.entries d in
      let there : lookup key c'.entries ≡ some e =
        lookup-insert key key e c.entries ∙ rw ((bytes_beq_iff key key).1 refl) refl in
      let (i, less, after) =
        subst
          (λ o.
            Fate since readings (length c'.entries) o o
              (lookup key (sweep since readings c').entries))
          there (sweep-Fate since readings key c' distinct).0 in
      let kept : is_old since readings i e ≡ false = ground (arith, young i, short) in
      (c', rw not_empty refl, after ∙ rw kept refl)
