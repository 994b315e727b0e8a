-- ===== src/Tests/TimeRuns.antt =====
-- Runs of the time cache, with times that are numbers.
use drt_go_chain_storage.Base.{
  ℕ, ◌-◌, ◌≡◌, refl, none, some, [], ◌∷◌, arith, is_some, if◌then◌else◌,
}
use drt_go_chain_storage.Base.Bytes.{Bytes, bytes_eq, bytes_beq}
use drt_go_chain_storage.Base.GoMap.{lookup, Distinct}
use drt_go_chain_storage.TimeCache.{TimeCacheCore, sweep, put, upsert}
use drt_go_chain_storage.TimeCache.Swept.{Fate, sweep-Fate}
use drt_go_chain_storage.TimeCache.Kept.{put-sweep, upserted, upsert-upserted}

abbrev since : ℕ → ℕ → ℕ
since now then_ = now - then_

-- the key 1 since the time 10 for 5, the key 2 since the time 10 for 20
abbrev two_keys : TimeCacheCore ℕ ℕ
two_keys = record {
  entries =
      (1 ∷ [], record { timestamp = 10; span = 5; value = some 7 })
      ∷ (2 ∷ [], record { timestamp = 10; span = 20; value = none })
      ∷ [];
  default_span = 5;
}

two_keys-Distinct : Distinct two_keys.entries
unfolding lookup bytes_beq
two_keys-Distinct = (refl, (refl, tt))

-- at the time 18
sweep-Fate_example :
    Fate since
      (λ i. 18)
      2
      (lookup (1 ∷ []) two_keys.entries)
      (lookup (1 ∷ []) two_keys.entries)
      (lookup (1 ∷ []) (sweep since (λ i. 18) two_keys).entries)
    × Distinct (sweep since (λ i. 18) two_keys).entries
sweep-Fate_example = sweep-Fate since (λ i. 18) (1 ∷ []) two_keys two_keys-Distinct

put-sweep_example :
    (c' : TimeCacheCore ℕ ℕ) × (put 18 (3 ∷ []) (some 9) 30 two_keys ≡ some c')
    × (lookup (3 ∷ []) (sweep since (λ i. 40) c').entries
        ≡ some (record { timestamp = 18; span = 30; value = some 9 }))
put-sweep_example =
    put-sweep since (λ i. 40) 18 (3 ∷ []) (some 9) 30 two_keys two_keys-Distinct (omega arith)
      (omega arith) (λ i. omega arith)

-- the key 2 is there with the longer span
upsert-upserted_example :
    (c' : TimeCacheCore ℕ ℕ) × (upsert 18 (2 ∷ []) (some 9) 15 two_keys
      ≡ some (c', is_some (lookup (2 ∷ []) two_keys.entries)))
    × Distinct c'.entries
    × (c'.default_span ≡ 5)
    × ((q : Bytes)
        → lookup q c'.entries ≡ (
            if bytes_beq (2 ∷ []) q
            then some (upserted 18 (some 9) 15 (lookup (2 ∷ []) two_keys.entries))
            else lookup q two_keys.entries))
upsert-upserted_example =
    upsert-upserted 18 (2 ∷ []) (some 9) 15 two_keys two_keys-Distinct (omega arith)
