-- ===== src/Tests/UnitRuns.antt =====
-- Runs of the storage unit over the database in memory, with the time cacher in front.
use drt_go_chain_storage.Base.{◌-◌, ℕ, ◌≡◌, refl, ◌⊎◌, inl, inr, [], ◌∷◌}
use drt_go_chain_storage.Base.Bytes.{Bytes, bytes_eq}
use drt_go_chain_storage.Base.GoMap.{GoMap, lookup, Distinct}
use drt_go_chain_storage.MemoryDb.{DbError}
use drt_go_chain_storage.MemoryDb.Persisted.{ValidDb, memory_persister, memory_persister_laws}
use drt_go_chain_storage.TimeCache.Cacher.{TimeCacher}
use drt_go_chain_storage.TimeCache.Cached.{
  swept_state, swept-IsFit, TimedState, IsFit, time_cacher, time_cacher_laws,
}
use drt_go_chain_storage.StorageUnit.{Cacher, StorageUnit, put, get}
use drt_go_chain_storage.StorageUnit.Coherent.{IsCoherent, Run, Step, Run-IsCoherent, get-put}

-- the clock moves by one with each reading
abbrev clock : ℕ → ℕ
clock n = n

abbrev cacher : Cacher (TimedState ℕ ℕ)
cacher = time_cacher clock

abbrev nothing_cached : TimeCacher Bytes ℕ ℕ
nothing_cached = record {
  time_cache = record { entries = []; default_span = 5000000000 };
  cache_expiry = 1000000000;
  map_data_handlers = [];
}

nothing_cached-IsFit : IsFit nothing_cached
unfolding lookup
nothing_cached-IsFit = record { distinct = tt; no_empty = refl; filled = λ k. refl }

abbrev UnitState : Type 0
UnitState = StorageUnit (TimedState ℕ ℕ) ValidDb

abbrev one_entry : GoMap Bytes Bytes
one_entry = (1 ∷ [], 7 ∷ []) ∷ []

one_entry-Distinct : Distinct one_entry
unfolding lookup
one_entry-Distinct = (refl, tt)

-- nothing is cached, and one key is stored
abbrev one_key : UnitState
one_key = record {
  persister = (record { db = one_entry }, one_entry-Distinct);
  cacher = ((nothing_cached, nothing_cached-IsFit), 0);
}

one_key-IsCoherent :
    IsCoherent cacher memory_persister
      (time_cacher_laws clock)
      memory_persister_laws
      one_key.cacher
      one_key.persister
unfolding lookup time_cacher_laws
one_key-IsCoherent q = inl refl

abbrev after_get : UnitState
after_get = (get cacher memory_persister (1 ∷ []) one_key).0

abbrev after_put : UnitState
after_put = (put cacher memory_persister (2 ∷ []) (8 ∷ []) after_get).0

abbrev elapsed : ℕ → ℕ → ℕ
elapsed now then = now - then

-- the cache swept at a late reading of the clock
abbrev after_sweep : UnitState
after_sweep = record after_put { cacher = swept_state elapsed (λ i. 9000000000) after_put.cacher }

sweep-Step :
    Step cacher memory_persister
      (time_cacher_laws clock)
      memory_persister_laws
      after_put
      after_sweep
unfolding time_cacher_laws
sweep-Step =
    Step.forgets after_sweep.cacher after_put
      (swept-IsFit elapsed (λ i. 9000000000) after_put.cacher.0.0 after_put.cacher.0.1).1

-- a Get, then a Put, then a sweep of the cache
get_put_and_sweep :
    Run cacher memory_persister (time_cacher_laws clock) memory_persister_laws one_key after_sweep
get_put_and_sweep =
    Run.steps
      (Run.steps (Run.steps (Run.stays one_key) (Step.gets (1 ∷ []) one_key))
        (Step.puts (2 ∷ []) (8 ∷ []) after_get))
      sweep-Step

Run-IsCoherent_example :
    IsCoherent cacher memory_persister
      (time_cacher_laws clock)
      memory_persister_laws
      after_sweep.cacher
      after_sweep.persister
Run-IsCoherent_example =
    Run-IsCoherent cacher memory_persister (time_cacher_laws clock) memory_persister_laws
      get_put_and_sweep one_key-IsCoherent

get-put_example :
    ((get cacher memory_persister
        (2 ∷ [])
        (put cacher memory_persister (2 ∷ []) (8 ∷ []) one_key).0).1
      ≡ inl (8 ∷ []))
    ⊎ ((e : DbError) × (memory_persister.get
            (2 ∷ [])
            (put cacher memory_persister (2 ∷ []) (8 ∷ []) one_key).0.persister
          ≡ inr e)
        × ((get cacher memory_persister
              (2 ∷ [])
              (put cacher memory_persister (2 ∷ []) (8 ∷ []) one_key).0).1
            ≡ inr e))
unfolding put
get-put_example =
    get-put cacher memory_persister (time_cacher_laws clock) memory_persister_laws (2 ∷ []) (8 ∷ [])
      one_key one_key-IsCoherent refl
