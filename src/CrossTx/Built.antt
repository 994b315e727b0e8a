-- ===== src/CrossTx/Built.antt =====
-- NewCrossTxCache of txcache/crossTxCache.go and its two checks.
use drt_go_chain_storage.Base.{◌⊎◌, inl, inr, ◌≡◌, refl, none, some, arith, Option-cases}
use drt_go_chain_storage.Core.{Counter, Flag, Maxima}
use drt_go_chain_storage.Wrapped.{WrappedTransaction}
use drt_go_chain_storage.Config.{ConfigDestinationMe, InvalidField, verify_destination}
use drt_go_chain_storage.Immunity.{verify}
use drt_go_chain_storage.Immunity.Cache.{IsValid, new_immunity_cache-IsValid}
use drt_go_chain_storage.CrossTx.{CrossTxCache, new_cross_tx_cache, immunity_cache_config}

-- what passes the check of txcache passes the check of immunitycache
verify_destination-verify :
    (config : ConfigDestinationMe)
    → verify_destination config ≡ none
    → verify (immunity_cache_config config) ≡ none
unfolding verify_destination verify immunity_cache_config
verify_destination-verify config h = ground (arith, h)

module _ {T F C : Type 0} ⦃f : Flag F⦄ ⦃n : Counter C⦄ where
  -- NewCrossTxCache gives the error of its own check, or else a valid cache with the given
  -- configuration: the second check, of the immunity cache, never fails.
  pub new_cross_tx_cache-IsValid :
      (m : Maxima) (config : ConfigDestinationMe)
      → ((e : InvalidField) × (verify_destination config ≡ some e)
          × (new_cross_tx_cache {T = T} {F = F} {C = C} m config ≡ inr (inl e)))
        ⊎ ((c : CrossTxCache T F C) × (new_cross_tx_cache m config ≡ inl c)
            × IsValid c.immunity_cache
            × (c.config ≡ config))
  unfolding new_cross_tx_cache
  new_cross_tx_cache-IsValid m config = elim (Option-cases (verify_destination config)) [
    | inr (e, bad) ↦ inl (e, bad, rw (bad, new_cross_tx_cache) refl)
    | inl good ↦
        elim (new_immunity_cache-IsValid {P = WrappedTransaction T} {F = F} {C = C} m
          (immunity_cache_config config)) [
            | inl (e, bad, _) ↦ absurd (cc (bad, verify_destination-verify config good))
            | inr (cache, built, valid, _, _) ↦ inr (
              record { immunity_cache = cache; config = config },
              rw (good, built, new_cross_tx_cache) refl,
              valid,
              refl,
            )
          ]
  ]
