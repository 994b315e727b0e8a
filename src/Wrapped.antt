-- ===== src/Wrapped.antt =====
-- txcache/wrappedTransaction.go: a transaction with its hash, its size and the fields that
-- `precomputeFields` fills in. The fee and the transferred value are `*big.Int`, `none` for nil;
-- they are amounts, which are not negative.
use Prim.Native.Nat.{Ordering}
use drt_go_chain_storage.Base.{
  ℕ, ◌/◌, ◌%◌, ◌^◌, Bool, true, false, Option, none, some, not, ltb, ◌==◌, if◌then◌else◌, length,
}
use drt_go_chain_storage.Base.Bytes.{Bytes, bytes_compare}
use drt_go_chain_storage.Core.{TransactionHandler}

pub record WrappedTransaction (T : Type 0) : Type 0 where
  pub tx : T
  pub tx_hash : Bytes
  pub sender_shard_id : ℕ
  pub receiver_shard_id : ℕ
  pub size : ℕ
  pub fee : Option ℕ
  pub price_per_unit : ℕ
  pub transferred_value : Option ℕ
  pub fee_payer : Bytes

-- MempoolHost of txcache/interface.go
pub record MempoolHost (T : Type 0) : Type 0 where
  pub compute_tx_fee : T → ℕ
  pub get_transferred_value : T → Option ℕ

module _ {T : Type 0} ⦃h : TransactionHandler T⦄ where
  unfoldable pub decide_fee_payer : WrappedTransaction T → Bytes
  decide_fee_payer w = elim (h.get_relayer_addr w.tx) [
    | none ↦ h.get_snd_addr w.tx
    | some addr ↦ if ltb 0 (length addr) then addr else h.get_snd_addr w.tx
  ]

  -- `Fee.Uint64()` is the low 64 bits
  unfoldable pub precompute_fields : MempoolHost T → WrappedTransaction T → WrappedTransaction T
  precompute_fields host w =
      let fee = host.compute_tx_fee w.tx in
      let gas_limit = h.get_gas_limit w.tx in
      record w {
        fee = some fee;
        price_per_unit = if gas_limit == 0 then w.price_per_unit else (fee % 2 ^ 64) / gas_limit;
        transferred_value = host.get_transferred_value w.tx;
        fee_payer = decide_fee_payer w;
      }

  unfoldable pub is_transaction_more_valuable_for_network :
      WrappedTransaction T → WrappedTransaction T → Bool
  is_transaction_more_valuable_for_network w other =
      let gas_limit = h.get_gas_limit w.tx in
      let gas_limit_other = h.get_gas_limit other.tx in
      if not (w.price_per_unit == other.price_per_unit)
      then ltb other.price_per_unit w.price_per_unit
      else if not (gas_limit == gas_limit_other)
      then ltb gas_limit_other gas_limit
      else elim (bytes_compare w.tx_hash other.tx_hash) [ Ordering.lt ↦ true | _ ↦ false ]

  -- the getters that the sorted lists use
  abbrev pub nonce : WrappedTransaction T → ℕ
  nonce w = h.get_nonce w.tx

  abbrev pub gas_price : WrappedTransaction T → ℕ
  gas_price w = h.get_gas_price w.tx

  abbrev pub sender_of : WrappedTransaction T → Bytes
  sender_of w = h.get_snd_addr w.tx
