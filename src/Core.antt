-- ===== src/Core.antt =====
-- What the program takes from drt-go-chain-core, whose text is not in this repository: the
-- operations are parameters, and the laws state what its documentation says of them.
use drt_go_chain_storage.Base.{
  ℕ, ◌^◌, ◌<◌, ◌≡◌, Bool, true, false, Option, add64, sub64, ltb, ltb_int64, if◌then◌else◌,
}
use drt_go_chain_storage.Base.Bytes.{Bytes}

-- core/atomic.Counter: an `int64`, here by its bit pattern
pub record Counter (C : Type 0) : Type 0 where
  pub zero_value : C
  pub get : C → ℕ
  pub get_uint64 : C → ℕ
  pub set : ℕ → C → C
  pub add : ℕ → C → C
  pub subtract : ℕ → C → C
  pub increment : C → C
  pub decrement : C → C
  pub reset : C → C

pub record CounterLaws {C : Type 0} (n : Counter C) : Type 0 where
  pub get-zero_value : n.get n.zero_value ≡ 0
  -- of a counter that is not negative
  pub get_uint64-get : (c : C) → n.get c < 2 ^ 63 → n.get_uint64 c ≡ n.get c
  pub get-set : (v : ℕ) (c : C) → n.get (n.set v c) ≡ v
  pub get-add : (v : ℕ) (c : C) → n.get (n.add v c) ≡ add64 (n.get c) v
  pub get-subtract : (v : ℕ) (c : C) → n.get (n.subtract v c) ≡ sub64 (n.get c) v
  pub get-increment : (c : C) → n.get (n.increment c) ≡ add64 (n.get c) 1
  pub get-reset : (c : C) → n.get (n.reset c) ≡ 0
  pub get-decrement : (c : C) → n.get (n.decrement c) ≡ sub64 (n.get c) 1

-- data.TransactionHandler, the getters that the transaction cache calls, and
-- data.RelayedTransactionHandler, whose getter not every transaction has
pub record TransactionHandler (T : Type 0) : Type 0 where
  pub get_nonce : T → ℕ
  pub get_gas_price : T → ℕ
  pub get_gas_limit : T → ℕ
  pub get_snd_addr : T → Bytes
  pub get_relayer_addr : T → Option Bytes

-- core/atomic.Flag
pub record Flag (F : Type 0) : Type 0 where
  pub unset : F
  pub is_set : F → Bool
  -- the flag set, and its previous value
  pub set_returning_previous : F → F × Bool
  pub reset : F → F

pub record FlagLaws {F : Type 0} (f : Flag F) : Type 0 where
  pub is_set-unset : f.is_set f.unset ≡ false
  pub is_set-set : (x : F) → f.is_set (f.set_returning_previous x).0 ≡ true
  pub is_set-reset : (x : F) → f.is_set (f.reset x) ≡ false

-- core.MaxInt and core.MaxUint32
pub record Maxima : Type 0 where
  pub max_int : ℕ → ℕ → ℕ
  pub max_uint32 : ℕ → ℕ → ℕ

pub record MaximaLaws (m : Maxima) : Type 0 where
  pub max_int-if : (a b : ℕ) → m.max_int a b ≡ (if ltb_int64 a b then b else a)
  pub max_uint32-if : (a b : ℕ) → m.max_uint32 a b ≡ (if ltb a b then b else a)
