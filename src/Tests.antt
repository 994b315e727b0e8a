-- ===== src/Tests.antt =====
-- Concrete values of the parameters, for the runs below: counters that are 64-bit words, flags that
-- are Booleans, transactions of a nonce and a gas price.
mod CapacityRuns
mod SenderRuns
mod ImmunityRuns
mod MapRuns
mod SelectionRuns
mod CacheRuns
mod TimeRuns
mod UnitRuns
use drt_go_chain_storage.Base.{
  ℕ, ◌+◌, ◌%◌, ◌^◌, ◌≡◌, refl, Bool, true, false, Option, none, List, [], ◌∷◌, add64, sub64, ltb,
  ltb_int64, if◌then◌else◌, arith,
}
use drt_go_chain_storage.Base.Bytes.{Bytes}
use drt_go_chain_storage.Core.{
  Counter, CounterLaws, Flag, FlagLaws, Maxima, MaximaLaws, TransactionHandler,
}

instance abbrev pub word_counter : Counter ℕ
word_counter = record {
  zero_value = 0;
  get = λ c. c;
  get_uint64 = λ c. c;
  set = λ v c. v;
  add = λ v c. add64 c v;
  subtract = λ v c. sub64 c v;
  increment = λ c. add64 c 1;
  decrement = λ c. sub64 c 1;
  reset = λ c. 0;
}

pub word_counter_laws : CounterLaws word_counter
word_counter_laws = record {
  get-zero_value = refl;
  get_uint64-get = λ c h. refl;
  get-set = λ v c. refl;
  get-add = λ v c. refl;
  get-subtract = λ v c. refl;
  get-increment = λ c. refl;
  get-decrement = λ c. refl;
  get-reset = λ c. refl;
}

instance abbrev pub bool_flag : Flag Bool
bool_flag = record {
  unset = false;
  is_set = λ x. x;
  set_returning_previous = λ x. (true, x);
  reset = λ x. false;
}

pub bool_flag_laws : FlagLaws bool_flag
bool_flag_laws = record { is_set-unset = refl; is_set-set = λ x. refl; is_set-reset = λ x. refl }

abbrev pub maxima : Maxima
maxima = record {
  max_int = λ a b. if ltb_int64 a b then b else a;
  max_uint32 = λ a b. if ltb a b then b else a;
}

pub maxima_laws : MaximaLaws maxima
maxima_laws = record { max_int-if = λ a b. refl; max_uint32-if = λ a b. refl }

-- the nonce and the gas price, of one sender
instance abbrev pub pair_transaction : TransactionHandler (ℕ × ℕ)
pair_transaction = record {
  get_nonce = λ t. t.0;
  get_gas_price = λ t. t.1;
  get_gas_limit = λ t. 50000;
  get_snd_addr = λ t. 1 ∷ 2 ∷ [];
  get_relayer_addr = λ t. none;
}

-- the sender, the nonce and the gas limit
instance abbrev pub sender_transaction : TransactionHandler (ℕ × ℕ × ℕ)
sender_transaction = record {
  get_nonce = λ t. t.1;
  get_gas_price = λ t. 1;
  get_gas_limit = λ t. t.2;
  get_snd_addr = λ t. t.0 ∷ [];
  get_relayer_addr = λ t. none;
}
