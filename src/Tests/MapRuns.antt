-- ===== src/Tests/MapRuns.antt =====
-- Runs of the concurrent map with one entry, and of the transactions by hash over it.
use drt_go_chain_storage.Base.{
  ◌++◌, length, ℕ, suc, ◌+◌, ◌≡◌, refl, true, false, not, Option, none, some, [], ◌∷◌, arith,
  is_some, if◌then◌else◌,
}
use drt_go_chain_storage.Base.Bytes.{Bytes, bytes_eq, bytes_beq}
use drt_go_chain_storage.Base.GoMap.{lookup}
use drt_go_chain_storage.ConcurrentMap.{
  ConcurrentMap, set_if_absent, remove, get, has_key, count, all_items, iter_cb, Chunk, fnv32,
  fnv32_loop,
}
use drt_go_chain_storage.ConcurrentMap.Laws.{
  IsValid, view, set_if_absent-view, remove-view, get-view, all_items-view,
}
use drt_go_chain_storage.Wrapped.{WrappedTransaction}
use drt_go_chain_storage.TxByHash.{TxByHashMap, add_tx, remove_tx, get_tx, clear}
use drt_go_chain_storage.TxByHash.Counted.{add_tx-remove_tx, clear-num_bytes}
use drt_go_chain_storage.Base.GoMap.{Distinct}
use drt_go_chain_storage.Tests.{word_counter, word_counter_laws}

abbrev one_entry : {V : Type 0} → V → ConcurrentMap V
one_entry v = record { n_chunks = 1; chunks = ((7 ∷ [], some v) ∷ []) ∷ [] }

abbrev one_number : ConcurrentMap ℕ
one_number = one_entry 70

one_entry-IsValid : {V : Type 0} → (v : V) → IsValid (one_entry v)
unfolding lookup
one_entry-IsValid v = record {
  positive = omega arith;
  chunked = refl;
  placed = ((refl, tt), (λ k h. omega arith), tt);
}

set_if_absent-view_example :
    (m' : ConcurrentMap ℕ) × (set_if_absent (8 ∷ []) (some 80) one_number
      ≡ some (m', not (is_some (view one_number (8 ∷ [])))))
    × IsValid m'
    × ((q : Bytes)
        → view m' q ≡ (
            if is_some (view one_number (8 ∷ []))
            then view one_number q
            else if bytes_beq (8 ∷ []) q
            then some (some 80)
            else view one_number q))
    × (count m'
        ≡ (if is_some (view one_number (8 ∷ [])) then count one_number else suc (count one_number)))
set_if_absent-view_example = set_if_absent-view (8 ∷ []) (some 80) one_number (one_entry-IsValid 70)

remove-view_example :
    (m' : ConcurrentMap ℕ) × (item : Option ℕ) × (item
      ≡ (elim (view one_number (7 ∷ [])) [ none ↦ none | some value ↦ value ]))
    × (remove (7 ∷ []) one_number ≡ some (m', item, is_some item))
    × IsValid m'
    × ((q : Bytes) → view m' q ≡ (if bytes_beq (7 ∷ []) q then none else view one_number q))
    × (count m' + (if is_some (view one_number (7 ∷ [])) then 1 else 0) ≡ count one_number)
remove-view_example = remove-view (7 ∷ []) one_number (one_entry-IsValid 70)

get-view_example :
    (get (7 ∷ []) one_number
      ≡ some
          (elim (view one_number (7 ∷ [])) [ none ↦ (none, false) | some value ↦ (value, true) ]))
    × (has_key (7 ∷ []) one_number ≡ some (is_some (view one_number (7 ∷ []))))
get-view_example = get-view (7 ∷ []) one_number (one_entry-IsValid 70)

all_items-view_example :
    (noted : Chunk ℕ) × (iter_cb (λ k v s. s ++ (k, v) ∷ []) (all_items one_number.chunks) []
      ≡ noted)
    × Distinct noted
    × ((k : Bytes) → lookup k noted ≡ view one_number k)
    × (length noted ≡ count one_number)
all_items-view_example = all_items-view one_number (one_entry-IsValid 70)

abbrev a_tx : ℕ → ℕ → WrappedTransaction ℕ
a_tx hash size = record {
  tx = 0;
  tx_hash = hash ∷ [];
  sender_shard_id = 0;
  receiver_shard_id = 0;
  size = size;
  fee = none;
  price_per_unit = 0;
  transferred_value = none;
  fee_payer = [];
}

abbrev one_tx : TxByHashMap ℕ ℕ
one_tx = record { backing_map = one_entry (a_tx 7 100); counter = 1; num_bytes = 100 }

add_tx-remove_tx_example :
    (a : TxByHashMap ℕ ℕ) × (b : TxByHashMap ℕ ℕ) × (add_tx (a_tx 8 50) one_tx ≡ some (a, true))
    × (get_tx (8 ∷ []) a ≡ some (some (a_tx 8 50)))
    × (remove_tx (8 ∷ []) a ≡ some (b, some (a_tx 8 50)))
    × ((q : Bytes) → view b.backing_map q ≡ view one_tx.backing_map q)
    × (a.counter ≡ suc 1)
    × (a.num_bytes ≡ 100 + 50)
    × (b.counter ≡ 1)
    × (b.num_bytes ≡ 100)
unfolding lookup fnv32 fnv32_loop bytes_beq
add_tx-remove_tx_example =
    add_tx-remove_tx word_counter_laws (a_tx 8 50) one_tx (one_entry-IsValid (a_tx 7 100)) refl
      (omega arith) (omega arith) (omega arith)

clear-num_bytes_example :
    ((q : Bytes) → get_tx q (clear one_tx) ≡ some none)
    × ((clear one_tx).counter ≡ 0)
    × ((clear one_tx).num_bytes ≡ 100)
clear-num_bytes_example = clear-num_bytes word_counter_laws one_tx (one_entry-IsValid (a_tx 7 100))
