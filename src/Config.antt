-- ===== src/Config.antt =====
-- txcache/config.go: the checks of the configurations of the two caches of transactions.
pub mod Checked
use drt_go_chain_storage.Base.{ℕ, Bool, ◌||◌, Option, none, some, ltb, ◌==◌, if◌then◌else◌, length}
use drt_go_chain_storage.Base.Bytes.{Bytes}
use drt_go_chain_storage.SenderList.{SenderConstraints}

pub record ConfigSourceMe : Type 0 where
  pub name : Bytes
  pub num_chunks : ℕ
  pub eviction_enabled : Bool
  pub num_bytes_threshold : ℕ
  pub num_bytes_per_sender_threshold : ℕ
  pub count_threshold : ℕ
  pub count_per_sender_threshold : ℕ
  pub num_items_to_preemptively_evict : ℕ

-- the field that the message around common.ErrInvalidConfig names
pub data InvalidField : Type 0 where
  invalid_name invalid_num_chunks invalid_num_bytes_per_sender : InvalidField
  invalid_count_per_sender invalid_num_bytes invalid_count invalid_num_items_to_evict : InvalidField

unfoldable pub verify_source : ConfigSourceMe → Option InvalidField
verify_source config =
    if length config.name == 0
    then some invalid_name
    else if ltb config.num_chunks 1 || ltb 128 config.num_chunks
    then some invalid_num_chunks
    else if ltb config.num_bytes_per_sender_threshold 1
        || ltb 33554432 config.num_bytes_per_sender_threshold
    then some invalid_num_bytes_per_sender
    else if ltb config.count_per_sender_threshold 1
    then some invalid_count_per_sender
    else if ltb config.num_bytes_threshold 4 || ltb 1073741824 config.num_bytes_threshold
    then some invalid_num_bytes
    else if ltb config.count_threshold 4
    then some invalid_count
    else if ltb config.num_items_to_preemptively_evict 1
    then some invalid_num_items_to_evict
    else none

unfoldable pub get_sender_constraints : ConfigSourceMe → SenderConstraints
get_sender_constraints config = record {
  max_num_txs = config.count_per_sender_threshold;
  max_num_bytes = config.num_bytes_per_sender_threshold;
}

pub record ConfigDestinationMe : Type 0 where
  pub name : Bytes
  pub num_chunks : ℕ
  pub max_num_items : ℕ
  pub max_num_bytes : ℕ
  pub num_items_to_preemptively_evict : ℕ

unfoldable pub verify_destination : ConfigDestinationMe → Option InvalidField
verify_destination config =
    if length config.name == 0
    then some invalid_name
    else if ltb config.num_chunks 1 || ltb 128 config.num_chunks
    then some invalid_num_chunks
    else if ltb config.max_num_items 4
    then some invalid_count
    else if ltb config.max_num_bytes 4 || ltb 1073741824 config.max_num_bytes
    then some invalid_num_bytes
    else if ltb config.num_items_to_preemptively_evict 1
    then some invalid_num_items_to_evict
    else none
