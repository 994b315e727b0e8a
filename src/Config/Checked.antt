-- ===== src/Config/Checked.antt =====
-- What a configuration of txcache/config.go that passes its check gives to the caches.
use drt_go_chain_storage.Base.{◌≤◌, ◌<◌, ◌^◌, ◌≡◌, none, length, arith}
use drt_go_chain_storage.Config.{ConfigSourceMe, verify_source, get_sender_constraints}

-- A source configuration that passes its check has a name, between 1 and 128 chunks and limits
-- within their bounds, and gives each sender room for a transaction and for 1 to 2 ^ 25 bytes, and
-- no less than an item to evict.
pub verify_source-get_sender_constraints :
    (config : ConfigSourceMe)
    → verify_source config ≡ none
    → (0 < length config.name)
      × (1 ≤ config.num_chunks)
      × (config.num_chunks ≤ 128)
      × (4 ≤ config.num_bytes_threshold)
      × (config.num_bytes_threshold ≤ 2 ^ 30)
      × (4 ≤ config.count_threshold)
      × (1 ≤ (get_sender_constraints config).max_num_txs)
      × (1 ≤ (get_sender_constraints config).max_num_bytes)
      × ((get_sender_constraints config).max_num_bytes ≤ 2 ^ 25)
      × (1 ≤ config.num_items_to_preemptively_evict)
unfolding verify_source get_sender_constraints
verify_source-get_sender_constraints config h = ground (arith, h)
