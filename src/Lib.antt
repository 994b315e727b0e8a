-- ===== src/Lib.antt =====
-- A verification library for the storage module of the chain: its caches and the pools of
-- transactions, modelled from the Go text and proved against abstract specifications.
--
-- The parts and their files. A file below a part's file holds the properties of that part.
--   Capacity      lrucache/capacity/capacityLRUCache.go: the LRU cache with a capacity in bytes. The
--                 abstract cache is the list of entries, most recently used first.
--   Lru           lrucache/lrucache.go over it, with the handlers for added data.
--   Wrapped       txcache/wrappedTransaction.go: the precomputed fields and the order by value.
--   SenderList    txcache/txListForSender.go: the transactions of one sender, by nonce, gas price and
--                 hash. Its specification is the ordered insertion of SenderList/Order.
--   ConcurrentMap txcache/maps/concurrentMap.go: a map in chunks by the hash of the key. Its
--                 specification is the abstract map `view`.
--   TxByHash      txcache/txByHashMap.go: the transactions by hash over that map, with counters.
--   TxBySender    txcache/txListBySenderMap.go: the lists of the senders over that map.
--   Selection     txcache/selection.go with transactionsHeapItem.go, transactionsHeap.go and
--                 selectionSessionWrapper.go: the selection of transactions for a block.
--   TxCache       txcache/txCache.go and eviction.go: the cache of transactions over the two maps. Its
--                 abstract view is the transaction of each hash and the transactions of each sender.
--   TimeCache     timecache/timeCacheCore.go, timeCache.go and timeCacher.go: keys held for a span of time.
--                 TimeCache/Cached is the time cacher as a cacher of StorageUnit.
--   Config        txcache/config.go: the check of a configuration.
--   StorageUnit   storageUnit/storageunit.go: a cacher in front of a persister, both given by their
--                 interfaces of types/interface.go as records of operations and laws.
--   MemoryDb      memorydb/memorydb.go: the database in memory, as such a persister.
--   Immunity      immunitycache/cache.go and config.go: the immunity cache over its chunks.
--   Immunity/Chunk immunitycache/chunk.go and cacheItem.go: one chunk, whose immune items stay.
--   CrossTx       txcache/crossTxCache.go over the immunity cache.
--   Core          what is taken from drt-go-chain-core, as parameters with their documented laws.
--   Base          shared names and lemmas: Go's maps, `container/list` with handles,
--                 `container/heap`, byte strings,
--                 machine words, and the pair of a map and a list that two of the caches keep.
--   Tests         runs at concrete inputs.
--
-- The state of each part is a record with the fields of the Go struct, and each method is a function
-- from the state to the new state and the results, under the Go name in this library's spelling. A
-- pointer to a list element is a handle. A mutex makes the method that holds it one step, so mutexes
-- are left out. An `int` or `int64` is its bit pattern below 2 ^ 64. Logging and monitoring are
-- left out.
--
-- The loops that evict take fuel: in Capacity one round for each element and one for the last test,
-- in Immunity/Chunk the number of items and one. A round takes out an element or is the last one, so
-- the fuel is enough. The loop of SenderList has a round for each transaction. The loops of Selection and
-- of TxCache/Eviction have a round for each transaction of the heap and one more: a round moves an item
-- of the heap to its next transaction, takes an item out, or is the last one.
--
-- Not modelled: the diagnosis of the transaction cache, the FIFO cache, the LevelDB and sharded
-- persisters, the adapters of caches, the factories; the caches over third-party LRU libraries; logging,
-- printing and interface checks.
mod Base
pub mod Capacity
pub mod Lru
pub mod Core
pub mod Wrapped
pub mod SenderList
pub mod Config
pub mod MemoryDb
pub mod CrossTx
pub mod Selection
pub mod TxByHash
pub mod TxBySender
pub mod TxCache
pub mod TimeCache
pub mod StorageUnit
pub mod ConcurrentMap
pub mod Immunity
mod Tests
