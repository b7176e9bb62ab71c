-- ===== src/Lib.antt =====
-- The LSM tree engine: a key-value store that keeps versions of its keys by transaction, in memory and in
-- sorted files, with a write-ahead log.
--
-- The parts, and the files of the repository that the modules are about:
--   Prelude         names and lemmas that all modules share; strings are lists of bytes, and a result is a
--                   value, a throw or an access outside an object (Prelude/Results)
--   Bytes           `memcpy` between integers and byte vectors, lowest byte first
--   Block           src/block/block.cpp: the data block. Block.antt has its fields, `encode`, `decode`,
--                   `add_entry` and the reads, Block/Search the adjustment of an index to a transaction and the
--                   binary search, Block/Range the range search; `Block/Entries` says which entries a block holds
--   BlockIterator   src/block/block_iterator.cpp
--   BlockMeta       src/block/blockmeta.cpp: the first and last keys of the blocks of a file
--   BloomFilter     src/utils/bloom_filter.cpp
--   Files           src/utils/file.cpp, src/utils/std_file.cpp: numbers in a file
--   Wal             src/wal/wal.cpp, with Wal/Recovery; Wal/Record is src/wal/record.cpp, the records and
--                   their decoding
--   HeapIterator    src/iterator/iterator.cpp: the iterator over the items of a priority queue
--   TwoMergeIterator
--                   src/engine/two_merge_iterator.cpp: the merge of two iterators
--   SkipList        src/skiplist/skiplist.cpp: the list of the versions in memory. SkipList.antt has the nodes, the
--                   levels, `put`, `get`, `flush` and `clear`, SkipList/Removal `remove`, SkipList/Range the search
--                   by a predicate, SkipList/Iterator the iterator; SkipList/Versions has the sorted list of versions
--                   that it stands for, SkipList/Invariant when it is well formed and what it then holds
--   Memtable        src/memtable/memtable.cpp: the current skip list and the frozen ones; Memtable/Contents has what
--                   it holds, and `SstBuilder` is what it uses of the builder of SST files
--   Engine          src/engine/engine.cpp: the engine over the memory table and an interface for the SST files;
--                   Engine/Storage is the engine as the interface that transactions use
--   Transaction     src/engine/transaction.cpp: the context of a transaction, its manager
--                   (Transaction/Manager) and the interface of the storage engine that both use
--                   (Transaction/Storage)
--   Sst             src/sst/sst.cpp: the SST files. Sst.antt has `open` (`open_sst`), `read_block` and the search for a
--                   block over an interface for the block cache, Sst/Builder the builder, Sst/Iterator the iterator of
--                   src/sst/sst_iterator.cpp; `Sst/Reading` says which blocks a builder has laid out
--   Redis           src/redis_wrapper/redis_wrapper.cpp: the Redis commands over an interface for the engine
--                   (`KeyValue`, with its laws in Redis/Laws). Redis/Commands has the commands on strings and on the
--                   time to live, Redis/Hashes, Redis/Lists, Redis/Sets and Redis/SortedSets those on containers,
--                   Redis/Keys the keys and the replies, Redis/Texts `split` and `join`, Redis/Numbers what the
--                   commands use of `std::to_string`, `std::stoll` and `std::stoi`; Redis/Lists/Machine is the list
--                   that the commands on lists stand for, Redis/LogStore a store that the commands run on
-- A transaction reads and writes the engine and hands its operations to the manager, which logs them; the
-- log encodes records. The engine keeps a memory table, which keeps skip lists, and moves its oldest one to a
-- file. Each function has its name in the source; `_` at the end of a field is dropped.
--
-- State is passed on explicitly, locks are left out, and each operation is one step. Loops that do not
-- recurse on a list or a count run on fuel: the searches in a block on the number of entries and one more, the
-- decoding of a log on the number of its bytes and one more, the loops of the heap iterator on the number of
-- its items and one more, the walks along a level of a skip list on the number of addresses given out, of which
-- the linked nodes are fewer, the search for a block of a file on the
-- number of its blocks and one more, the merge of files on any number of rounds, the compaction on any number of
-- levels; where the fuel would run out the
-- result is `stuck`.
--
-- Parameters stand for what the source does not fix: `std::hash`, `sizeof(Record)`, the bytes of
-- uninitialised variables, the memory behind `&value_`, what `putRecord` yields without a `return`, the
-- outcome of `sync`, the flips of the skip list's coin and its random bits, the order in which a priority
-- queue pops, the sizes that the Bloom filter computes with floating-point logarithms, the time that the clock
-- shows, and the sum of two scores in floating point.
--
-- Not modelled: the search of SST files by a predicate and the concatenating iterator, the merges in a
-- compaction, the block cache, the engine's constructor and its search by a predicate, the server, and the file system.
pub mod Prelude
pub mod Bytes
pub mod Block
pub mod BlockMeta
pub mod BlockIterator
pub mod Files
pub mod BloomFilter
pub mod Wal
pub mod Transaction
pub mod HeapIterator
pub mod TwoMergeIterator
pub mod SkipList
pub mod Memtable
pub mod Engine
pub mod Redis
pub mod Sst
