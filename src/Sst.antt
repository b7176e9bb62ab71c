-- ===== src/Sst.antt =====
-- src/sst/sst.cpp, include/sst/sst.h: an SST file. Sst/Builder is its builder, Sst/Iterator the iterator. The block
-- cache is an interface, passed on explicitly where a file has one; a block is reached through a pointer, its address
-- and the block, and `address` is that of a block that is read anew. `hash` is `std::hash<std::string_view>`, `hasher`
-- is `std::hash<std::string>`. There are fewer than 2^31 blocks in a file, so the indices of the search are `int`s.
pub mod Builder
pub mod Iterator
pub mod Finding
pub mod Trailer
pub mod Reading
pub mod Loading
pub mod Dropping
mod Tests
use lsm_tree_engine.Prelude.{
  ℕ, zero, suc, ◌+◌, ◌-◌, ◌*◌, ◌/◌, ◌%◌, ◌^◌, ltb, leb, ◌==◌, if◌then◌else◌, Bool, true, false,
  List, [], ◌∷◌, length, get_elem?, Option, none, some, Result, ok, err, ◌>>=◌, from_option,
  out_of_bounds, index_out_of_range, size_too_small, stuck,
}
use lsm_tree_engine.Prelude.Order.{lt_bytes}
use lsm_tree_engine.Prelude.Results.{cache_null}
use lsm_tree_engine.Bytes.{u32, sub_size, load_int}
use lsm_tree_engine.Files.{read_to_slice}
use lsm_tree_engine.Block.{Block, decode}
use lsm_tree_engine.BlockMeta.{BlockMeta, decode_meta_from_slice}
use lsm_tree_engine.BloomFilter.{BloomFilter, possibly_contains, decode as decode_filter}

-- What the files use of `BlockCache`: `get` and `put` by the file's id and the block's index.
pub record BlockCache : Type 1 where
  pub State : Type 0
  pub get : State → ℕ → ℕ → Option (ℕ × Block) × State
  pub put : State → ℕ → ℕ → ℕ × Block → State

pub record Sst : Type 0 where
  pub file : List ℕ
  pub sst_id : ℕ
  pub meta_block_offset : ℕ
  pub bloom_offset : ℕ
  pub first_key : List ℕ
  pub last_key : List ℕ
  pub bloom_filter : Option BloomFilter
  pub meta_entries : List BlockMeta
  pub min_tranc_id : ℕ
  pub max_tranc_id : ℕ

pub num_blocks : Sst → ℕ
num_blocks sst = length sst.meta_entries

pub get_tranc_id_range : Sst → ℕ × ℕ
get_tranc_id_range sst = (sst.min_tranc_id, sst.max_tranc_id)

-- `front().first_key` and `back().last_key`, where there are blocks.
abbrev pub front_key : List BlockMeta → List ℕ
front_key [] = []
front_key (meta ∷ metas) = meta.first_key

abbrev pub back_key : List BlockMeta → List ℕ
back_key [] = []
back_key (meta ∷ []) = meta.last_key
back_key (meta ∷ meta' ∷ metas) = back_key (meta' ∷ metas)

-- The offsets of the filter and of the metadata, from the end of the file.
unfoldable pub read_offsets : List ℕ → Result (ℕ × ℕ)
read_offsets file = if ltb (length file) 4 then err size_too_small else (do
  bloom_bytes ← read_to_slice file (sub_size (length file) 4) 4
  bloom_offset ← load_int 4 bloom_bytes 0
  meta_bytes ← read_to_slice file (sub_size (length file) 8) 4
  meta_offset ← load_int 4 meta_bytes 0
  ok (bloom_offset, meta_offset))

-- A filter is read where the file goes on behind its offset.
unfoldable pub read_filter : List ℕ → ℕ → Result (Option BloomFilter)
read_filter file bloom_offset =
    if ltb (bloom_offset + 8) (length file)
    then (do
      bloom_bytes ←
          read_to_slice file bloom_offset (u32 (sub_size (sub_size (length file) bloom_offset) 8))
      filter ← decode_filter bloom_bytes
      ok (some filter))
    else ok none

module _ (hash : List ℕ → ℕ) where
  -- `SST::open`. The range of transactions is not read, and keeps its initial values.
  unfoldable pub open_sst : ℕ → List ℕ → Result Sst
  open_sst sst_id file = do
    (bloom_offset, meta_offset) ← read_offsets file
    bloom_filter ← read_filter file bloom_offset
    meta_bytes ← read_to_slice file meta_offset ((bloom_offset + 2 ^ 32 - meta_offset) % 2 ^ 32)
    meta_entries ← decode_meta_from_slice hash meta_bytes
    ok (record {
      file = file;
      sst_id = sst_id;
      meta_block_offset = meta_offset;
      bloom_offset = bloom_offset;
      first_key = front_key meta_entries;
      last_key = back_key meta_entries;
      bloom_filter = bloom_filter;
      meta_entries = meta_entries;
      min_tranc_id = 2 ^ 64 - 1;
      max_tranc_id = 0;
    })

  -- Where the block ends: at the next one, or at the metadata.
  unfoldable pub block_end : Sst → ℕ → Result ℕ
  block_end sst block_idx =
      if block_idx == length sst.meta_entries - 1 then ok sst.meta_block_offset else (do
        meta ← from_option out_of_bounds (get_elem? sst.meta_entries (block_idx + 1))
        ok meta.offset)

  -- `read_block` where the cache does not have the block.
  unfoldable pub load_block : Sst → ℕ → Result Block
  load_block sst block_idx = do
    meta ← from_option out_of_bounds (get_elem? sst.meta_entries block_idx)
    end ← block_end sst block_idx
    block_data ← read_to_slice sst.file meta.offset (sub_size end meta.offset)
    decode hash block_data true

  module _ (C : BlockCache) where
    -- What follows the look into the cache.
    abbrev pub after_cache :
        ℕ → Sst → ℕ → Option (ℕ × Block) × C.State → Result ((ℕ × Block) × C.State)
    after_cache address sst block_idx (some block, cache) = ok (block, cache)
    after_cache address sst block_idx (none, cache) = do
      block ← load_block sst block_idx
      ok ((address, block), C.put cache sst.sst_id block_idx (address, block))

    unfoldable pub read_block : ℕ → Sst → Option C.State → ℕ → Result ((ℕ × Block) × C.State)
    read_block address sst cache block_idx =
        if leb (length sst.meta_entries) block_idx then err index_out_of_range else elim cache [
          | none ↦ err cache_null
          | some c ↦ after_cache address sst block_idx (C.get c sst.sst_id block_idx)
        ]

-- `while (left <= right)` of the search, on fuel; `hi` is `right + 1`.
unfoldable pub find_loop : List BlockMeta → List ℕ → ℕ → ℕ → ℕ → Result (Option ℕ)
find_loop metas key zero left hi = err stuck
find_loop metas key (suc fuel) left hi =
    let mid = left + (hi - 1 - left) / 2 in
    let left_half = find_loop metas key fuel left mid in
    let right_half = find_loop metas key fuel (mid + 1) hi in
    let round = (do
      meta ← from_option out_of_bounds (get_elem? metas mid)
      if lt_bytes key meta.first_key
          then left_half
          else if lt_bytes meta.last_key key
          then right_half
          else ok (some mid)) in
    if ltb left hi then round else if leb (length metas) left then ok none else ok (some left)

-- A file without a filter is asked for one: `!bloom_filter && !bloom_filter->possibly_contains(key)`.
unfoldable pub find_block_idx : Sst → List ℕ → Result (Option ℕ)
find_block_idx sst key = elim sst.bloom_filter [
  | none ↦ err out_of_bounds
  | some filter ↦
      find_loop sst.meta_entries key (suc (length sst.meta_entries)) 0 (length sst.meta_entries)
]
