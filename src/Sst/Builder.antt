-- ===== src/Sst/Builder.antt =====
-- `SSTBuilder` (src/sst/sst.cpp): it fills a block, encodes it when an entry does not fit any more, and lays the blocks
-- out in a file with their metadata, the filter, and a trailer of 24 bytes. A block whose vectors have been moved
-- away is empty and keeps its capacity.
use lsm_tree_engine.Prelude.{
  ℕ, ◌+◌, ◌-◌, ◌^◌, max, min, if◌then◌else◌, Bool, List, [], ◌∷◌, ◌++◌, length, replicate, Option,
  none, some, Result, ok, err, ◌>>=◌, no_data,
}
use lsm_tree_engine.Prelude.Order.{eq_bytes}
use lsm_tree_engine.Bytes.{u32, to_bytes, store}
use lsm_tree_engine.Block.{Block, new_block, is_empty, add_entry, encode}
use lsm_tree_engine.BlockMeta.{BlockMeta, encode_meta_to_slice}
use lsm_tree_engine.BloomFilter.{BloomFilter, add as add_to_filter, encode as encode_filter}
use lsm_tree_engine.Sst.{Sst, front_key, back_key}

pub record SstBuilder : Type 0 where
  pub block : Block
  pub first_key : List ℕ
  pub last_key : List ℕ
  pub meta_entries : List BlockMeta
  pub bytes : List ℕ
  pub min_tranc_id : ℕ
  pub max_tranc_id : ℕ
  pub bloom_filter : Option BloomFilter

-- The filter as its constructor makes it, if there is one.
unfoldable pub new_builder : ℕ → Option BloomFilter → SstBuilder
new_builder block_size bloom_filter = record {
  block = new_block block_size;
  first_key = [];
  last_key = [];
  meta_entries = [];
  bytes = [];
  min_tranc_id = 2 ^ 64 - 1;
  max_tranc_id = 0;
  bloom_filter = bloom_filter;
}

unfoldable pub estimated_size : SstBuilder → ℕ
estimated_size b = length b.bytes

abbrev pub or_first : List ℕ → List ℕ → List ℕ
or_first [] key = key
or_first (byte ∷ first_key) key = byte ∷ first_key

abbrev pub filter_bytes : Option BloomFilter → Result (List ℕ)
filter_bytes none = ok []
filter_bytes (some filter) = encode_filter filter

-- The 24 bytes behind the filter; the last write goes over the filter's offset.
unfoldable pub write_trailer : List ℕ → ℕ → ℕ → ℕ → ℕ → Result (List ℕ)
write_trailer content meta_offset bloom_offset min_tranc_id max_tranc_id = do
  let file_size = length content + 24
  file₁ ← store (content ++ replicate 24 0) (file_size - 24) (to_bytes 4 meta_offset)
  file₂ ← store file₁ (file_size - 8) (to_bytes 4 bloom_offset)
  file₃ ← store file₂ (file_size - 16) (to_bytes 8 min_tranc_id)
  store file₃ (file_size - 8) (to_bytes 8 max_tranc_id)

module _ (hash : List ℕ → ℕ) where
  unfoldable pub finish_block : SstBuilder → Result SstBuilder
  finish_block b = do
    encoded_block ← encode b.block
    ok (record b {
      block = new_block b.block.capacity;
      meta_entries =
          b.meta_entries
          ++ (record { offset = length b.bytes; first_key = b.first_key; last_key = b.last_key }
              ∷ []);
      bytes = b.bytes ++ (encoded_block ++ to_bytes 4 (u32 (hash encoded_block)));
    })

  module _ (hasher : List ℕ → ℕ) where
    abbrev pub note_key : Option BloomFilter → List ℕ → Result (Option BloomFilter)
    note_key none key = ok none
    note_key (some filter) key = do filter' ← add_to_filter hasher filter key; ok (some filter')

    -- What the second `add_entry` answers is not looked at.
    unfoldable pub add_to_next : SstBuilder → List ℕ → List ℕ → ℕ → Bool → Result SstBuilder
    add_to_next b key value tranc_id force_write = do
      b' ← finish_block b
      (block, added) ← add_entry b'.block key value tranc_id force_write
      ok (record b' { block = block; first_key = key; last_key = key })

    unfoldable pub add : SstBuilder → List ℕ → List ℕ → ℕ → Result SstBuilder
    add b key value tranc_id = do
      bloom_filter ← note_key b.bloom_filter key
      let noted : SstBuilder = record b {
        first_key = or_first b.first_key key;
        bloom_filter = bloom_filter;
        max_tranc_id = max b.max_tranc_id tranc_id;
        min_tranc_id = min b.min_tranc_id tranc_id;
      }
      let force_write = eq_bytes b.last_key key
      (block, added) ← add_entry b.block key value tranc_id force_write
      let same_block : SstBuilder = record noted { block = block }
      if added
          then ok (record same_block { last_key = key })
          else add_to_next same_block key value tranc_id force_write

  -- `build` behind the last block.
  unfoldable pub build_file : ℕ → SstBuilder → Result Sst
  build_file sst_id b = do
    meta_block ← encode_meta_to_slice hash b.meta_entries []
    let meta_offset = u32 (length b.bytes)
    let bloom_offset = u32 (length (b.bytes ++ meta_block))
    bf_data ← filter_bytes b.bloom_filter
    file ←
        write_trailer ((b.bytes ++ meta_block) ++ bf_data) meta_offset bloom_offset b.min_tranc_id
          b.max_tranc_id
    ok (record {
      file = file;
      sst_id = sst_id;
      meta_block_offset = meta_offset;
      bloom_offset = bloom_offset;
      first_key = front_key b.meta_entries;
      last_key = back_key b.meta_entries;
      bloom_filter = b.bloom_filter;
      meta_entries = b.meta_entries;
      min_tranc_id = b.min_tranc_id;
      max_tranc_id = b.max_tranc_id;
    })

  unfoldable pub build : ℕ → SstBuilder → Result Sst
  build sst_id b = do
    b' ← if is_empty b.block then ok b else finish_block b
    elim b'.meta_entries [ [] ↦ err no_data | meta ∷ metas ↦ build_file sst_id b' ]
