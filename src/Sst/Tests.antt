-- ===== src/Sst/Tests.antt =====
-- Concrete runs of the SST files (src/sst/sst.cpp, src/sst/sst_iterator.cpp), and their theorems at concrete inputs.
use lsm_tree_engine.Prelude.{
  ◌/◌, ◌%◌, ◌^◌, ◌+◌, false, subst, ℕ, zero, suc, ◌<◌, ◌≡◌, refl, true, List, [], ◌∷◌, length,
  get_elem?, none, some, Result, ok, err, arith, ap, sym, ◌∙◌,
}
use lsm_tree_engine.Prelude.Order.{eq_bytes, lt_bytes, compare_bytes}
use lsm_tree_engine.Block.{new_block, Block}
use lsm_tree_engine.Block.Add.{capacity-new_block}
use lsm_tree_engine.BlockIterator
use lsm_tree_engine.BlockMeta.{
  encode_meta_to_slice, store_pieces, entry_pieces, store_entries, entries_size, BlockMeta,
}
use lsm_tree_engine.Sst.{BlockCache, read_offsets, load_block, find_loop, Sst, find_block_idx}
use lsm_tree_engine.Sst.Builder.{add, SstBuilder, new_builder, build_file, write_trailer}
use lsm_tree_engine.Sst.Iterator.{SstIterator, merge_sst_iterator}
use lsm_tree_engine.Sst.Iterator.Gathering.{Points, merge_sst_iterator-nothing}
use lsm_tree_engine.Sst.Trailer.{read_offsets-build_file}
use lsm_tree_engine.Sst.Loading.{load_block-build_file}
use lsm_tree_engine.Sst.Dropping.{add-drops}
use lsm_tree_engine.Bytes.{ints_to_bytes, to_bytes, store, load}
use mathlib.Core.Option.{some-injective}
use lsm_tree_engine.BlockIterator
use lsm_tree_engine.BloomFilter.{new_filter}
use lsm_tree_engine.Sst.Finding.{first_reaching, answer_with, find_block_idx-first_reaching}
use lsm_tree_engine.Sst.Reading.{Stored, blocks_bytes, places, hashed}

abbrev no_hash : List ℕ → ℕ
no_hash content = 0

abbrev meta : ℕ → ℕ → ℕ → BlockMeta
meta offset first last = record { offset = offset; first_key = first ∷ []; last_key = last ∷ [] }

-- The keys 1 to 3 and 5 to 5.
abbrev two_metas : List BlockMeta
two_metas = meta 0 1 3 ∷ meta 40 5 5 ∷ []

abbrev two_blocks : Sst
two_blocks = record {
  file = [];
  sst_id = 1;
  meta_block_offset = 80;
  bloom_offset = 100;
  first_key = 1 ∷ [];
  last_key = 5 ∷ [];
  bloom_filter = some (new_filter 10 1 8 1);
  meta_entries = two_metas;
  min_tranc_id = 1;
  max_tranc_id = 9;
}

two_metas_order :
    (i : ℕ) (m : BlockMeta)
    → get_elem? two_metas i ≡ some m
    → lt_bytes m.last_key m.first_key ≡ false
unfolding compare_bytes
two_metas_order zero m at =
    ap (λ (x : BlockMeta). lt_bytes x.last_key x.first_key) (sym (some-injective _ _ at))
two_metas_order (suc zero) m at =
    ap (λ (x : BlockMeta). lt_bytes x.last_key x.first_key) (sym (some-injective _ _ at))
two_metas_order (suc (suc i)) m at = cc

two_metas_apart :
    (i j : ℕ) (m m' : BlockMeta)
    → i < j
    → get_elem? two_metas i ≡ some m
    → get_elem? two_metas j ≡ some m'
    → lt_bytes m.last_key m'.first_key ≡ true
unfolding compare_bytes
two_metas_apart i zero m m' lt at at' = elim lt [ ]
two_metas_apart zero (suc zero) m m' lt at at' =
    ap (λ (x : BlockMeta). lt_bytes x.last_key m'.first_key) (sym (some-injective _ _ at))
    ∙ ap (λ (x : BlockMeta). lt_bytes (3 ∷ []) x.first_key) (sym (some-injective _ _ at'))
two_metas_apart (suc i) (suc zero) m m' lt at at' = absurd (omega arith)
two_metas_apart i (suc (suc j)) m m' lt at at' = cc

find_run : find_block_idx two_blocks (4 ∷ []) ≡ ok (some 1)
unfolding find_block_idx find_loop compare_bytes new_filter
find_run = refl

find_block_idx-first_reaching_example :
    find_block_idx two_blocks (4 ∷ [])
    ≡ answer_with two_blocks.bloom_filter (first_reaching two_metas (4 ∷ []))
find_block_idx-first_reaching_example =
    find_block_idx-first_reaching two_blocks (4 ∷ [])
      (record { in_order = two_metas_order; apart = two_metas_apart })

abbrev value_or : Sst → Result Sst → Sst
value_or default (ok sst) = sst
value_or default (err e) = default

-- A block with one offset and no bytes, laid out.
abbrev small_block : Block
small_block = record { bytes = 7 ∷ []; offsets = 0 ∷ []; capacity = 0 }

abbrev one_stored : SstBuilder
one_stored = record (new_builder 4 none) {
  meta_entries = meta 0 1 1 ∷ [];
  bytes = hashed no_hash small_block;
  max_tranc_id = 5;
}

one_stored-Stored : Stored no_hash (small_block ∷ []) one_stored
unfolding blocks_bytes places to_bytes ints_to_bytes new_builder
one_stored-Stored = record { bytes_eq = refl; offsets_eq = refl }

abbrev built : Sst
built = value_or two_blocks (build_file no_hash 1 one_stored)

build_run : build_file no_hash 1 one_stored ≡ ok built
unfolding build_file write_trailer store load to_bytes ints_to_bytes new_builder
    encode_meta_to_slice store_pieces entry_pieces store_entries entries_size
build_run = refl

built-small : length built.file < 2 ^ 63
unfolding build_file write_trailer store load to_bytes ints_to_bytes new_builder
    encode_meta_to_slice store_pieces entry_pieces store_entries entries_size
built-small = omega arith

read_offsets-build_file_example :
    read_offsets built.file
    ≡ ok (one_stored.max_tranc_id / 2 ^ 32, one_stored.max_tranc_id % 2 ^ 32)
read_offsets-build_file_example =
    read_offsets-build_file no_hash 1 one_stored built build_run built-small (omega arith)

stored-small : length one_stored.bytes < 2 ^ 32
unfolding to_bytes ints_to_bytes new_builder
stored-small = omega arith

load_block-build_file_example :
    load_block no_hash built 0 ≡ ok (record small_block { capacity = 0 })
load_block-build_file_example =
    load_block-build_file no_hash (small_block ∷ []) one_stored 1 built 0 small_block
      one_stored-Stored build_run stored-small built-small refl
      (omega arith, (omega arith, tt), omega arith)

nothing-Stored : Stored no_hash [] (new_builder 16 none)
unfolding blocks_bytes places new_builder
nothing-Stored = record { bytes_eq = refl; offsets_eq = refl }

abbrev large_key : List ℕ
large_key = 1 ∷ []

abbrev large_value : List ℕ
large_value = 1 ∷ 2 ∷ 3 ∷ 4 ∷ 5 ∷ 6 ∷ 7 ∷ 8 ∷ []

no_last_key : eq_bytes (new_builder 16 none).last_key large_key ≡ false
unfolding compare_bytes new_builder
no_last_key = refl

capacity_16 : (new_builder 16 none).block.capacity < length large_key + length large_value + 8
unfolding new_builder
capacity_16 = subst (λ n. n < 17) (sym (capacity-new_block 16)) (omega arith)

no_filter : (new_builder 16 none).bloom_filter ≡ none
unfolding new_builder
no_filter = refl

add-drops_example :
    (b' : SstBuilder) × (add no_hash no_hash (new_builder 16 none) (1 ∷ []) large_value 5 ≡ ok b')
    × Stored no_hash ((new_builder 16 none).block ∷ []) b'
    × (b'.block ≡ new_block (new_builder 16 none).block.capacity)
add-drops_example =
    add-drops no_hash no_hash [] (new_builder 16 none) large_key large_value 5 nothing-Stored
      no_filter no_last_key capacity_16

abbrev no_cache : BlockCache
no_cache = record {
  State = Unit {0};
  get = λ c sst_id idx. (none, c);
  put = λ c sst_id idx block. c;
}

abbrev at_block : SstIterator
at_block = record {
  sst = some two_blocks;
  block_idx = 0;
  block_iter = some (BlockIterator.new_at (some (4, small_block)) 0 9);
  cached_value = none;
  max_tranc_id = 9;
}

at_block-Points : Points at_block
unfolding BlockIterator.new_at
at_block-Points = record {
  file = (two_blocks, refl);
  block = λ b at. (
    (4, small_block),
    ap (λ (x : BlockIterator.BlockIterator). x.block) (sym (some-injective _ _ at)),
  );
}

merge_sst_iterator-nothing_example :
    merge_sst_iterator no_hash no_cache 7 3 (at_block ∷ at_block ∷ []) (some tt) ≡ ok ([], some tt)
merge_sst_iterator-nothing_example =
    merge_sst_iterator-nothing no_hash no_cache 7 2 (at_block ∷ at_block ∷ []) (some tt)
      (at_block-Points, (at_block-Points, tt))
