-- ===== src/Sst/Iterator.antt =====
-- src/sst/sst_iterator.cpp, include/sst/sst_iterator.h: the iterator over the blocks of an SST file, and `SST::get`,
-- `begin` and `end`. A file is reached through a pointer, null or not; the members that a constructor leaves
-- uninitialised are `stale_idx` and `stale_id`, and `stale` is that of `Block::get_tranc_id_at`.
pub mod Gathering
use lsm_tree_engine.Prelude.{
  ℕ, zero, suc, ◌+◌, ◌-◌, ◌^◌, ltb, leb, ◌==◌, if◌then◌else◌, Bool, true, false, not, ◌&&◌, ◌||◌,
  List, [], ◌∷◌, ◌++◌, length, Option, none, some, Result, ok, err, ◌>>=◌, from_option,
  out_of_bounds, stuck, division_by_zero,
}
use lsm_tree_engine.Prelude.Results.{Error, block_iterator_null, signed_overflow}
use lsm_tree_engine.BlockIterator
use lsm_tree_engine.BlockIterator.{BlockIterator, Pair}
use lsm_tree_engine.BloomFilter.{BloomFilter, possibly_contains}
use lsm_tree_engine.Sst.{Sst, BlockCache, num_blocks, find_block_idx, read_block}

pub record SstIterator : Type 0 where
  pub sst : Option Sst
  pub block_idx : ℕ
  pub block_iter : Option BlockIterator
  pub cached_value : Option Pair
  pub max_tranc_id : ℕ

-- What `catch (const std::exception &)` catches: a throw, not what C++ leaves undefined.
abbrev pub is_exception : Error → Bool
is_exception out_of_bounds = false
is_exception division_by_zero = false
is_exception signed_overflow = false
is_exception stuck = false
is_exception e = true

-- `SstIterator(sst, max_tranc_id)`: it points to no block, and drops the transaction.
unfoldable pub at_start : ℕ → Option Sst → ℕ → SstIterator
at_start stale_id sst max_tranc_id = record {
  sst = sst;
  block_idx = 0;
  block_iter = none;
  cached_value = none;
  max_tranc_id = stale_id;
}

abbrev pub set_block_idx : SstIterator → ℕ → SstIterator
set_block_idx it idx = record it { block_idx = idx }

abbrev pub set_block_it : SstIterator → Option BlockIterator → SstIterator
set_block_it it block_it = record it { block_iter = block_it }

unfoldable pub is_end : SstIterator → Result Bool
is_end it = elim it.block_iter [
  | some block_it ↦ ok true
  | none ↦ (do sst ← from_option out_of_bounds it.sst; ok (leb (num_blocks sst) it.block_idx))
]

unfoldable pub is_valid : SstIterator → Result Bool
is_valid it = elim it.block_iter [
  | none ↦ ok false
  | some block_it ↦ (do
    block_end ← BlockIterator.is_end block_it
    if block_end
        then ok false
        else (do sst ← from_option out_of_bounds it.sst; ok (ltb it.block_idx (num_blocks sst))))
]

unfoldable pub deref : SstIterator → Result Pair
deref it = do
  block_it ← from_option block_iterator_null it.block_iter
  (value, block_it') ← BlockIterator.deref block_it
  ok value

unfoldable pub cache_current : SstIterator → Result SstIterator
cache_current it = elim it.cached_value [
  | some v ↦ ok it
  | none ↦ elim it.block_iter [
    | none ↦ ok it
    | some block_it ↦ (do
      block_end ← BlockIterator.is_end block_it
      if block_end then ok it else (do
        (value, block_it') ← BlockIterator.deref block_it
        ok (record it { cached_value = some value; block_iter = some block_it' })))
  ]
]

-- `operator->`: what it points to, and the iterator with the pair cached.
unfoldable pub current : SstIterator → Result (Pair × SstIterator)
current it = do
  it' ← cache_current it
  value ← from_option out_of_bounds it'.cached_value
  ok (value, it')

unfoldable pub get_tranc_id : SstIterator → ℕ
get_tranc_id it = elim it.block_iter [
  | none ↦ it.max_tranc_id
  | some block_it ↦ BlockIterator.get_tranc_id block_it
]

unfoldable pub get_sst_id : SstIterator → ℕ
get_sst_id it = elim it.sst [ none ↦ 0 | some sst ↦ sst.sst_id ]

-- `operator==` with another iterator of files, where the pointers to the files are equal or not.
unfoldable pub equal : Bool → SstIterator → SstIterator → Result Bool
equal same_sst it other =
    if not same_sst || not (it.block_idx == other.block_idx) then ok false else elim it.block_iter [
      | none ↦ elim other.block_iter [ none ↦ ok false | some b ↦ err out_of_bounds ]
      | some a ↦ elim other.block_iter [
        | none ↦ err out_of_bounds
        | some b ↦ ok (BlockIterator.equal a b)
      ]
    ]

module _ (hash : List ℕ → ℕ) (C : BlockCache) (address : ℕ) where
  -- The first entry of the next block, or null behind the last one.
  unfoldable pub next_block :
      SstIterator → Option C.State → ℕ → Result (SstIterator × Option C.State)
  next_block it cache idx = do
    sst ← from_option out_of_bounds it.sst
    if ltb idx (num_blocks sst)
        then (do
          (block, cache') ← read_block hash C address sst cache idx
          ok (
            record it {
              block_idx = idx;
              block_iter = some (BlockIterator.new_at (some block) 0 it.max_tranc_id);
            },
            some cache',
          ))
        else ok (record it { block_idx = idx; block_iter = none }, cache)

  unfoldable pub advance : SstIterator → Option C.State → Result (SstIterator × Option C.State)
  advance it cache = do
    block_it ← from_option block_iterator_null it.block_iter
    let moved = BlockIterator.advance block_it
    block_end ← BlockIterator.is_end moved
    if block_end
        then next_block (record it { block_iter = some moved }) cache (it.block_idx + 1)
        else ok (record it { block_iter = some moved }, cache)

  -- The block iterator at the key, or the end.
  unfoldable pub seek_block :
      ℕ → Sst → SstIterator → Option C.State → List ℕ → Result (SstIterator × Option C.State)
  seek_block stale sst it cache key = do
    (block, cache') ← read_block hash C address sst cache it.block_idx
    block_it ← BlockIterator.new_at_key stale (some block) key it.max_tranc_id
    block_end ← BlockIterator.is_end block_it
    ok (
      if block_end
          then record it { block_iter = none; block_idx = num_blocks sst }
          else record it { block_iter = some block_it },
      some cache',
    )

  -- `catch`: the iterator is left without a block.
  abbrev pub catch_exception :
      SstIterator
      → Option C.State
      → Result (SstIterator × Option C.State)
      → Result (SstIterator × Option C.State)
  catch_exception it cache (ok found) = ok found
  catch_exception it cache (err e) =
      if is_exception e then ok (record it { block_iter = none }, cache) else err e

  -- `seek` behind `find_block_idx`.
  abbrev pub seek_at :
      ℕ
      → Sst
      → SstIterator
      → Option C.State
      → List ℕ
      → Option ℕ
      → Result (SstIterator × Option C.State)
  seek_at stale sst it cache key none =
      ok (record it { block_iter = none; block_idx = num_blocks sst }, cache)
  seek_at stale sst it cache key (some idx) =
      if leb (num_blocks sst) idx
      then ok (record it { block_iter = none; block_idx = num_blocks sst }, cache)
      else catch_exception (record it { block_idx = idx }) cache
          (seek_block stale sst (record it { block_idx = idx }) cache key)

  unfoldable pub seek_key :
      ℕ → SstIterator → Option C.State → List ℕ → Result (SstIterator × Option C.State)
  seek_key stale it cache key = elim it.sst [
    | none ↦ ok (record it { block_iter = none }, cache)
    | some sst ↦ elim (find_block_idx sst key) [
      | err e ↦ catch_exception it cache (err e)
      | ok idx ↦ seek_at stale sst it cache key idx
    ]
  ]

  -- `SstIterator(sst, key, max_tranc_id)`.
  unfoldable pub at_key :
      ℕ → ℕ → Option Sst → Option C.State → List ℕ → ℕ → Result (SstIterator × Option C.State)
  at_key stale stale_idx sst cache key max_tranc_id =
      let it : SstIterator = record {
        sst = sst;
        block_idx = stale_idx;
        block_iter = none;
        cached_value = none;
        max_tranc_id = max_tranc_id;
      } in
      elim sst [ none ↦ ok (it, cache) | some s ↦ seek_key stale it cache key ]

  -- `SST::end`: `m_block_idx = -1`.
  unfoldable pub sst_end : ℕ → SstIterator
  sst_end stale_id = record {
    sst = none;
    block_idx = 2 ^ 64 - 1;
    block_iter = none;
    cached_value = none;
    max_tranc_id = stale_id;
  }

  module _ (hasher : List ℕ → ℕ) where
    -- Whether the filter lets a key through.
    abbrev pub may_contain : Option BloomFilter → List ℕ → Result Bool
    may_contain none key = ok true
    may_contain (some filter) key = possibly_contains hasher filter key

    -- `SST::get`.
    unfoldable pub sst_get :
        ℕ → ℕ → ℕ → Sst → Option C.State → List ℕ → ℕ → Result (SstIterator × Option C.State)
    sst_get stale stale_idx stale_id sst cache key tranc_id = do
      may ← may_contain sst.bloom_filter key
      if may
          then at_key stale stale_idx (some sst) cache key tranc_id
          else ok (sst_end stale_id, cache)

  -- `while (it.is_valid() && !it.is_end())`, on fuel: the key, the value, the file's id, of which the code takes the
  -- negative, and the transaction of each element.
  unfoldable pub gather_valid :
      ℕ → SstIterator → Option C.State → Result (List (Pair × ℕ × ℕ) × Option C.State)
  gather_valid zero it cache = err stuck
  gather_valid (suc fuel) it cache =
      let round = (do
        (value, it₁) ← current it
        (it₂, cache₁) ← advance it₁ cache
        (items, cache₂) ← gather_valid fuel it₂ cache₁
        ok ((value, get_sst_id it₁, get_tranc_id it₁) ∷ items, cache₂)) in
      (do
        valid ← is_valid it
        if valid
            then (do at_end ← is_end it; if at_end then ok ([], cache) else round)
            else ok ([], cache))

  -- `merge_sst_iterator`: what the heap of the first iterator holds; the second one is empty.
  unfoldable pub merge_sst_iterator :
      ℕ → List SstIterator → Option C.State → Result (List (Pair × ℕ × ℕ) × Option C.State)
  merge_sst_iterator fuel [] cache = ok ([], cache)
  merge_sst_iterator fuel (it ∷ iter_vec) cache = do
    (items, cache₁) ← gather_valid fuel it cache
    (more, cache₂) ← merge_sst_iterator fuel iter_vec cache₁
    ok (items ++ more, cache₂)
