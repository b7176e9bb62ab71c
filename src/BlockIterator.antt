-- ===== src/BlockIterator.antt =====
-- src/block/block_iterator.cpp, include/block/block_iterator.h: the iterator over the entries of a
-- block. A block is reached through a pointer: its address and the block, or null.
pub mod Reading
mod Tests
use lsm_tree_engine.Prelude.{
  ℕ, ◌+◌, ltb, leb, ◌==◌, if◌then◌else◌, Bool, true, false, not, ◌&&◌, List, length, Option, none,
  some, Result, ok, err, ◌>>=◌, out_of_bounds, index_out_of_range, from_option,
}
use lsm_tree_engine.Block.{Block, size, get_offset_at, get_key_at, get_value_at}
use lsm_tree_engine.Block.Search.{get_idx_binary}

-- A key and a value.
abbrev pub Pair : Type 0
Pair = List ℕ × List ℕ

abbrev pub BlockPtr : Type 0
BlockPtr = Option (ℕ × Block)

pub record BlockIterator : Type 0 where
  pub block : BlockPtr
  pub current_index : ℕ
  pub cached_value : Option Pair
  pub max_tranc_id : ℕ

unfoldable pub new_at : BlockPtr → ℕ → ℕ → BlockIterator
new_at b index tranc_id = record {
  block = b;
  current_index = index;
  cached_value = none;
  max_tranc_id = tranc_id;
}

-- The iterator at a key, or at the end where the block does not have it.
pub new_at_key : ℕ → BlockPtr → List ℕ → ℕ → Result BlockIterator
new_at_key stale none key tranc_id = err out_of_bounds
new_at_key stale (some (address, b)) key tranc_id = do
  key_idx ← get_idx_binary stale b key tranc_id
  ok (
      new_at (some (address, b)) (elim key_idx [ none ↦ length b.offsets | some idx ↦ idx ])
        tranc_id)

pub advance : BlockIterator → BlockIterator
advance it = elim it.block [
  | none ↦ it
  | some (address, b) ↦
      if ltb it.current_index (length b.offsets)
      then record it { current_index = it.current_index + 1; cached_value = none }
      else it
]

-- `operator==` with another iterator of blocks.
abbrev pub same_block : BlockPtr → BlockPtr → ℕ → ℕ → Bool
same_block none none i j = true
same_block none (some (a, c)) i j = false
same_block (some (a, b)) none i j = false
same_block (some (a, b)) (some (a', c)) i j = a == a' && (i == j)

pub equal : BlockIterator → BlockIterator → Bool
equal it other = same_block it.block other.block it.current_index other.current_index

pub update_current : BlockIterator → Result BlockIterator
update_current it = elim it.cached_value [
  | some v ↦ ok it
  | none ↦ elim it.block [
    | none ↦ err out_of_bounds
    | some (address, b) ↦
        let parsed = (do
          offset ← get_offset_at b it.current_index
          key ← get_key_at b offset
          value ← get_value_at b offset
          ok (record it { cached_value = some (key, value) })) in
        if ltb it.current_index (length b.offsets) then parsed else ok it
  ]
]

-- `operator*`: the pair, and the iterator with the pair cached.
pub deref : BlockIterator → Result (Pair × BlockIterator)
deref it = elim it.block [
  | none ↦ err index_out_of_range
  | some (address, b) ↦
      let read = (do
        it' ← update_current it
        value ← from_option out_of_bounds it'.cached_value
        ok (value, it')) in
      if leb (size b) it.current_index then err index_out_of_range else read
]

unfoldable pub is_end : BlockIterator → Result Bool
is_end it = elim it.block [
  | none ↦ err out_of_bounds
  | some (address, b) ↦ ok (it.current_index == length b.offsets)
]

pub is_valid : BlockIterator → Result Bool
is_valid it = do at_end ← is_end it; ok (not at_end)

-- The transaction of the reader, not that of the entry.
pub get_tranc_id : BlockIterator → ℕ
get_tranc_id it = it.max_tranc_id
