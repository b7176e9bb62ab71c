-- ===== src/Block/Search.antt =====
-- The lookups of src/block/block.cpp: `adjust_idx_by_tranc_id`, `get_idx_binary` and
-- `get_value_binary`. An index -1 or an empty `std::optional` is `none`; a loop's `int right`, which
-- reaches -1, is kept as `hi = right + 1`. The proofs stand in the modules below.
pub mod Sorted
pub mod Walks
pub mod Adjust
pub mod Binary
mod Tests
use lsm_tree_engine.Prelude.{
  ℕ, zero, suc, ◌+◌, ◌-◌, ◌/◌, ltb, leb, ◌==◌, if◌then◌else◌, Bool, true, false, List, length,
  get_elem?, Ordering, Option, none, some, Result, ok, err, ◌>>=◌, from_option, out_of_bounds,
  stuck,
}
use lsm_tree_engine.Prelude.Order.{compare_bytes, eq_bytes}
use lsm_tree_engine.Block.{Block, is_empty, get_key_at, get_value_at, get_tranc_id_at}

-- `offsets[idx]`, and the reads there.
unfoldable pub offset_at : Block → ℕ → Result ℕ
offset_at b idx = from_option out_of_bounds (get_elem? b.offsets idx)

pub key_at : Block → ℕ → Result (List ℕ)
key_at b idx = do offset ← offset_at b idx; get_key_at b offset

pub is_same_key : Block → ℕ → List ℕ → Result Bool
is_same_key b idx target_key =
    if leb (length b.offsets) idx
    then ok false
    else (do key ← key_at b idx; ok (eq_bytes key target_key))

-- The sign of `key.compare(target)` for the key at `offset`.
pub compare_key : Block → ℕ → List ℕ → Result Ordering
compare_key b offset target = do key ← get_key_at b offset; ok (compare_bytes key target)

-- Backwards over the equal keys, with no transaction.
pub walk_first : Block → List ℕ → ℕ → Result ℕ
walk_first b target zero = ok zero
walk_first b target (suc i) = do
  same ← is_same_key b i target
  elim same [ false ↦ ok (suc i) | true ↦ walk_first b target i ]

-- `stale`: see `get_tranc_id_at`.
module _ (stale : ℕ) (b : Block) (target : List ℕ) (tranc_id : ℕ) where
  pub tranc_id_at : ℕ → Result ℕ
  tranc_id_at idx = do offset ← offset_at b idx; get_tranc_id_at stale b offset

  -- Backwards over the equal keys, as long as they are visible.
  pub walk_visible : ℕ → Result ℕ
  walk_visible zero = ok zero
  walk_visible (suc i) = do
    same ← is_same_key b i target
    elim same [
      | false ↦ ok (suc i)
      | true ↦ (do
        new_tranc_id ← tranc_id_at i
        elim (ltb tranc_id new_tranc_id) [ true ↦ ok (suc i) | false ↦ walk_visible i ])
    ]

  -- Forwards over the equal keys, up to the first that is visible; the rounds are the entries left.
  pub walk_hidden : ℕ → ℕ → Result (Option ℕ)
  walk_hidden zero next = ok none
  walk_hidden (suc n) next = do
    same ← is_same_key b next target
    elim same [
      | false ↦ ok none
      | true ↦ (do
        new_tranc_id ← tranc_id_at next
        elim (leb new_tranc_id tranc_id) [
          | true ↦ ok (some next)
          | false ↦ walk_hidden n (next + 1)
        ])
    ]

-- The branch of `adjust_idx_by_tranc_id` within a transaction.
pub adjust_in_tranc : ℕ → Block → List ℕ → ℕ → ℕ → Result (Option ℕ)
adjust_in_tranc stale b target tranc_id idx = do
  cur_tranc_id ← tranc_id_at stale b target tranc_id idx
  if leb cur_tranc_id tranc_id
      then (do i ← walk_visible stale b target tranc_id idx; ok (some i))
      else walk_hidden stale b target tranc_id (length b.offsets - (idx + 1)) (idx + 1)

pub adjust_idx_by_tranc_id : ℕ → Block → ℕ → ℕ → Result (Option ℕ)
adjust_idx_by_tranc_id stale b idx tranc_id = if leb (length b.offsets) idx then ok none else do
  target ← key_at b idx
  if tranc_id == 0
      then (do i ← walk_first b target idx; ok (some i))
      else adjust_in_tranc stale b target tranc_id idx

-- What the search does where it meets the key: it answers `nullopt` if the adjusted index is not -1.
pub on_found : ℕ → Option ℕ → Option ℕ
on_found mid (some new_mid) = none
on_found mid none = some mid

module _ (stale : ℕ) (b : Block) (key : List ℕ) (tranc_id : ℕ) where
  -- `while (left <= right)`, on fuel.
  pub binary_loop : ℕ → ℕ → ℕ → Result (Option ℕ)
  binary_loop zero left hi = err stuck
  binary_loop (suc fuel) left hi =
      let mid = (left + hi - 1) / 2 in
      let round = (do
        mid_offset ← offset_at b mid
        cmp ← compare_key b mid_offset key
        elim cmp [
          | Ordering.eq ↦ (do
            new_mid ← adjust_idx_by_tranc_id stale b mid tranc_id
            ok (on_found mid new_mid))
          | Ordering.lt ↦ binary_loop fuel (mid + 1) hi
          | Ordering.gt ↦ binary_loop fuel left mid
        ]) in
      if ltb left hi then round else ok none

  -- A round shrinks the range, so a round for each entry and one more are enough.
  pub get_idx_binary : Result (Option ℕ)
  get_idx_binary =
      if is_empty b then ok none else binary_loop (suc (length b.offsets)) 0 (length b.offsets)

  pub get_value_binary : Result (Option (List ℕ))
  get_value_binary = do
    idx ← get_idx_binary
    elim idx [
      | none ↦ ok none
      | some i ↦ (do offset ← offset_at b i; value ← get_value_at b offset; ok (some value))
    ]
