-- ===== src/Block/Range.antt =====
-- `Block::get_monotony_predicate` (src/block/block.cpp): the range of the entries that a monotone predicate
-- picks. The predicate is positive left of the range, zero in it and negative right of it: its sign is
-- `Ordering.gt`, `Ordering.eq` or `Ordering.lt`. An `int` that would be -1 is `none`, and `hi` is
-- `right + 1`.
pub mod Ends
mod Tests
use lsm_tree_engine.Prelude.{
  ℕ, zero, suc, ◌+◌, ◌-◌, ◌/◌, ltb, if◌then◌else◌, List, length, Option, none, some, Ordering,
  Result, ok, err, ◌>>=◌, stuck, out_of_bounds, not_sorted,
}
use lsm_tree_engine.Block.{Block, get_key_at, is_empty}
use lsm_tree_engine.Block.Search.{offset_at}

-- `if (first_first == -1) first_first = mid;`
abbrev pub keep_first : Option ℕ → ℕ → Option ℕ
keep_first none mid = some mid
keep_first (some i) mid = some i

abbrev pub after_last : Option ℕ → ℕ
after_last none = 0
after_last (some i) = i + 1

module _ (b : Block) (predicate : List ℕ → Ordering) where
  pub direction_at : ℕ → Result Ordering
  direction_at mid = do
    mid_offset ← offset_at b mid
    mid_key ← get_key_at b mid_offset
    ok (predicate mid_key)

  -- The first search: the first entry of the range, and the first one that was met.
  pub first_loop : ℕ → ℕ → ℕ → Option ℕ → Option ℕ → Result (Option ℕ × Option ℕ)
  first_loop zero left hi first first_first = err stuck
  first_loop (suc fuel) left hi first first_first =
      let mid = left + (hi - 1 - left) / 2 in
      let round = (do
        direction ← direction_at mid
        elim direction [
          | Ordering.lt ↦ first_loop fuel left mid first first_first
          | Ordering.gt ↦ first_loop fuel (mid + 1) hi first first_first
          | Ordering.eq ↦ first_loop fuel left mid (some mid) (keep_first first_first mid)
        ]) in
      if ltb left hi then round else ok (first, first_first)

  -- The second search: the last entry of the range.
  pub last_loop : ℕ → ℕ → ℕ → Option ℕ → Result (Option ℕ)
  last_loop zero left hi last = err stuck
  last_loop (suc fuel) left hi last =
      let mid = left + (hi - 1 - left) / 2 in
      let round = (do
        direction ← direction_at mid
        elim direction [
          | Ordering.lt ↦ last_loop fuel left mid last
          | Ordering.gt ↦ err not_sorted
          | Ordering.eq ↦ last_loop fuel (mid + 1) hi (some mid)
        ]) in
      if ltb left hi then round else ok last

  -- The indices at which the two iterators stand.
  pub range_from : Option ℕ → Option ℕ → Result (Option (ℕ × ℕ))
  range_from none first_first = ok none
  range_from (some first) none = err out_of_bounds
  range_from (some first) (some left) = do
    last ← last_loop (suc (length b.offsets)) left (length b.offsets) none
    ok (some (first, after_last last))

  pub get_monotony_predicate : Result (Option (ℕ × ℕ))
  get_monotony_predicate = if is_empty b then ok none else do
    (first, first_first) ← first_loop (suc (length b.offsets)) 0 (length b.offsets) none none
    range_from first first_first
