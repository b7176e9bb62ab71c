-- ===== src/SkipList/Range.antt =====
-- `SkipList::iters_monotony_predicate` (src/skiplist/skiplist.cpp). Of the predicate's `int` only the
-- sign counts: `gt`, move right, `eq`, within the range, `lt`, move left.
use lsm_tree_engine.Prelude.{
  ℕ, zero, suc, ◌==◌, if◌then◌else◌, Bool, true, false, List, Option, none, some, Result, ok, err,
  ◌>>=◌, stuck, invalid_direction, Ordering,
}
use lsm_tree_engine.SkipList.{SkipList, forward_at, backward_at}
use lsm_tree_engine.SkipList.Iterator.{SkipListIterator, advance}

-- One level of the search for a first node: whether it is found, and the node where the level ends.
unfoldable pub seek_level : SkipList → (List ℕ → Ordering) → ℕ → ℕ → ℕ → Result (Bool × ℕ)
seek_level s predicate i zero current = err stuck
seek_level s predicate i (suc fuel) current = do
  next ← forward_at s i current
  elim next [
    | none ↦ ok (false, current)
    | some n ↦ elim (predicate (s.nodes n).key) [
      | Ordering.eq ↦ ok (true, n)
      | Ordering.lt ↦ ok (false, current)
      | Ordering.gt ↦ seek_level s predicate i fuel n
    ]
  ]

-- The levels below `n`, from the highest down, until a node is found.
unfoldable pub seek : SkipList → (List ℕ → Ordering) → ℕ → ℕ → Result (Option ℕ)
seek s predicate zero current = ok none
seek s predicate (suc i) current = do
  (found, current') ← seek_level s predicate i (suc s.fresh) current
  let rest = seek s predicate i current'
  if found then ok (some current') else rest

-- One level of the way left, to the first node of the range.
unfoldable pub left_level : SkipList → (List ℕ → Ordering) → ℕ → ℕ → ℕ → Result ℕ
left_level s predicate i zero current = err stuck
left_level s predicate i (suc fuel) current = do
  previous ← backward_at s i current
  elim previous [
    | none ↦ ok current
    | some p ↦ elim (p == s.head) [
      | true ↦ ok current
      | false ↦ elim (predicate (s.nodes p).key) [
        | Ordering.eq ↦ left_level s predicate i fuel p
        | Ordering.gt ↦ ok current
        | Ordering.lt ↦ err invalid_direction
      ]
    ]
  ]

unfoldable pub go_left : SkipList → (List ℕ → Ordering) → ℕ → ℕ → Result ℕ
go_left s predicate zero current = ok current
go_left s predicate (suc i) current = do
  current' ← left_level s predicate i (suc s.fresh) current
  go_left s predicate i current'

-- One level of the way right, to the last node of the range.
unfoldable pub right_level : SkipList → (List ℕ → Ordering) → ℕ → ℕ → ℕ → Result ℕ
right_level s predicate i zero current = err stuck
right_level s predicate i (suc fuel) current = do
  next ← forward_at s i current
  elim next [
    | none ↦ ok current
    | some n ↦ elim (predicate (s.nodes n).key) [
      | Ordering.eq ↦ right_level s predicate i fuel n
      | Ordering.lt ↦ ok current
      | Ordering.gt ↦ err invalid_direction
    ]
  ]

unfoldable pub go_right : SkipList → (List ℕ → Ordering) → ℕ → ℕ → Result ℕ
go_right s predicate zero current = ok current
go_right s predicate (suc i) current = do
  current' ← right_level s predicate i (suc s.fresh) current
  go_right s predicate i current'

unfoldable pub iters_monotony_predicate :
    SkipList → (List ℕ → Ordering) → Result (Option (SkipListIterator × SkipListIterator))
iters_monotony_predicate s predicate = do
  found ← seek s predicate s.current_level s.head
  elim found [
    | none ↦ ok none
    | some current ↦ (do
      first ← go_left s predicate (s.nodes current).height current
      last ← go_right s predicate (s.nodes current).height current
      end_iter ← advance s (some last)
      ok (some (some first, end_iter)))
  ]
