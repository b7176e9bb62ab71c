-- ===== src/TwoMergeIterator.antt =====
-- src/engine/two_merge_iterator.cpp, include/engine/two_merge_iterator.h: the merge of two iterators.
-- What it uses of them is the interface `BaseIterator` (include/iterator/iterator.h); a null pointer is
-- `none`, and to follow one is a fault.
pub mod Merging
mod Tests
use lsm_tree_engine.Prelude.{
  ℕ, if◌then◌else◌, Bool, true, false, not, ◌&&◌, ◌||◌, List, Option, none, some, Result, ok, err,
  ◌>>=◌, from_option, out_of_bounds,
}
use lsm_tree_engine.Prelude.Order.{lt_bytes}

-- A key and a value.
abbrev pub Item : Type 0
Item = List ℕ × List ℕ

pub record BaseIterator : Type 1 where
  pub Cursor : Type 0
  pub step : Cursor → Result Cursor
  pub item_at : Cursor → Result Item
  pub ended : Cursor → Bool
  pub valid : Cursor → Bool
  pub same : Cursor → Cursor → Bool

pub record TwoMergeIterator (A B : BaseIterator) : Type 0 where
  pub it_a : Option A.Cursor
  pub it_b : Option B.Cursor
  pub choose_a : Bool
  pub max_tranc_id : ℕ

module _ (A B : BaseIterator) where
  -- `(**it_a).first < (**it_b).first`.
  pub key_less : A.Cursor → B.Cursor → Result Bool
  key_less a b = do x ← A.item_at a; y ← B.item_at b; ok (lt_bytes x.0 y.0)

  pub choose_between : A.Cursor → B.Cursor → Result Bool
  choose_between a b = if A.ended a then ok false else (if B.ended b then ok true else key_less a b)

  pub choose_it_a : Option A.Cursor → Option B.Cursor → Result Bool
  choose_it_a it_a it_b = do
    a ← from_option out_of_bounds it_a
    b ← from_option out_of_bounds it_b
    choose_between a b

  pub skip_it_b : Option A.Cursor → Option B.Cursor → Result (Option B.Cursor)
  skip_it_b it_a it_b = do
    b ← from_option out_of_bounds it_b
    if not (B.ended b) && not (B.valid b)
        then (do
          a ← from_option out_of_bounds it_a
          less ← key_less a b
          if less then (do b' ← B.step b; ok (some b')) else ok (some b))
        else ok (some b)

  -- The end of the constructor and of `operator++`.
  pub choose : Option A.Cursor → Option B.Cursor → ℕ → Result (TwoMergeIterator A B)
  choose it_a it_b max_tranc_id = do
    it_b' ← skip_it_b it_a it_b
    choose_a ← choose_it_a it_a it_b'
    ok (record { it_a = it_a; it_b = it_b'; choose_a = choose_a; max_tranc_id = max_tranc_id })

  -- The two constructors.
  pub empty_iterator : ℕ → TwoMergeIterator A B
  empty_iterator max_tranc_id = record {
    it_a = none;
    it_b = none;
    choose_a = false;
    max_tranc_id = max_tranc_id;
  }

  pub new_iterator : A.Cursor → B.Cursor → ℕ → Result (TwoMergeIterator A B)
  new_iterator a b max_tranc_id = choose (some a) (some b) max_tranc_id

  pub advance_from : Bool → Option A.Cursor → Option B.Cursor → ℕ → Result (TwoMergeIterator A B)
  advance_from true it_a it_b max_tranc_id = do
    a ← from_option out_of_bounds it_a
    a' ← A.step a
    choose (some a') it_b max_tranc_id
  advance_from false it_a it_b max_tranc_id = do
    b ← from_option out_of_bounds it_b
    b' ← B.step b
    choose it_a (some b') max_tranc_id

  -- `operator++` and `operator*`.
  pub advance : TwoMergeIterator A B → Result (TwoMergeIterator A B)
  advance it = advance_from it.choose_a it.it_a it.it_b it.max_tranc_id

  pub deref_from : Bool → Option A.Cursor → Option B.Cursor → Result Item
  deref_from true it_a it_b = do a ← from_option out_of_bounds it_a; A.item_at a
  deref_from false it_a it_b = do b ← from_option out_of_bounds it_b; B.item_at b

  pub deref : TwoMergeIterator A B → Result Item
  deref it = deref_from it.choose_a it.it_a it.it_b

  pub both_ended : Option A.Cursor → Option B.Cursor → Bool
  both_ended none none = true
  both_ended none (some b) = B.ended b
  both_ended (some a) none = A.ended a
  both_ended (some a) (some b) = A.ended a && B.ended b

  pub is_end : TwoMergeIterator A B → Bool
  is_end it = both_ended it.it_a it.it_b

  pub any_valid : Option A.Cursor → Option B.Cursor → Bool
  any_valid none none = false
  any_valid none (some b) = B.valid b
  any_valid (some a) none = A.valid a
  any_valid (some a) (some b) = A.valid a || B.valid b

  pub is_valid : TwoMergeIterator A B → Bool
  is_valid it = any_valid it.it_a it.it_b

  -- `operator==` with another merge.
  pub same_cursors : TwoMergeIterator A B → TwoMergeIterator A B → Result Bool
  same_cursors it other = do
    a ← from_option out_of_bounds it.it_a
    a' ← from_option out_of_bounds other.it_a
    if A.same a a'
        then (do
          b ← from_option out_of_bounds it.it_b
          b' ← from_option out_of_bounds other.it_b
          ok (B.same b b'))
        else ok false

  pub equals : TwoMergeIterator A B → TwoMergeIterator A B → Result Bool
  equals it other =
      if is_end it && is_end other
      then ok true
      else (if is_end it || is_end other then ok false else same_cursors it other)
