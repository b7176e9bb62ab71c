-- ===== src/HeapIterator/Tests.antt =====
-- Concrete runs of the heap iterator (src/iterator/iterator.cpp), and its theorems at concrete inputs.
use lsm_tree_engine.Prelude.{ℕ, ◌≡◌, refl, List, [], ◌∷◌, ok}
use lsm_tree_engine.Prelude.Int.{ℤ, pos}
use lsm_tree_engine.Prelude.Order.{compare_bytes}
use lsm_tree_engine.HeapIterator.{
  SearchItem, HeapIterator, top_value_legal, skip_hidden, skip_by_tranc_id, pop_key, skip_deleted,
  settle_loop, settle, new_iterator,
}
use lsm_tree_engine.HeapIterator.Passing.{Shown, Passes}
use lsm_tree_engine.HeapIterator.Legal.{new_iterator-Legal}

abbrev item : List ℕ → List ℕ → ℕ → ℤ → SearchItem
item key value tranc_id level = record {
  key = key;
  value = value;
  tranc_id = tranc_id;
  idx = pos 0;
  level = level;
}

-- Key "a" was deleted by transaction 5; key "b" was written by 3 and deleted by 9.
abbrev popped : List SearchItem
popped =
    item (b'a' ∷ []) [] 5 (pos 0)
    ∷ item (b'b' ∷ []) [] 9 (pos 0)
    ∷ item (b'b' ∷ []) (b'x' ∷ []) 3 (pos 0)
    ∷ item (b'c' ∷ []) (b'y' ∷ []) 2 (pos 0)
    ∷ []

-- For transaction 7 the deletion of "b" is not visible, and yet its older value is not shown.
hidden_deletion : settle 7 popped ≡ ok (item (b'c' ∷ []) (b'y' ∷ []) 2 (pos 0) ∷ [])
unfolding settle settle_loop top_value_legal skip_by_tranc_id skip_hidden skip_deleted pop_key
    compare_bytes
hidden_deletion = refl

-- Without the deletion of "a" before it, it is shown.
hidden_deletion_first :
    settle 7 (item (b'b' ∷ []) [] 9 (pos 0) ∷ item (b'b' ∷ []) (b'x' ∷ []) 3 (pos 0) ∷ [])
    ≡ ok (item (b'b' ∷ []) (b'x' ∷ []) 3 (pos 0) ∷ [])
unfolding settle settle_loop top_value_legal skip_by_tranc_id skip_hidden skip_deleted pop_key
    compare_bytes
hidden_deletion_first = refl

new_iterator-Legal_example :
    (it : HeapIterator) × (new_iterator (λ items. items) popped 7 ≡ ok it)
    × Shown 7 it.items
    × Passes 7 popped it.items
new_iterator-Legal_example = new_iterator-Legal (λ items. items) popped 7

abbrev iterator : HeapIterator
iterator = record { items = item (b'a' ∷ []) (b'z' ∷ []) 5 (pos 0) ∷ popped; max_tranc_id = 7 }
