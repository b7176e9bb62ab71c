-- ===== src/TwoMergeIterator/Tests.antt =====
-- The theorem on the merge of two iterators (src/engine/two_merge_iterator.cpp) at a concrete input.
use lsm_tree_engine.Prelude.{◌+◌, ◌≡◌, refl, suc, List, [], ◌∷◌, length, ok, ◌>>=◌}
use lsm_tree_engine.Prelude.Order.{compare_bytes}
use lsm_tree_engine.TwoMergeIterator.{Item, new_iterator}
use lsm_tree_engine.TwoMergeIterator.Merging.{listed, merge, drain, drain-new_iterator}

abbrev newer : List Item
newer = (b'a' ∷ [], b'n' ∷ []) ∷ (b'c' ∷ [], b'n' ∷ []) ∷ []

abbrev older : List Item
older = (b'a' ∷ [], b'o' ∷ []) ∷ (b'b' ∷ [], b'o' ∷ []) ∷ []

-- Key "a" is shown twice, the older value first.
shown :
    merge newer older
    ≡ (b'a' ∷ [], b'o' ∷ [])
      ∷ (b'a' ∷ [], b'n' ∷ [])
      ∷ (b'b' ∷ [], b'o' ∷ [])
      ∷ (b'c' ∷ [], b'n' ∷ [])
      ∷ []
unfolding merge compare_bytes
shown = refl

drain-new_iterator_example :
    (new_iterator listed listed newer older 7 >>= drain (suc (length newer + length older)))
    ≡ ok (merge newer older)
drain-new_iterator_example = drain-new_iterator newer older 7
