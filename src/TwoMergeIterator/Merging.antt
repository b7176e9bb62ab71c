-- ===== src/TwoMergeIterator/Merging.antt =====
-- The merge (src/engine/two_merge_iterator.cpp) of two iterators over lists.
use lsm_tree_engine.Prelude.{
  ap, ℕ, zero, suc, ◌+◌, ◌<◌, ◌≡◌, refl, if◌then◌else◌, Bool, true, false, not, Bool-cases, inl,
  inr, List, [], ◌∷◌, length, some, Result, ok, err, ◌>>=◌, out_of_bounds, stuck, arith,
}
use lsm_tree_engine.Prelude.Order.{lt_bytes}
use lsm_tree_engine.TwoMergeIterator.{
  Item, BaseIterator, TwoMergeIterator, key_less, choose_between, choose_it_a, skip_it_b, choose,
  new_iterator, advance_from, advance, deref_from, deref, both_ended, is_end,
}

abbrev pub at_end : List Item → Bool
at_end [] = true
at_end (x ∷ xs) = false

abbrev tail : List Item → Result (List Item)
tail [] = err out_of_bounds
tail (x ∷ xs) = ok xs

abbrev head : List Item → Result Item
head [] = err out_of_bounds
head (x ∷ xs) = ok x

-- An iterator over a list, whose cursor is what is left of it.
abbrev pub listed : BaseIterator
listed = record {
  Cursor = List Item;
  step = tail;
  item_at = head;
  ended = at_end;
  valid = λ xs. not (at_end xs);
  same = λ xs ys. false;
}

-- The merge of two lists; of equal keys that of the second list comes first.
unfoldable pub merge : List Item → List Item → List Item
merge [] ys = ys
merge (x ∷ xs) [] = x ∷ xs
merge (x ∷ xs) (y ∷ ys) = if lt_bytes x.0 y.0 then x ∷ merge xs (y ∷ ys) else y ∷ merge (x ∷ xs) ys

-- All items from the iterator on, on fuel.
pub drain : ℕ → TwoMergeIterator listed listed → Result (List Item)
drain zero it = err stuck
drain (suc fuel) it =
    let next = (do
      item ← deref listed listed it
      it' ← advance listed listed it
      items ← drain fuel it'
      ok (item ∷ items)) in
    if is_end listed listed it then ok [] else next

merge-nil : (xs : List Item) → merge xs [] ≡ xs
unfolding merge
merge-nil [] = refl
merge-nil (x ∷ xs) = refl

abbrev chosen : List Item → List Item → Bool
chosen [] ys = false
chosen (x ∷ xs) [] = true
chosen (x ∷ xs) (y ∷ ys) = lt_bytes x.0 y.0

abbrev at_lists : List Item → List Item → ℕ → TwoMergeIterator listed listed
at_lists xs ys id = record {
  it_a = some xs;
  it_b = some ys;
  choose_a = chosen xs ys;
  max_tranc_id = id;
}

choose_lem :
    (xs ys : List Item) (id : ℕ)
    → choose listed listed (some xs) (some ys) id ≡ ok (at_lists xs ys id)
unfolding choose skip_it_b choose_it_a choose_between key_less
choose_lem [] [] id = refl
choose_lem [] (y ∷ ys) id = refl
choose_lem (x ∷ xs) [] id = refl
choose_lem (x ∷ xs) (y ∷ ys) id = refl

drain_lem :
    (fuel : ℕ) (xs ys : List Item) (id : ℕ)
    → length xs + length ys < fuel
    → drain fuel (at_lists xs ys id) ≡ ok (merge xs ys)
unfolding drain merge is_end both_ended deref deref_from advance advance_from
drain_lem zero xs ys id room = elim room [ ]
drain_lem (suc fuel) [] [] id room = refl
drain_lem (suc fuel) [] (y ∷ ys) id room =
    rw (choose_lem [] ys id, drain_lem fuel [] ys id (omega arith)) refl
drain_lem (suc fuel) (x ∷ xs) [] id room =
    rw (choose_lem xs [] id, drain_lem fuel xs [] id (omega arith))
      (ap (λ (items : List Item). ok (x ∷ items)) (merge-nil xs))
drain_lem (suc fuel) (x ∷ xs) (y ∷ ys) id room = elim (Bool-cases (lt_bytes x.0 y.0)) [
  | inl less ↦
      rw (less, choose_lem xs (y ∷ ys) id, drain_lem fuel xs (y ∷ ys) id (omega arith)) refl
  | inr not_less ↦
      rw (not_less, choose_lem (x ∷ xs) ys id, drain_lem fuel (x ∷ xs) ys id (omega arith)) refl
]

-- Two iterators over lists, merged and read to the end with a round for each item and one more, give the merge
-- of the lists by keys: nothing is skipped, and of equal keys the item of the second iterator comes first.
pub drain-new_iterator :
    (xs ys : List Item) (id : ℕ)
    → (new_iterator listed listed xs ys id >>= drain (suc (length xs + length ys)))
      ≡ ok (merge xs ys)
unfolding new_iterator
drain-new_iterator xs ys id =
    rw (choose_lem xs ys id) (drain_lem (suc (length xs + length ys)) xs ys id (omega arith))
