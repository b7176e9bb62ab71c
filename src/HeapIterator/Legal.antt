-- ===== src/HeapIterator/Legal.antt =====
-- The heap iterator (src/iterator/iterator.cpp) comes to rest at a value that may be shown, and what it
-- passes over.
use lsm_tree_engine.HeapIterator.Passing.{
  Shown, Passes, legal-Shown, pop_key-Passes, skip_by_tranc_id-Passes, Passes-trans,
}
use lsm_tree_engine.HeapIterator.{
  SearchItem, HeapIterator, is_empty, top_value_legal, skip_hidden, skip_by_tranc_id, pop_key,
  skip_deleted, settle_loop, settle, new_iterator, item_gt,
}
use lsm_tree_engine.Prelude.{
  ◌⊎◌, ◌++◌, All, ℕ, zero, suc, ◌≤◌, ◌<◌, ◌≡◌, refl, sym, ltb, ◌==◌, true, false, Bool-cases, inl,
  inr, List, [], ◌∷◌, length, ok, arith,
}
use lsm_tree_engine.Prelude.Order.{eq_bytes_iff}
use lsm_tree_engine.Prelude.Int.{ltb_ℤ}

length-pop_key :
    (key : List ℕ) (items : List SearchItem) → length (pop_key key items) ≤ length items
unfolding pop_key
length-pop_key key [] = omega arith
length-pop_key key (top ∷ rest) = ground (arith, length-pop_key key rest)

length-pop_key_self :
    (top : SearchItem) (rest : List SearchItem)
    → length (pop_key top.key (top ∷ rest)) ≤ length rest
unfolding pop_key
length-pop_key_self top rest =
    rw ((eq_bytes_iff top.key top.key).1 refl) (length-pop_key top.key rest)

length-skip_hidden :
    (id : ℕ) (items : List SearchItem) → length (skip_hidden id items) ≤ length items
unfolding skip_hidden
length-skip_hidden id [] = omega arith
length-skip_hidden id (top ∷ rest) = ground (arith, length-skip_hidden id rest)

length-skip_by_tranc_id :
    (id : ℕ) (items : List SearchItem) → length (skip_by_tranc_id id items) ≤ length items
unfolding skip_by_tranc_id
length-skip_by_tranc_id id items = ground (arith, length-skip_hidden id items)

-- The inner loop ends, and no item is added.
skip_deleted_lem :
    (id fuel : ℕ) (items : List SearchItem)
    → length items < fuel
    → (items' : List SearchItem) × (skip_deleted fuel items ≡ ok items')
      × Passes id items items'
      × (length items' ≤ length items)
unfolding skip_deleted
skip_deleted_lem id zero items room = elim room [ ]
skip_deleted_lem id (suc fuel) [] room = ([], refl, ([], refl, tt), omega arith)
skip_deleted_lem id (suc fuel) (top ∷ rest) room = elim (Bool-cases (is_empty top.value)) [
  | inr live ↦ (top ∷ rest, rw live refl, ([], refl, tt), omega arith)
  | inl deleted ↦
      let shorter = length-pop_key_self top rest in
      let behind : List SearchItem = pop_key top.key (top ∷ rest) in
      let (items', run, passes, less) = skip_deleted_lem id fuel behind (omega (arith, shorter)) in
      (
        items',
        rw deleted run,
        Passes-trans id (top ∷ rest) behind items' (pop_key-Passes id top rest deleted) passes,
        omega (arith, shorter, less),
      )
]

-- An item that may not be shown is hidden from the transaction, or marks a deletion.
illegal_cases :
    (id : ℕ) (top : SearchItem) (rest : List SearchItem)
    → top_value_legal id (top ∷ rest) ≡ false
    → (skip_by_tranc_id id (top ∷ rest) ≡ skip_hidden id rest)
      ⊎ ((skip_by_tranc_id id (top ∷ rest) ≡ top ∷ rest) × (is_empty top.value ≡ true))
unfolding top_value_legal skip_by_tranc_id skip_hidden
illegal_cases id top rest illegal = elim (Bool-cases (id == 0)) [
  | inl none_begun ↦ inr (ground arith, ground arith)
  | inr begun ↦ elim (Bool-cases (ltb id top.tranc_id)) [
    | inl hidden ↦ inl (ground arith)
    | inr visible ↦ inr (ground arith, ground arith)
  ]
]

-- A round at an item that may not be shown loses an item.
skip_deleted_less :
    (id : ℕ) (items : List SearchItem)
    → top_value_legal id items ≡ false
    → (items' : List SearchItem) × (skip_deleted
          (suc (length (skip_by_tranc_id id items)))
          (skip_by_tranc_id id items)
        ≡ ok items')
      × Passes id items items'
      × (length items' < length items)
unfolding top_value_legal
skip_deleted_less id [] illegal = cc
skip_deleted_less id (top ∷ rest) illegal = elim (illegal_cases id top rest illegal) [
  | inl hidden ↦
      let (items', run, passes, less) =
        skip_deleted_lem id (suc (length (skip_hidden id rest))) (skip_hidden id rest)
          (omega arith) in
      (
        items',
        rw hidden run,
        Passes-trans id (top ∷ rest) (skip_hidden id rest) items'
            (rw hidden at (skip_by_tranc_id-Passes id (top ∷ rest))) passes,
        omega (arith, less, length-skip_hidden id rest),
      )
  | inr (stays, deleted) ↦
      let shorter = length-pop_key_self top rest in
      let behind : List SearchItem = pop_key top.key (top ∷ rest) in
      let (items', run, passes, less) =
        skip_deleted_lem id (suc (length rest)) behind (omega (arith, shorter)) in
      (
        items',
        rw stays (unfold skip_deleted in rw deleted run),
        Passes-trans id (top ∷ rest) behind items' (pop_key-Passes id top rest deleted) passes,
        omega (arith, less, shorter),
      )
]

settle_loop_lem :
    (fuel id : ℕ) (items : List SearchItem)
    → length items < fuel
    → (items' : List SearchItem) × (settle_loop fuel id items ≡ ok items')
      × Shown id items'
      × Passes id items items'
      × (length items' ≤ length items)
unfolding settle_loop
settle_loop_lem zero id items room = elim room [ ]
settle_loop_lem (suc fuel) id items room = elim (Bool-cases (top_value_legal id items)) [
  | inl legal ↦ (items, rw legal refl, legal-Shown id items legal, ([], refl, tt), omega arith)
  | inr illegal ↦
      let (items₁, run₁, passes₁, less₁) = skip_deleted_less id items illegal in
      let (items₂, run₂, shown, passes₂, less₂) =
        settle_loop_lem fuel id items₁ (omega (arith, less₁)) in
      (
        items₂,
        rw (illegal, run₁) run₂,
        shown,
        Passes-trans id items items₁ items₂ passes₁ passes₂,
        omega (arith, less₁, less₂),
      )
]

-- The constructor ends, in whatever order the queue pops its items, and the iterator it makes is at
-- its end or at an item with a value, of a transaction that it sees if it was given one. The items in
-- front of it that are gone are each of a transaction that it does not see, or of a key of which a
-- mark of its deletion is gone with them.
pub new_iterator-Legal :
    (queue : List SearchItem → List SearchItem) (item_vec : List SearchItem) (max_tranc_id : ℕ)
    → (it : HeapIterator) × (new_iterator queue item_vec max_tranc_id ≡ ok it)
      × Shown max_tranc_id it.items
      × Passes max_tranc_id (queue item_vec) it.items
unfolding new_iterator settle
new_iterator-Legal queue item_vec max_tranc_id =
    let (items, run, shown, passes, less) =
      settle_loop_lem (suc (length (queue item_vec))) max_tranc_id (queue item_vec) (omega arith) in
    (record { items = items; max_tranc_id = max_tranc_id }, rw run refl, shown, passes)

-- What a step leaves behind: nothing of an iterator at its end; otherwise the item it was at and
-- those of the same key directly behind it, and then only what may be passed over.
abbrev pub Steps : ℕ → List SearchItem → List SearchItem → Type 0
Steps id [] items' = items' ≡ []
Steps id (old ∷ rest) items' =
    (run : List SearchItem) × (behind : List SearchItem) × (rest ≡ run ++ behind)
    × All (λ (e : SearchItem). e.key ≡ old.key) run
    × Passes id behind items'

-- `operator>` orders two items of one key both ways round if the older version has the lower level.
pub item_gt-both :
    (a b : SearchItem)
    → a.key ≡ b.key
    → a.tranc_id < b.tranc_id
    → ltb_ℤ b.level a.level ≡ true
    → (item_gt a b ≡ true) × (item_gt b a ≡ true)
unfolding item_gt
item_gt-both a b same older lower =
    let there = (eq_bytes_iff a.key b.key).1 same in
    let back = (eq_bytes_iff b.key a.key).1 (sym same) in (ground arith, ground arith)
