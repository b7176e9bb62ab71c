-- ===== src/HeapIterator.antt =====
-- src/iterator/iterator.cpp, include/iterator/iterator.h: the heap iterator. Nothing is pushed after the
-- constructor, so the `std::priority_queue` is the list of its items in the order in which it pops them; that
-- order is the parameter `queue`. An index and a level are `int`s.
pub mod Passing
pub mod Legal
mod Tests
use lsm_tree_engine.Prelude.{
  ℕ, zero, suc, leb, ltb, ◌==◌, if◌then◌else◌, Bool, true, false, not, ◌&&◌, ◌||◌, List, [], ◌∷◌,
  length, Result, ok, err, ◌>>=◌, stuck, out_of_bounds,
}
use lsm_tree_engine.Prelude.Int.{ℤ, ltb_ℤ, eq_ℤ}
use lsm_tree_engine.Prelude.Order.{eq_bytes, lt_bytes}

pub record SearchItem : Type 0 where
  pub key : List ℕ
  pub value : List ℕ
  pub tranc_id : ℕ
  pub idx : ℤ
  pub level : ℤ

-- `operator<`, `operator>` and `operator==`.
pub item_lt : SearchItem → SearchItem → Bool
item_lt a b =
    if not (eq_bytes a.key b.key)
    then lt_bytes a.key b.key
    else ltb b.tranc_id a.tranc_id || (ltb_ℤ a.level b.level || ltb_ℤ a.idx b.idx)

pub item_gt : SearchItem → SearchItem → Bool
item_gt a b =
    if not (eq_bytes a.key b.key)
    then lt_bytes b.key a.key
    else ltb a.tranc_id b.tranc_id || (ltb_ℤ a.level b.level || ltb_ℤ b.idx a.idx)

pub item_eq : SearchItem → SearchItem → Bool
item_eq a b = eq_ℤ a.idx b.idx && eq_bytes a.key b.key

pub record HeapIterator : Type 0 where
  pub items : List SearchItem
  pub max_tranc_id : ℕ

abbrev pub is_empty : List ℕ → Bool
is_empty [] = true
is_empty (x ∷ xs) = false

pub top_value_legal : ℕ → List SearchItem → Bool
top_value_legal max_tranc_id [] = true
top_value_legal max_tranc_id (top ∷ rest) =
    if max_tranc_id == 0
    then not (is_empty top.value)
    else if leb top.tranc_id max_tranc_id
    then not (is_empty top.value)
    else false

pub skip_hidden : ℕ → List SearchItem → List SearchItem
skip_hidden max_tranc_id [] = []
skip_hidden max_tranc_id (top ∷ rest) =
    if ltb max_tranc_id top.tranc_id then skip_hidden max_tranc_id rest else top ∷ rest

pub skip_by_tranc_id : ℕ → List SearchItem → List SearchItem
skip_by_tranc_id max_tranc_id items =
    if max_tranc_id == 0 then items else skip_hidden max_tranc_id items

-- `while (!items.empty() && items.top().key_ == key) items.pop();`
pub pop_key : List ℕ → List SearchItem → List SearchItem
pop_key key [] = []
pop_key key (top ∷ rest) = if eq_bytes top.key key then pop_key key rest else top ∷ rest

-- The loop over the elements that are marked as deleted, on fuel.
pub skip_deleted : ℕ → List SearchItem → Result (List SearchItem)
skip_deleted zero items = err stuck
skip_deleted (suc fuel) [] = ok []
skip_deleted (suc fuel) (top ∷ rest) =
    let next = skip_deleted fuel (pop_key top.key (top ∷ rest)) in
    if is_empty top.value then next else ok (top ∷ rest)

-- `while (!top_value_legal())`, on fuel.
pub settle_loop : ℕ → ℕ → List SearchItem → Result (List SearchItem)
settle_loop zero max_tranc_id items = err stuck
settle_loop (suc fuel) max_tranc_id items =
    let visible = skip_by_tranc_id max_tranc_id items in
    let round = (do
      items' ← skip_deleted (suc (length visible)) visible
      settle_loop fuel max_tranc_id items') in
    if top_value_legal max_tranc_id items then ok items else round

-- A round takes an item at least, so a round for each and one more are enough.
pub settle : ℕ → List SearchItem → Result (List SearchItem)
settle max_tranc_id items = settle_loop (suc (length items)) max_tranc_id items

pub new_iterator : (List SearchItem → List SearchItem) → List SearchItem → ℕ → Result HeapIterator
new_iterator queue item_vec max_tranc_id = do
  items ← settle max_tranc_id (queue item_vec)
  ok (record { items = items; max_tranc_id = max_tranc_id })

-- `operator++`: the items of the same key go, and what may not be shown behind them.
pub advance_items : ℕ → List SearchItem → Result (List SearchItem)
advance_items max_tranc_id [] = ok []
advance_items max_tranc_id (old_item ∷ rest) = settle max_tranc_id (pop_key old_item.key rest)

pub advance : HeapIterator → Result HeapIterator
advance it = do items ← advance_items it.max_tranc_id it.items; ok (record it { items = items })

-- `operator*`; `top()` of an empty queue is undefined.
pub deref : HeapIterator → Result (List ℕ × List ℕ)
deref it = elim it.items [ [] ↦ err out_of_bounds | top ∷ rest ↦ ok (top.key, top.value) ]

-- `operator==` with another heap iterator.
pub same_items : List SearchItem → List SearchItem → Bool
same_items [] [] = true
same_items [] (j ∷ js) = false
same_items (i ∷ is) [] = false
same_items (i ∷ is) (j ∷ js) = eq_bytes i.key j.key && eq_bytes i.value j.value

pub is_end : HeapIterator → Bool
is_end it = elim it.items [ [] ↦ true | top ∷ rest ↦ false ]
