-- ===== src/Memtable.antt =====
-- src/memtable/memtable.cpp, include/memtable/memtable.h: the memory table, the table that is written
-- to and the frozen ones, newest first. A skip list is a value, so the iterator that a read gives is
-- the table and the node in it. The coin and the random bits of a skip list are arguments.
pub mod Contents
pub mod Reads
pub mod Flushing
pub mod Gathering
mod Tests
use lsm_tree_engine.Prelude.{
  ℕ, zero, suc, ◌+◌, ◌%◌, ◌^◌, ◌==◌, not, ◌&&◌, if◌then◌else◌, Bool, true, false, List, [], ◌∷◌,
  ◌++◌, Option, none, some, Result, ok, err, ◌>>=◌, from_option, out_of_bounds, Ordering,
}
use lsm_tree_engine.Bytes.{sub_size}
use lsm_tree_engine.SkipList.{
  SkipList, Version, new_list, get_size, flush, put as put_in_list, get as get_in_list,
  clear as clear_list,
}
use lsm_tree_engine.SkipList.Iterator.{SkipListIterator, read_all, read_until}
use lsm_tree_engine.SkipList.Range.{iters_monotony_predicate}
use lsm_tree_engine.Prelude.Int.{pos}
use lsm_tree_engine.HeapIterator.{HeapIterator, SearchItem, new_iterator}

pub record Memtable : Type 0 where
  pub current_table : SkipList
  pub frozen_tables : List SkipList
  pub frozen_bytes : ℕ

-- `SkipList(int max_level = 16)`.
abbrev pub default_list : SkipList
default_list = new_list 16

pub new_memtable : Memtable
new_memtable = record { current_table = default_list; frozen_tables = []; frozen_bytes = 0 }

-- The flips of a coin and the random bits for one `put`.
abbrev pub Random : Type 0
Random = (ℕ → Bool) × ℕ

pub put : Random → Memtable → List ℕ → List ℕ → ℕ → Result Memtable
put (coin, bits) m key value tranc_id = do
  table ← put_in_list coin bits m.current_table key value tranc_id
  ok (record m { current_table = table })

-- The loop over `kvs`, from the `i`-th on.
pub put_batch : (ℕ → Random) → ℕ → Memtable → List (List ℕ × List ℕ) → ℕ → Result Memtable
put_batch random i m [] tranc_id = ok m
put_batch random i m ((key, value) ∷ kvs) tranc_id = do
  m' ← put (random i) m key value tranc_id
  put_batch random (i + 1) m' kvs tranc_id

-- An empty value marks a key as deleted.
pub remove : Random → Memtable → List ℕ → ℕ → Result Memtable
remove (coin, bits) m key tranc_id = do
  table ← put_in_list coin bits m.current_table key [] tranc_id
  ok (record m { current_table = table })

pub remove_batch : (ℕ → Random) → ℕ → Memtable → List (List ℕ) → ℕ → Result Memtable
remove_batch random i m [] tranc_id = ok m
remove_batch random i m (key ∷ keys) tranc_id = do
  m' ← remove (random i) m key tranc_id
  remove_batch random (i + 1) m' keys tranc_id

pub clear : Memtable → Memtable
clear m = record {
  current_table = clear_list m.current_table;
  frozen_tables = [];
  frozen_bytes = 0;
}

-- A node of a table, or null.
abbrev pub Cursor : Type 0
Cursor = Option (SkipList × ℕ)

abbrev pub cursor_in : SkipList → SkipListIterator → Cursor
cursor_in table none = none
cursor_in table (some a) = some (table, a)

pub cur_get : Memtable → List ℕ → ℕ → Result Cursor
cur_get m key tranc_id = do
  res ← get_in_list m.current_table key tranc_id
  ok (cursor_in m.current_table res)

pub frozen_get : List SkipList → List ℕ → ℕ → Result Cursor
frozen_get [] key tranc_id = ok none
frozen_get (table ∷ tables) key tranc_id =
    let rest = frozen_get tables key tranc_id in
    (do
      res ← get_in_list table key tranc_id
      elim res [ none ↦ rest | some a ↦ ok (some (table, a)) ])

pub get : Memtable → List ℕ → ℕ → Result Cursor
get m key tranc_id = do
  result ← cur_get m key tranc_id
  elim result [ none ↦ frozen_get m.frozen_tables key tranc_id | some c ↦ ok (some c) ]

pub get_batch : Memtable → List (List ℕ) → ℕ → Result (List Cursor)
get_batch m [] tranc_id = ok []
get_batch m (key ∷ keys) tranc_id = do
  result₁ ← cur_get m key tranc_id
  result ← elim result₁ [ none ↦ frozen_get m.frozen_tables key tranc_id | some c ↦ ok (some c) ]
  results ← get_batch m keys tranc_id
  ok (result ∷ results)

unfoldable pub get_cur_size : Memtable → ℕ
get_cur_size m = get_size m.current_table

unfoldable pub get_frozen_size : Memtable → ℕ
get_frozen_size m = m.frozen_bytes

unfoldable pub get_total_size : Memtable → ℕ
get_total_size m = (get_cur_size m + get_frozen_size m) % 2 ^ 64

pub frozen_cur_table : Memtable → Memtable
frozen_cur_table m = record {
  frozen_bytes = (m.frozen_bytes + get_size m.current_table) % 2 ^ 64;
  frozen_tables = m.current_table ∷ m.frozen_tables;
  current_table = default_list;
}

-- What `flush_last` uses of `SSTBuilder`.
pub record SstBuilder : Type 1 where
  pub State : Type 0
  pub Sst : Type 0
  pub add : State → List ℕ → List ℕ → ℕ → Result State
  pub build : State → Result Sst

-- `back()` of a list of tables, and the list after `pop_back()`.
pub pop_back {ℓ} : {Table : Type ℓ} → Table → List Table → List Table × Table
pop_back table [] = ([], table)
pop_back table (t ∷ ts) = let (front, back) = pop_back t ts in (table ∷ front, back)

module _ (B : SstBuilder) where
  -- `for (auto &[k, v, t] : flush_data) builder.add(k, v, t);`
  pub add_all : B.State → List Version → Result B.State
  add_all builder [] = ok builder
  add_all builder ((key, value, tranc_id) ∷ versions) = do
    builder' ← B.add builder key value tranc_id
    add_all builder' versions

  -- The oldest frozen table goes to the builder.
  pub flush_frozen : Memtable → B.State → Result (Memtable × Option B.Sst)
  flush_frozen m builder = elim m.frozen_tables [
    | [] ↦ err out_of_bounds
    | t ∷ ts ↦ (do
      let popped = pop_back t ts
      flush_data ← flush popped.1
      builder' ← add_all builder flush_data
      sst ← B.build builder'
      ok (
        record m {
          frozen_tables = popped.0;
          frozen_bytes = (m.frozen_bytes + sub_size 0 (get_size popped.1)) % 2 ^ 64;
        },
        some sst,
      ))
  ]

  pub flush_last : Memtable → B.State → Result (Memtable × Option B.Sst)
  flush_last m builder = elim m.frozen_tables [
    | [] ↦
        if get_size m.current_table == 0
        then ok (m, none)
        else flush_frozen (frozen_cur_table m) builder
    | t ∷ ts ↦ flush_frozen m builder
  ]

-- The items of a table's versions that are not skipped.
pub collect : (ℕ → Bool) → ℕ → List Version → List SearchItem
collect skips table_idx [] = []
collect skips table_idx ((key, value, tranc_id) ∷ versions) =
    let rest = collect skips table_idx versions in
    let item : SearchItem = record {
      key = key;
      value = value;
      tranc_id = tranc_id;
      idx = pos table_idx;
      level = pos 0;
    } in
    if skips tranc_id then rest else item ∷ rest

-- What a loop over the tables gathers from what `read` gives for each, from index `table_idx` on.
pub gather :
    (SkipList → Result (List Version)) → (ℕ → Bool) → ℕ → List SkipList → Result (List SearchItem)
gather read skips table_idx [] = ok []
gather read skips table_idx (table ∷ tables) = do
  versions ← read table
  rest ← gather read skips (table_idx + 1) tables
  ok (collect skips table_idx versions ++ rest)

-- `tranc_id != 0 && iter.get_tranc_id() != tranc_id`.
abbrev pub skips_others : ℕ → ℕ → Bool
skips_others tranc_id id = not (tranc_id == 0) && not (id == tranc_id)

-- `tranc_id != 0 && iter.get_tranc_id() == tranc_id > tranc_id`: the `>` binds closer, and is false.
abbrev pub skips_zero : ℕ → ℕ → Bool
skips_zero tranc_id id = not (tranc_id == 0) && (id == 0)

-- `Memtable::begin`; `queue` is the order in which the heap of the iterator pops.
pub begin : (List SearchItem → List SearchItem) → Memtable → ℕ → Result HeapIterator
begin queue m tranc_id = do
  items ← gather read_all (skips_others tranc_id) 0 (m.current_table ∷ m.frozen_tables)
  new_iterator queue items tranc_id

pub end : HeapIterator
end = record { items = []; max_tranc_id = 0 }

-- The nodes of a table in the range of the predicate.
pub read_range : (List ℕ → Ordering) → SkipList → Result (List Version)
read_range predicate table = do
  result ← iters_monotony_predicate table predicate
  elim result [ none ↦ ok [] | some range ↦ read_until table range.1 (suc table.fresh) range.0 ]

pub iter_monotony_predicate :
    (List SearchItem → List SearchItem)
    → Memtable
    → ℕ
    → (List ℕ → Ordering)
    → Result (Option (HeapIterator × HeapIterator))
iter_monotony_predicate queue m tranc_id predicate = do
  items ← gather (read_range predicate) (skips_zero tranc_id) 0 (m.current_table ∷ m.frozen_tables)
  first ← new_iterator queue items tranc_id
  ok (some (first, end))
