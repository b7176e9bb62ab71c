-- ===== src/Transaction/Storage.antt =====
-- What transactions (src/engine/transaction.cpp) use of the storage engine (include/engine/engine.h): the
-- contents of its memory table and its SST files, and the operations on them. The block cache, which
-- reads fill, is no part of the contents. `memtable_get` is `memtable.get_` followed by `is_valid()`.
use lsm_tree_engine.Prelude.{ℕ, List, Option, Result}

-- A value and the transaction that wrote it.
abbrev pub Found : Type 0
Found = List ℕ × ℕ

pub record Engine : Type 1 where
  pub Contents : Type 0
  pub get : Contents → List ℕ → ℕ → Result (Option Found)
  pub put : Contents → List ℕ → List ℕ → ℕ → Result Contents
  pub remove : Contents → List ℕ → ℕ → Result Contents
  pub memtable_get : Contents → List ℕ → ℕ → Result (Option Found)
  pub sst_get : Contents → List ℕ → ℕ → Result (Option Found)
