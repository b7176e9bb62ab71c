-- ===== src/Memtable/Tests.antt =====
-- The theorems on the memory table (src/memtable/memtable.cpp) at concrete inputs.
use lsm_tree_engine.Prelude.{ℕ, ◌≡◌, ltb, List, [], ◌∷◌, ◌++◌, ok}
use lsm_tree_engine.SkipList.{Version}
use lsm_tree_engine.Memtable.{Memtable, Random, SstBuilder, Cursor, new_memtable, get, put_batch}
use lsm_tree_engine.Memtable.Contents.{
  Contains, insert_pairs, put_batch-Contains, new_memtable-Contains,
}
use lsm_tree_engine.Memtable.Reads.{cursor_version, find_tables, get-find_tables}

abbrev random : ℕ → Random
random i = (λ k. ltb k i, i)

abbrev pairs : List (List ℕ × List ℕ)
pairs = (b'b' ∷ [], 1 ∷ []) ∷ (b'a' ∷ [], 2 ∷ []) ∷ []

put_batch-Contains_example :
    (m : Memtable) × (put_batch random 0 new_memtable pairs 5 ≡ ok m)
    × Contains m (insert_pairs pairs 5 []) []
put_batch-Contains_example =
    put_batch-Contains random 0 pairs 5 new_memtable [] [] new_memtable-Contains

abbrev filled :
    (m : Memtable) × (put_batch random 0 new_memtable pairs 5 ≡ ok m)
    × Contains m (insert_pairs pairs 5 []) []
filled = put_batch-Contains random 0 pairs 5 new_memtable [] [] new_memtable-Contains

abbrev versions : List Version
versions = insert_pairs pairs 5 []

get-find_tables_example :
    (c : Cursor) × (get filled.0 (b'a' ∷ []) 7 ≡ ok c)
    × (cursor_version c ≡ find_tables (b'a' ∷ []) 7 (versions ∷ []))
get-find_tables_example = get-find_tables filled.0 versions [] (b'a' ∷ []) 7 filled.2

-- A builder that keeps what it is given.
abbrev listing : SstBuilder
listing = record {
  State = List Version;
  Sst = List Version;
  add = λ state key value tranc_id. ok (state ++ ((key, value, tranc_id) ∷ []));
  build = λ state. ok state;
}
