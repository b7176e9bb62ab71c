-- ===== src/Engine/Tests.antt =====
-- The theorems on the storage engine (src/engine/engine.cpp) at concrete inputs.
use lsm_tree_engine.Prelude.{ℕ, ◌≢◌, refl, ltb, List, [], ◌∷◌, ◌++◌, none, some, ok, arith}
use lsm_tree_engine.SkipList.{Version, new_list, make_head, make_node, no_nodes, get_size}
use lsm_tree_engine.Memtable.{Random, new_memtable, get_total_size, get_cur_size, get_frozen_size}
use lsm_tree_engine.Engine.{SstFiles, LsmEngine, get, flush}
use lsm_tree_engine.Engine.Compaction.{flush-fails}

-- Files that are their versions, with an id, and are never merged.
abbrev files : SstFiles
files = record {
  Builder = record {
    State = ℕ × List Version;
    Sst = ℕ × List Version;
    add = λ state key value tranc_id. ok (state.0, state.1 ++ ((key, value, tranc_id) ∷ []));
    build = λ state. ok state;
  };
  start = λ sst_id. (sst_id, []);
  get = λ sst key tranc_id. ok none;
  get_sst_id = λ sst. sst.0;
  compact = λ level xs ys next_sst_id. ok ([], next_sst_id);
  sort_ids = λ ids. ids;
}

abbrev fresh_engine : LsmEngine files
fresh_engine = record {
  memtable = new_memtable;
  level_sst_ids = λ level. [];
  ssts = λ sst_id. none;
  cur_max_level = 0;
  next_sst_id = 0;
}

abbrev random : Random
random = (λ k. ltb k 3, 5)

-- Seventeen files on the lowest level, and a frozen table.
abbrev overfull : LsmEngine files
overfull = record {
  memtable = record {
    current_table = new_list 16;
    frozen_tables = new_list 16 ∷ [];
    frozen_bytes = 10;
  };
  level_sst_ids =
      λ level. 16 ∷ 15 ∷ 14 ∷ 13 ∷ 12 ∷ 11 ∷ 10 ∷ 9 ∷ 8 ∷ 7 ∷ 6 ∷ 5 ∷ 4 ∷ 3 ∷ 2 ∷ 1 ∷ 0 ∷ [];
  ssts = λ sst_id. some (sst_id, []);
  cur_max_level = 0;
  next_sst_id = 0;
}

flush-fails_example : flush files 9 overfull ≢ ok fresh_engine
unfolding get_total_size get_cur_size get_frozen_size get_size new_list make_head make_node no_nodes
flush-fails_example = flush-fails files 9 overfull fresh_engine refl (omega arith)
