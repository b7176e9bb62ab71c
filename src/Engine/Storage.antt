-- ===== src/Engine/Storage.antt =====
-- The storage engine (src/engine/engine.cpp) as what transactions (src/engine/transaction.cpp) use of
-- it. The flips and bits of later writes stand beside the engine; `fuel` is that of the compaction.
use lsm_tree_engine.Prelude.{
  ℕ, suc, List, Option, none, some, ok, ◌>>=◌, ◌<◌, ◌≡◌, refl, ◌==◌, false,
}
use lsm_tree_engine.SkipList.{Version}
use lsm_tree_engine.SkipList.Versions.{insert_version, total_size}
use lsm_tree_engine.Memtable.{Cursor, Random, get as get_in_memory}
use lsm_tree_engine.Memtable.Contents.{Contains}
use lsm_tree_engine.Engine.{
  SstFiles, LsmEngine, Found, total_mem_size_limit, unless_deleted, put, remove, get, sst_get,
}
use lsm_tree_engine.Engine.Memory.{put-get_engine}
use lsm_tree_engine.Transaction.Storage.{Engine}

module _ (F : SstFiles) (fuel : ℕ) where
  -- The engine, and the randomness of the writes to come.
  abbrev pub Running : Type 0
  Running = LsmEngine F × (ℕ → Random)

  abbrev later : (ℕ → Random) → ℕ → Random
  later random i = random (suc i)

  abbrev pub found_in : Cursor → Option Found
  found_in none = none
  found_in (some (table, a)) = some ((table.nodes a).value, (table.nodes a).tranc_id)

  abbrev pub storage : Engine
  storage = record {
    Contents = Running;
    get = λ c key tranc_id. get F c.0 key tranc_id;
    put = λ c key value tranc_id. (do
      e ← put F fuel (c.1 0) c.0 key value tranc_id
      ok (e, later c.1));
    remove = λ c key tranc_id. (do e ← remove F fuel (c.1 0) c.0 key tranc_id; ok (e, later c.1));
    memtable_get = λ c key tranc_id. (do
      cursor ← get_in_memory c.0.memtable key tranc_id
      ok (found_in cursor));
    sst_get = λ c key tranc_id. sst_get F c.0 key tranc_id;
  }

  -- What a transaction writes to this storage it reads back from it, below the limit of the memory table.
  pub storage-put-get :
      (c : Running) (current : List Version) (frozen : List (List Version)) (key value : List ℕ)
      (tranc_id : ℕ)
      → Contains c.0.memtable current frozen
      → (tranc_id == 0) ≡ false
      → total_size (insert_version (key, value, tranc_id) current) < total_mem_size_limit
      → (c' : Running) × (storage.put c key value tranc_id ≡ ok c')
        × (storage.get c' key tranc_id ≡ ok (unless_deleted F (value, tranc_id)))
  storage-put-get c current frozen key value tranc_id h snapshot below =
      let (e, run, found, h') =
        put-get_engine F fuel (c.1 0) c.0 current frozen key value tranc_id h snapshot below in
      ((e, later c.1), rw run refl, found)
