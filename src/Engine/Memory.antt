-- ===== src/Engine/Memory.antt =====
-- `LSMEngine::put` and `LSMEngine::get` (src/engine/engine.cpp) while the memory table is below its limit.
use lsm_tree_engine.Prelude.{
  ℕ, ◌%◌, ◌^◌, ◌<◌, ◌≡◌, refl, ◌∙◌, ap, ◌==◌, leb, false, Bool-cases, inl, inr, List, Option, none,
  some, ok, arith,
}
use lsm_tree_engine.SkipList.{Version, version_at}
use lsm_tree_engine.SkipList.Versions.{insert_version, total_size}
use lsm_tree_engine.SkipList.Laws.{find-insert_same}
use lsm_tree_engine.Memtable.{Memtable, Cursor, Random, get_cur_size, get as get_in_memory}
use mathlib.Core.Option.{some-injective}
use lsm_tree_engine.Memtable.Contents.{Contains, put-Contains, get_cur_size-total_size}
use lsm_tree_engine.Memtable.Reads.{cursor_version, find_tables, or_else, get-find_tables}
use lsm_tree_engine.Engine.{
  SstFiles, LsmEngine, total_mem_size_limit, unless_deleted, put, get, flush_full,
}

module _ (F : SstFiles) where
  flush_full-below :
      (fuel : ℕ) (size : Memtable → ℕ) (e : LsmEngine F)
      → size e.memtable < total_mem_size_limit
      → flush_full F fuel size e ≡ ok e
  unfolding flush_full
  flush_full-below fuel size e below =
      elim (Bool-cases (leb total_mem_size_limit (size e.memtable))) [
        | inl full ↦ absurd (ground arith)
        | inr room ↦ rw room refl
      ]

  get-cursor :
      (e : LsmEngine F) (key value : List ℕ) (tranc_id : ℕ) (c : Cursor)
      → get_in_memory e.memtable key tranc_id ≡ ok c
      → cursor_version c ≡ some (key, value, tranc_id)
      → get F e key tranc_id ≡ ok (unless_deleted F (value, tranc_id))
  unfolding get
  get-cursor e key value tranc_id none run found = cc
  get-cursor e key value tranc_id (some (table, a)) run found =
      let same : version_at table a ≡ (key, value, tranc_id) = some-injective _ _ found in
      rw run (ap (λ (v : Version). ok (unless_deleted F (v.1, v.2))) same)

  pub put-get_engine :
      (fuel : ℕ) (random : Random) (e : LsmEngine F) (current : List Version)
      (frozen : List (List Version)) (key value : List ℕ) (tranc_id : ℕ)
      → Contains e.memtable current frozen
      → (tranc_id == 0) ≡ false
      → total_size (insert_version (key, value, tranc_id) current) < total_mem_size_limit
      → (e' : LsmEngine F) × (put F fuel random e key value tranc_id ≡ ok e')
        × (get F e' key tranc_id ≡ ok (unless_deleted F (value, tranc_id)))
        × Contains e'.memtable (insert_version (key, value, tranc_id) current) frozen
  unfolding put find_tables
  put-get_engine fuel random e current frozen key value tranc_id h snapshot below =
      let now : List Version = insert_version (key, value, tranc_id) current in
      let (m', run, h') = put-Contains random e.memtable current frozen h key value tranc_id in
      let e' : LsmEngine F = record e { memtable = m' } in
      let size : get_cur_size m' ≡ total_size now % 2 ^ 64 =
        get_cur_size-total_size m' now frozen h' in
      let (c, run', found) = get-find_tables m' now frozen key tranc_id h' in
      let stays = flush_full-below fuel get_cur_size e' (omega (arith, size, below)) in
      (
        e',
        rw run stays,
        get-cursor e' key value tranc_id c run' (
            found
            ∙ ap (λ (x : Option Version). or_else x (find_tables key tranc_id frozen))
                (find-insert_same key value tranc_id current snapshot)),
        h',
      )
