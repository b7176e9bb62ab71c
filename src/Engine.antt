-- ===== src/Engine.antt =====
-- src/engine/engine.cpp, include/engine/engine.h: the storage engine over its memory table and its SST
-- files. A file that is not in `ssts`, or a null pointer there, is `none`; a level that is not in
-- `level_sst_ids` is empty. The files, their builder and their merge are the interface `SstFiles`.
pub mod Memory
pub mod Compaction
pub mod Storage
mod Tests
use lsm_tree_engine.Prelude.{
  ℕ, zero, suc, ◌+◌, ◌*◌, ◌%◌, ◌^◌, max, ltb, leb, ◌==◌, if◌then◌else◌, Bool, List, [], ◌∷◌, length,
  map, Option, none, some, Result, ok, err, ◌>>=◌, from_option, out_of_bounds, stuck,
}
use lsm_tree_engine.SkipList.{at_put}
use lsm_tree_engine.Memtable.{
  Memtable, Cursor, Random, SstBuilder, get_total_size, get_cur_size, flush_last,
  put as put_in_memory, put_batch as put_batch_in_memory, remove as remove_in_memory,
  remove_batch as remove_batch_in_memory, get as get_in_memory, clear as clear_memory,
}

-- include/const.h.
abbrev pub total_mem_size_limit : ℕ
total_mem_size_limit = 64 * 1024 * 1024

abbrev pub per_mem_size_limit : ℕ
per_mem_size_limit = 1024 * 1024 * 1024

abbrev pub sst_level_ratio : ℕ
sst_level_ratio = 16

-- A value and the transaction that wrote it.
abbrev pub Found : Type 0
Found = List ℕ × ℕ

-- The SST files: `start` is a new builder for the file of an id, `get` gives what `SST::get` finds
-- before `SST::end`, and `compact` is `full_l0_l1_compact` or `full_lx_ly_compact` by the source's
-- level, with the next free id before and after.
pub record SstFiles : Type 1 where
  pub Builder : SstBuilder
  pub start : ℕ → Builder.State
  pub get : Builder.Sst → List ℕ → ℕ → Result (Option Found)
  pub get_sst_id : Builder.Sst → ℕ
  pub compact :
      ℕ → List (Option Builder.Sst) → List (Option Builder.Sst) → ℕ → Result (List Builder.Sst × ℕ)
  pub sort_ids : List ℕ → List ℕ

module _ (F : SstFiles) where
  pub record LsmEngine : Type 0 where
    pub memtable : Memtable
    pub level_sst_ids : ℕ → List ℕ
    pub ssts : ℕ → Option F.Builder.Sst
    pub cur_max_level : ℕ
    pub next_sst_id : ℕ

  -- An empty value marks a deleted key.
  abbrev pub unless_deleted : Found → Option Found
  unless_deleted ([], tranc_id) = none
  unless_deleted ((byte ∷ value), tranc_id) = some ((byte ∷ value), tranc_id)

  -- The files of the lowest level, from the newest on.
  pub sst_get_loop : LsmEngine → List ℕ → ℕ → List ℕ → Result (Option Found)
  sst_get_loop e key tranc_id [] = ok none
  sst_get_loop e key tranc_id (sst_id ∷ sst_ids) =
      let rest = sst_get_loop e key tranc_id sst_ids in
      (do
        sst ← from_option out_of_bounds (e.ssts sst_id)
        res ← F.get sst key tranc_id
        elim res [ none ↦ rest | some found ↦ ok (unless_deleted found) ])

  pub sst_get : LsmEngine → List ℕ → ℕ → Result (Option Found)
  sst_get e key tranc_id = sst_get_loop e key tranc_id (e.level_sst_ids 0)

  pub get : LsmEngine → List ℕ → ℕ → Result (Option Found)
  get e key tranc_id = do
    value ← get_in_memory e.memtable key tranc_id
    elim value [
      | none ↦ sst_get e key tranc_id
      | some c ↦ ok (unless_deleted ((c.0.nodes c.1).value, (c.0.nodes c.1).tranc_id))
    ]

  -- `for (auto &old_sst_id : ids) { ssts[old_sst_id]->del_sst(); ssts.erase(old_sst_id); }`
  pub delete_ssts : List ℕ → (ℕ → Option F.Builder.Sst) → Result (ℕ → Option F.Builder.Sst)
  delete_ssts [] ssts = ok ssts
  delete_ssts (sst_id ∷ sst_ids) ssts = do
    sst ← from_option out_of_bounds (ssts sst_id)
    delete_ssts sst_ids (at_put ssts sst_id none)

  pub add_ssts : List F.Builder.Sst → (ℕ → Option F.Builder.Sst) → ℕ → Option F.Builder.Sst
  add_ssts [] ssts = ssts
  add_ssts (sst ∷ new_ssts) ssts = add_ssts new_ssts (at_put ssts (F.get_sst_id sst) (some sst))

  -- `full_compact` without its recursive call. Both lists of old ids are those of the source level.
  pub compact_level : LsmEngine → ℕ → Result LsmEngine
  compact_level e src_level = do
    let old_level_id_x = e.level_sst_ids src_level
    let old_level_id_y = e.level_sst_ids src_level
    (new_ssts, next_sst_id) ←
        F.compact src_level (map e.ssts old_level_id_x) (map e.ssts old_level_id_x) e.next_sst_id
    ssts₁ ← delete_ssts old_level_id_x e.ssts
    ssts₂ ← delete_ssts old_level_id_y ssts₁
    ok (record e {
      ssts = add_ssts new_ssts ssts₂;
      level_sst_ids =
          at_put (at_put e.level_sst_ids src_level []) (src_level + 1)
            (F.sort_ids (map F.get_sst_id new_ssts));
      cur_max_level = max e.cur_max_level (src_level + 1);
      next_sst_id = next_sst_id;
    })

  -- The recursion goes up as long as levels are full, on fuel.
  pub full_compact : ℕ → LsmEngine → ℕ → Result LsmEngine
  full_compact zero e src_level = err stuck
  full_compact (suc fuel) e src_level =
      let above = full_compact fuel e (src_level + 1) in
      (do
        e' ← if leb sst_level_ratio (length (e.level_sst_ids (src_level + 1))) then above else ok e
        compact_level e' src_level)

  abbrev pub new_sst_id : List ℕ → ℕ
  new_sst_id [] = 0
  new_sst_id (newest ∷ ids) = newest + 1

  -- `flush` from the new id on.
  pub flush_memtable : LsmEngine → Result LsmEngine
  flush_memtable e = do
    let sst_id = new_sst_id (e.level_sst_ids 0)
    (memtable, sst) ← flush_last F.Builder e.memtable (F.start sst_id)
    ok (record e {
      memtable = memtable;
      ssts = at_put e.ssts sst_id sst;
      level_sst_ids = at_put e.level_sst_ids 0 (sst_id ∷ e.level_sst_ids 0);
    })

  pub flush : ℕ → LsmEngine → Result LsmEngine
  flush fuel e = if get_total_size e.memtable == 0 then ok e else (do
    e' ← if ltb sst_level_ratio (length (e.level_sst_ids 0)) then full_compact fuel e 0 else ok e
    flush_memtable e')

  -- The memory table is flushed when it has grown to the limit.
  pub flush_full : ℕ → (Memtable → ℕ) → LsmEngine → Result LsmEngine
  flush_full fuel size e = if leb total_mem_size_limit (size e.memtable) then flush fuel e else ok e

  pub put : ℕ → Random → LsmEngine → List ℕ → List ℕ → ℕ → Result LsmEngine
  put fuel random e key value tranc_id = do
    memtable ← put_in_memory random e.memtable key value tranc_id
    flush_full fuel get_cur_size (record e { memtable = memtable })

  pub put_batch : ℕ → (ℕ → Random) → LsmEngine → List (List ℕ × List ℕ) → ℕ → Result LsmEngine
  put_batch fuel random e kvs tranc_id = do
    memtable ← put_batch_in_memory random 0 e.memtable kvs tranc_id
    flush_full fuel get_total_size (record e { memtable = memtable })

  pub remove : ℕ → Random → LsmEngine → List ℕ → ℕ → Result LsmEngine
  remove fuel random e key tranc_id = do
    memtable ← remove_in_memory random e.memtable key tranc_id
    flush_full fuel get_cur_size (record e { memtable = memtable })

  pub remove_batch : ℕ → (ℕ → Random) → LsmEngine → List (List ℕ) → ℕ → Result LsmEngine
  remove_batch fuel random e keys tranc_id = do
    memtable ← remove_batch_in_memory random 0 e.memtable keys tranc_id
    flush_full fuel get_cur_size (record e { memtable = memtable })

  pub clear : LsmEngine → LsmEngine
  clear e = record e {
    memtable = clear_memory e.memtable;
    level_sst_ids = λ level. [];
    ssts = λ sst_id. none;
  }

-- `sst_size *= LSM_SST_LEVEL_RATIO` for each level, on `size_t`.
pub get_sst_size : ℕ → ℕ
get_sst_size zero = per_mem_size_limit
get_sst_size (suc level) = get_sst_size level * sst_level_ratio % 2 ^ 64
