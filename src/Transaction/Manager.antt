-- ===== src/Transaction/Manager.antt =====
-- `TranManager` (src/engine/transaction.cpp, include/engine/transaction.h): transaction ids and their
-- bounds, the file that keeps them, and the write-ahead log. `wal_` is null until `init_new_wal`.
pub mod Ids
use lsm_tree_engine.Prelude.{
  ℕ, ◌+◌, ◌%◌, ◌^◌, max, Bool, true, false, List, Option, none, some, Result, ok, err, ◌>>=◌,
  out_of_bounds,
}
use lsm_tree_engine.Prelude.Results.{division_by_zero, stuck}
use lsm_tree_engine.Files.{write_uint64, read_uint64}
use lsm_tree_engine.Wal.{Wal, new_wal, log}
use lsm_tree_engine.Wal.Record.{Record}

pub record TranManager : Type 0 where
  pub wal : Option Wal
  pub next_tranc_id : ℕ
  pub max_flushed_tranc_id : ℕ
  pub max_finished_tranc_id : ℕ

-- A manager whose id file does not exist yet.
pub new_manager : TranManager
new_manager = record {
  wal = none;
  next_tranc_id = 1;
  max_flushed_tranc_id = 0;
  max_finished_tranc_id = 0;
}

-- The value returned, and the manager after it.
unfoldable pub get_next_tranc_id : TranManager → ℕ × TranManager
get_next_tranc_id m = (m.next_tranc_id, record m { next_tranc_id = (m.next_tranc_id + 1) % 2 ^ 64 })

pub update_max_flushed_tranc_id : TranManager → ℕ → TranManager
update_max_flushed_tranc_id m id = record m { max_flushed_tranc_id = max id m.max_flushed_tranc_id }

unfoldable pub update_max_finished_tranc_id : TranManager → ℕ → TranManager
update_max_finished_tranc_id m id = record m {
  max_finished_tranc_id = max id m.max_finished_tranc_id;
}

-- The old log files are removed; the new log has a buffer of 128 records and files of 4096 bytes.
pub init_new_wal : TranManager → TranManager
init_new_wal m = record m { wal = some (new_wal 128 m.max_finished_tranc_id 4096) }

module _ (object : Record → List ℕ) (synced : Bool) where
  -- What the caller sees of `wal_->log(operations)`: a `std::exception` is caught, a fault is not.
  abbrev pub caught : TranManager → Result Wal → Result (Bool × TranManager)
  caught m (ok w) = ok (true, record m { wal = some w })
  caught m (err out_of_bounds) = err out_of_bounds
  caught m (err division_by_zero) = err division_by_zero
  caught m (err stuck) = err stuck
  caught m (err e) = ok (false, m)

  abbrev pub log_to : TranManager → Option Wal → List Record → Result (Bool × TranManager)
  log_to m none operations = err out_of_bounds
  log_to m (some w) operations = caught m (log object synced w operations false)

  unfoldable pub write_to_wal : TranManager → List Record → Result (Bool × TranManager)
  write_to_wal m operations = log_to m m.wal operations

-- The file of ids: three numbers of eight bytes.
pub write_tranc_id_file : TranManager → List ℕ → List ℕ
write_tranc_id_file m file =
    let file₁ = write_uint64 file 0 m.next_tranc_id in
    let file₂ = write_uint64 file₁ 8 m.max_flushed_tranc_id in
    write_uint64 file₂ 16 m.max_finished_tranc_id

pub read_tranc_id_file : TranManager → List ℕ → Result TranManager
read_tranc_id_file m file = do
  next ← read_uint64 file 0
  flushed ← read_uint64 file 8
  finished ← read_uint64 file 16
  ok (record m {
    next_tranc_id = next;
    max_flushed_tranc_id = flushed;
    max_finished_tranc_id = finished;
  })
