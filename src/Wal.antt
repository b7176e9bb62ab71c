-- ===== src/Wal.antt =====
-- src/wal/wal.cpp, include/wal/wal.h: the write-ahead log. The log file is its bytes; a file that
-- `reset_file_` leaves behind goes to `closed`, and `seq` is the number in the active file's name.
-- The outcome of `sync` is the operating system's and an argument. Memory behind `&value_` is the
-- parameter `object` of `Record::encode`.
pub mod Record
pub mod Buffering
pub mod Recovery
mod Tests
use lsm_tree_engine.Prelude.{
  ℕ, ◌+◌, ltb, if◌then◌else◌, Bool, true, false, not, ◌||◌, List, [], ◌∷◌, ◌++◌, length, Result, ok,
  err, ◌>>=◌, sync_failed,
}
use lsm_tree_engine.Wal.Record.{encode}

pub record Wal : Type 0 where
  pub log_file : List ℕ
  pub closed : List (List ℕ)
  pub seq : ℕ
  pub file_size_limit : ℕ
  pub buffer_size : ℕ
  pub buffer : List Record.Record
  pub max_finished_tranc_id : ℕ

-- The constructor, with a log file just created.
pub new_wal : ℕ → ℕ → ℕ → Wal
new_wal buffer_size max_finished_tranc_id file_size_limit = record {
  log_file = [];
  closed = [];
  seq = 0;
  file_size_limit = file_size_limit;
  buffer_size = buffer_size;
  buffer = [];
  max_finished_tranc_id = max_finished_tranc_id;
}

pub reset_file : Wal → Wal
reset_file w = record w { log_file = []; closed = w.log_file ∷ w.closed; seq = w.seq + 1 }

pub set_max_finished_tranc_id : Wal → ℕ → Wal
set_max_finished_tranc_id w id = record w { max_finished_tranc_id = id }

module _ (object : Record.Record → List ℕ) where
  -- `log_file_.append(record.encode())` for each record.
  pub append_all : List Record.Record → List ℕ → Result (List ℕ)
  append_all [] file = ok file
  append_all (r ∷ rs) file = do encoded ← encode object r; append_all rs (file ++ encoded)

  pub log : Bool → Wal → List Record.Record → Bool → Result Wal
  log synced w records force_flush =
      let buffer = w.buffer ++ records in
      if ltb (length buffer) w.buffer_size || not force_flush
      then ok (record w { buffer = buffer })
      else (do
        file ← append_all buffer w.log_file
        let w' = record w { log_file = file; buffer = [] }
        if synced
            then ok (if ltb w.file_size_limit (length file) then reset_file w' else w')
            else err sync_failed)
