-- ===== src/Transaction/Manager/Ids.antt =====
-- The transaction ids of `TranManager` (src/engine/transaction.cpp): what the file of ids keeps, and which ids
-- the transactions get.
use lsm_tree_engine.Prelude.{
  ℕ, ◌<◌, ◌^◌, ◌≡◌, refl, sym, List, [], ◌++◌, length, drop, ok, arith, length-append, append_assoc,
}
use lsm_tree_engine.Bytes.{to_bytes}
use lsm_tree_engine.Bytes.Layout.{length-to_bytes}
use lsm_tree_engine.Files.Numbers.{write_uint64-append, read_uint64-append}
use lsm_tree_engine.Transaction.Manager.{TranManager, write_tranc_id_file, read_tranc_id_file}

-- The three numbers are those of `uint64_t`.
pub record IsWord (m : TranManager) : Type 0 where
  pub next_fits : m.next_tranc_id < 2 ^ 64
  pub flushed_fits : m.max_flushed_tranc_id < 2 ^ 64
  pub finished_fits : m.max_finished_tranc_id < 2 ^ 64

write_tranc_id_file_lem :
    (m : TranManager) (file : List ℕ)
    → write_tranc_id_file m file
      ≡ to_bytes 8 m.next_tranc_id
        ++ (to_bytes 8 m.max_flushed_tranc_id
            ++ (to_bytes 8 m.max_finished_tranc_id ++ drop 8 (drop 8 (drop 8 file))))
unfolding write_tranc_id_file
write_tranc_id_file_lem m file =
    let a : List ℕ = to_bytes 8 m.next_tranc_id in
    let b : List ℕ = to_bytes 8 m.max_flushed_tranc_id in
    let la : length a ≡ 8 = length-to_bytes 8 m.next_tranc_id in
    let lb : length b ≡ 8 = length-to_bytes 8 m.max_flushed_tranc_id in
    rw
      (
        write_uint64-append [] file 0 m.next_tranc_id refl,
        write_uint64-append a (drop 8 file) 8 m.max_flushed_tranc_id (sym la),
        ← append_assoc a b (drop 8 (drop 8 file)),
        write_uint64-append (a ++ b) (drop 8 (drop 8 file)) 16 m.max_finished_tranc_id
            (rw (length-append a b) (omega arith)),
      )
      (append_assoc a b _)

-- Whatever stood in the file, `read_tranc_id_file` reads back the numbers that `write_tranc_id_file` wrote.
pub read_tranc_id_file-write_tranc_id_file :
    (m other : TranManager) (file : List ℕ)
    → IsWord m
    → read_tranc_id_file other (write_tranc_id_file m file) ≡ ok (record m { wal = other.wal })
unfolding read_tranc_id_file
read_tranc_id_file-write_tranc_id_file m other file fits =
    let a : List ℕ = to_bytes 8 m.next_tranc_id in
    let b : List ℕ = to_bytes 8 m.max_flushed_tranc_id in
    let c : List ℕ = to_bytes 8 m.max_finished_tranc_id in
    let rest : List ℕ = drop 8 (drop 8 (drop 8 file)) in
    let la : length a ≡ 8 = length-to_bytes 8 m.next_tranc_id in
    let lb : length b ≡ 8 = length-to_bytes 8 m.max_flushed_tranc_id in
    let first = read_uint64-append [] (b ++ (c ++ rest)) 0 m.next_tranc_id refl fits.next_fits in
    let second =
      read_uint64-append a (c ++ rest) 8 m.max_flushed_tranc_id (sym la) fits.flushed_fits in
    let third =
      read_uint64-append (a ++ b) rest 16 m.max_finished_tranc_id
        (rw (length-append a b) (omega arith)) fits.finished_fits in
    rw (write_tranc_id_file_lem m file, first, second, ← append_assoc a b (c ++ rest), third) refl
