-- ===== src/Wal/Buffering.antt =====
-- When `Wal::log` (src/wal/wal.cpp) writes.
use lsm_tree_engine.Prelude.{
  concat, ◌∙◌, sym, length, ap, ltb, ℕ, ◌≡◌, refl, Bool, false, List, [], ◌∷◌, ◌++◌, Result, ok,
  ◌>>=◌, append_assoc, append-nil, Bool-cases, inl, inr,
}
use lsm_tree_engine.Wal.{Wal, log}
use lsm_tree_engine.Wal.Record.{Record}

-- Calls of `log`, one batch of records each, with no forced flush.
pub log_all : (Record → List ℕ) → Bool → Wal → List (List Record) → Result Wal
log_all object synced w [] = ok w
log_all object synced w (batch ∷ batches) = do
  w' ← log object synced w batch false
  log_all object synced w' batches

pub log_unforced :
    (object : Record → List ℕ) (synced : Bool) (w : Wal) (batch : List Record)
    → log object synced w batch false ≡ ok (record w { buffer = w.buffer ++ batch })
unfolding log
log_unforced object synced w batch =
    elim (Bool-cases (ltb (length (w.buffer ++ batch)) w.buffer_size)) [
      | inl small ↦ rw small refl
      | inr large ↦ rw large refl
    ]

-- Without a forced flush `log` keeps every batch in the buffer: whatever the batches and their sizes,
-- all their records are in the buffer afterwards, in order, and the log file is what it was.
pub log_all_buffers :
    (object : Record → List ℕ) (synced : Bool) (w : Wal) (batches : List (List Record))
    → log_all object synced w batches ≡ ok (record w { buffer = w.buffer ++ concat batches })
unfolding log_all
log_all_buffers object synced w [] =
    ap (λ (b : List Record). ok (record w { buffer = b })) (sym (append-nil w.buffer))
log_all_buffers object synced w (batch ∷ batches) = rw (log_unforced object synced w batch) (
    log_all_buffers object synced (record w { buffer = w.buffer ++ batch }) batches
    ∙ ap (λ (b : List Record). ok (record w { buffer = b }))
        (append_assoc w.buffer batch (concat batches)))
