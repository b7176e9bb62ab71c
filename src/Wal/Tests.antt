-- ===== src/Wal/Tests.antt =====
-- The theorems on the write-ahead log (src/wal/wal.cpp) at concrete inputs.
use lsm_tree_engine.Prelude.{List, [], ◌∷◌}
use lsm_tree_engine.Wal.Record.{Record, commit_record, delete_record}

-- Two batches of three records for a buffer of one.
abbrev batches : List (List Record)
batches =
    (delete_record 88 7 (b'x' ∷ []) ∷ commit_record 88 7 ∷ []) ∷ (commit_record 88 8 ∷ []) ∷ []
