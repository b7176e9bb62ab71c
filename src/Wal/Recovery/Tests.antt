-- ===== src/Wal/Recovery/Tests.antt =====
-- The theorem on recovery (src/wal/wal.cpp) at a concrete input.
use lsm_tree_engine.Prelude.{ℕ, ◌≡◌, refl, List, [], ◌∷◌, All, ok, arith}
use lsm_tree_engine.Wal.Record.{Record, commit}
use lsm_tree_engine.Wal.Record.Decoding.{Fits}
use mathlib.Core.List.{Perm}
use lsm_tree_engine.Wal.Recovery.Sorting.{Ascending}
use lsm_tree_engine.Wal.Recovery.{
  Groups, FileFits, written, all_records, kept, records_of, recover, recover-written,
}

abbrev commit_of : ℕ → Record
commit_of id = record { tranc_id = id; op_type = commit; key = []; value = []; record_len = 14 }

commit_of_eight-Fits : Fits (commit_of 8)
commit_of_eight-Fits = record {
  len_fits = omega arith;
  id_fits = omega arith;
  body_fits = (refl, refl);
}

commit_of_three-Fits : Fits (commit_of 3)
commit_of_three-Fits = record {
  len_fits = omega arith;
  id_fits = omega arith;
  body_fits = (refl, refl);
}

-- Two files, the later one listed first.
abbrev files : List (ℕ × List Record)
files = (1, commit_of 8 ∷ []) ∷ (0, commit_of 3 ∷ commit_of 8 ∷ []) ∷ []

files-All : All FileFits files
files-All = ((commit_of_eight-Fits, tt), (((commit_of_three-Fits, (commit_of_eight-Fits, tt))), tt))

recover-written_example :
    (ordered : List (ℕ × List Record)) × (found : Groups) × Perm files ordered
    × Ascending ordered
    × (recover (written files) 5 ≡ ok found)
    × ((id : ℕ) → records_of id found ≡ kept 5 id (all_records ordered))
recover-written_example = recover-written files 5 files-All
