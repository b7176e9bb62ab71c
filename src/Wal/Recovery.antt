-- ===== src/Wal/Recovery.antt =====
-- `Wal::recover` (src/wal/wal.cpp): the records of the log files, in the order of the numbers in their names,
-- grouped by transaction. A file is its number and its bytes; no two have the same number. The `std::map` is
-- an association list.
pub mod Sorting
mod Tests
use mathlib.Core.List.{Perm}
use lsm_tree_engine.Wal.Recovery.Sorting.{
  sort_files, Ascending, map_files, sort_files-All, sort_files-Perm, sort_files-Ascending,
  sort_files-map_files,
}
use lsm_tree_engine.Prelude.{
  ℕ, zero, suc, ◌≡◌, refl, sym, ◌∙◌, ap, ltb, leb, ◌==◌, if◌then◌else◌, Bool, true, false,
  Bool-cases, inl, inr, List, [], ◌∷◌, ◌++◌, append_assoc, append-nil, Result, ok, ◌>>=◌, All,
  arith,
}
use lsm_tree_engine.Wal.Record.{Record, decode}
use lsm_tree_engine.Wal.Record.Decoding.{log_layout, Fits}
use lsm_tree_engine.Wal.Record.RoundTrip.{decode-log_layout}

abbrev pub Groups : Type 0
Groups = List (ℕ × List Record)

-- `wal_records[record.tranc_id_].push_back(record)`.
pub push_record : Record → Groups → Groups
push_record r [] = (r.tranc_id, r ∷ []) ∷ []
push_record r ((id, rs) ∷ groups) =
    if id == r.tranc_id then (id, rs ++ (r ∷ [])) ∷ groups else (id, rs) ∷ push_record r groups

pub push_records : ℕ → List Record → Groups → Groups
push_records max_flushed [] groups = groups
push_records max_flushed (r ∷ rs) groups =
    push_records max_flushed rs
      (if ltb max_flushed r.tranc_id then push_record r groups else groups)

pub recover_files : ℕ → List (ℕ × List ℕ) → Groups → Result Groups
recover_files max_flushed [] groups = ok groups
recover_files max_flushed ((seq, bytes) ∷ files) groups = do
  records ← decode bytes
  recover_files max_flushed files (push_records max_flushed records groups)

pub recover : List (ℕ × List ℕ) → ℕ → Result Groups
recover files max_flushed = recover_files max_flushed (sort_files files) []

-- The records under an id.
unfoldable pub records_of : ℕ → Groups → List Record
records_of id [] = []
records_of id ((i, rs) ∷ groups) = if i == id then rs else records_of id groups

unfoldable pub of_tranc : ℕ → List Record → List Record
of_tranc id [] = []
of_tranc id (r ∷ rs) = if r.tranc_id == id then r ∷ of_tranc id rs else of_tranc id rs

-- What recovery keeps of records for an id.
abbrev pub kept : ℕ → ℕ → List Record → List Record
kept max_flushed id rs = if ltb max_flushed id then of_tranc id rs else []

records_of-push_record :
    (r : Record) (groups : Groups) (id : ℕ)
    → records_of id (push_record r groups)
      ≡ (if r.tranc_id == id then records_of id groups ++ (r ∷ []) else records_of id groups)
unfolding records_of push_record
records_of-push_record r [] id = ground arith
records_of-push_record r ((i, rs) ∷ groups) id = ground (arith, records_of-push_record r groups id)

kept_same :
    (max_flushed id : ℕ) (r : Record) (rs : List Record)
    → ltb max_flushed r.tranc_id ≡ true
    → (r.tranc_id == id) ≡ true
    → kept max_flushed id (r ∷ rs) ≡ r ∷ kept max_flushed id rs
unfolding of_tranc
kept_same max_flushed id r rs later same = ground arith

kept_other :
    (max_flushed id : ℕ) (r : Record) (rs : List Record)
    → (r.tranc_id == id) ≡ false
    → kept max_flushed id (r ∷ rs) ≡ kept max_flushed id rs
unfolding of_tranc
kept_other max_flushed id r rs differ = ground arith

kept_flushed :
    (max_flushed id : ℕ) (r : Record) (rs : List Record)
    → ltb max_flushed r.tranc_id ≡ false
    → kept max_flushed id (r ∷ rs) ≡ kept max_flushed id rs
unfolding of_tranc
kept_flushed max_flushed id r rs flushed = ground arith

kept_step :
    (max_flushed id : ℕ) (r : Record) (rs : List Record) (groups : Groups)
    → records_of id (if ltb max_flushed r.tranc_id then push_record r groups else groups)
        ++ kept max_flushed id rs
      ≡ records_of id groups ++ kept max_flushed id (r ∷ rs)
kept_step max_flushed id r rs groups = elim (Bool-cases (ltb max_flushed r.tranc_id)) [
  | inr flushed ↦ rw (flushed, kept_flushed max_flushed id r rs flushed) refl
  | inl later ↦ elim (Bool-cases (r.tranc_id == id)) [
    | inl same ↦
        rw
          (
            later,
            records_of-push_record r groups id,
            same,
            kept_same max_flushed id r rs later same,
          )
          (append_assoc (records_of id groups) (r ∷ []) (kept max_flushed id rs))
    | inr differ ↦
        rw
          (later, records_of-push_record r groups id, differ, kept_other max_flushed id r rs differ)
          refl
  ]
]

records_of-push_records :
    (max_flushed id : ℕ) (rs : List Record) (groups : Groups)
    → records_of id (push_records max_flushed rs groups)
      ≡ records_of id groups ++ kept max_flushed id rs
unfolding push_records of_tranc
records_of-push_records max_flushed id [] groups = elim (Bool-cases (ltb max_flushed id)) [
  | inl later ↦ rw (later, append-nil) refl
  | inr flushed ↦ rw (flushed, append-nil) refl
]
records_of-push_records max_flushed id (r ∷ rs) groups =
    records_of-push_records max_flushed id rs
      (if ltb max_flushed r.tranc_id then push_record r groups else groups)
    ∙ kept_step max_flushed id r rs groups

kept-append :
    (max_flushed id : ℕ) (rs ss : List Record)
    → kept max_flushed id (rs ++ ss) ≡ kept max_flushed id rs ++ kept max_flushed id ss
unfolding of_tranc
kept-append max_flushed id [] ss = ground arith
kept-append max_flushed id (r ∷ rs) ss = ground (arith, kept-append max_flushed id rs ss)

-- Log files as their records, and the bytes of such files.
abbrev pub written : List (ℕ × List Record) → List (ℕ × List ℕ)
written = map_files log_layout

abbrev pub all_records : List (ℕ × List Record) → List Record
all_records [] = []
all_records ((seq, rs) ∷ files) = rs ++ all_records files

abbrev pub FileFits : ℕ × List Record → Type 0
FileFits (seq, rs) = All Fits rs

recover_files-written :
    (max_flushed : ℕ) (files : List (ℕ × List Record)) (groups : Groups)
    → All FileFits files
    → (found : Groups) × (recover_files max_flushed (written files) groups ≡ ok found)
      × ((id : ℕ)
          → records_of id found ≡ records_of id groups ++ kept max_flushed id (all_records files))
unfolding recover_files push_records
recover_files-written max_flushed [] groups fits =
    (groups, refl, λ id. records_of-push_records max_flushed id [] groups)
recover_files-written max_flushed ((seq, rs) ∷ files) groups (fit, fits) =
    let (found, run, spec) =
      recover_files-written max_flushed files (push_records max_flushed rs groups) fits in
    (
      found,
      rw (decode-log_layout rs fit) run,
      λ id.
          spec id
          ∙ ap (λ (xs : List Record). xs ++ kept max_flushed id (all_records files))
              (records_of-push_records max_flushed id rs groups)
          ∙ append_assoc (records_of id groups) (kept max_flushed id rs)
              (kept max_flushed id (all_records files))
          ∙ ap (◌++◌ (records_of id groups))
              (sym (kept-append max_flushed id rs (all_records files))),
    )

-- From log files whose records are laid out one behind the other, `recover` returns, for every transaction
-- above the largest flushed one, exactly its records: those of the files in ascending order of their
-- numbers, all of them and each once, and within a file in that of the file. For the others it
-- returns none.
pub recover-written :
    (files : List (ℕ × List Record)) (max_flushed : ℕ)
    → All FileFits files
    → (ordered : List (ℕ × List Record)) × (found : Groups) × Perm files ordered
      × Ascending ordered
      × (recover (written files) max_flushed ≡ ok found)
      × ((id : ℕ) → records_of id found ≡ kept max_flushed id (all_records ordered))
unfolding recover records_of
recover-written files max_flushed fits =
    let (found, run, spec) =
      recover_files-written max_flushed (sort_files files) []
        (sort_files-All FileFits files fits) in
    (
      sort_files files,
      found,
      sort_files-Perm files,
      sort_files-Ascending files,
      rw (sort_files-map_files log_layout files) run,
      spec,
    )
