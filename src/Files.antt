-- ===== src/Files.antt =====
-- src/utils/file.cpp, src/utils/std_file.cpp: numbers in a file. A file is its bytes, and one that is open can
-- be written; a write past the end fills the gap with zeros.
pub mod Numbers
use lsm_tree_engine.Prelude.{
  ◌%◌, ◌^◌, ℕ, ◌+◌, ◌-◌, ltb, if◌then◌else◌, List, ◌++◌, length, take, drop, replicate, Result, err,
  index_out_of_range,
}
use lsm_tree_engine.Prelude.Results.{read_out_of_range}
use lsm_tree_engine.Bytes.{load, to_bytes, load_int}

-- `StdFile::write`, which answers `true`.
pub write_at : List ℕ → ℕ → List ℕ → List ℕ
write_at file offset bytes =
    take offset (file ++ replicate (offset - length file) 0)
    ++ (bytes ++ drop (offset + length bytes) file)

pub write_uint64 : List ℕ → ℕ → ℕ → List ℕ
write_uint64 file offset val = write_at file offset (to_bytes 8 val)

pub read_uint64 : List ℕ → ℕ → Result ℕ
read_uint64 file offset =
    if ltb (length file) (offset + 8) then err index_out_of_range else load_int 8 file offset

-- `FileObj::read_to_slice`.
unfoldable pub read_to_slice : List ℕ → ℕ → ℕ → Result (List ℕ)
read_to_slice file offset count =
    if ltb (length file) ((offset + count) % 2 ^ 64)
    then err read_out_of_range
    else load file offset count
