-- ===== src/Block/Tests.antt =====
-- Concrete runs of the block (src/block/block.cpp), and its theorems at concrete inputs.
use lsm_tree_engine.Prelude.{◌≡◌, refl, List, [], ◌∷◌, ◌++◌, length, true, false, ok, ◌>>=◌, arith}
use lsm_tree_engine.Bytes.{
  to_bytes, from_bytes, load, load_int, store, ints_to_bytes, ints_from_bytes, u32,
}
use lsm_tree_engine.Block.{Block, Entry, append_entry, add_entry, is_full, cur_size, encode, decode}
use lsm_tree_engine.Block.Codec.{decode-encode_hashed}
use lsm_tree_engine.Block.Entries.{Holds, entry_bytes, entries_bytes, starts}
use lsm_tree_engine.Block.Add.{Adds, add_entry-Adds}

-- What a run unfolds.
layouts : Unit {0}
unfolding to_bytes from_bytes load load_int store ints_to_bytes ints_from_bytes entry_bytes
    entries_bytes starts
layouts = tt

-- Two versions of the key "a".
abbrev pub newer : Entry
newer = record { key = b'a' ∷ []; value = b'y' ∷ []; tranc_id = 5 }

abbrev pub older : Entry
older = record { key = b'a' ∷ []; value = b'x' ∷ []; tranc_id = 3 }

abbrev pub both : List Entry
both = newer ∷ older ∷ []

abbrev pub stored : Block
stored = record {
  bytes =
      1 ∷ 0 ∷ b'a' ∷ 1 ∷ 0 ∷ b'y' ∷ 5 ∷ 0 ∷ 0 ∷ 0 ∷ 0 ∷ 0 ∷ 0 ∷ 0 ∷ 1 ∷ 0 ∷ b'a' ∷ 1 ∷ 0 ∷ b'x' ∷ 3
      ∷ 0 ∷ 0 ∷ 0 ∷ 0 ∷ 0 ∷ 0 ∷ 0 ∷ [];
  offsets = 0 ∷ 14 ∷ [];
  capacity = 32;
}

abbrev first_only : Block
first_only = record {
  bytes = 1 ∷ 0 ∷ b'a' ∷ 1 ∷ 0 ∷ b'y' ∷ 5 ∷ 0 ∷ 0 ∷ 0 ∷ 0 ∷ 0 ∷ 0 ∷ 0 ∷ [];
  offsets = 0 ∷ [];
  capacity = 32;
}

pub stored-Holds : Holds stored both
unfolding layouts
stored-Holds = record { bytes_eq = refl; offsets_eq = refl; all_fit = omega arith }

first_only-Holds : Holds first_only (newer ∷ [])
unfolding layouts
first_only-Holds = record { bytes_eq = refl; offsets_eq = refl; all_fit = omega arith }

-- The second entry is accepted: with it the encoded block has 34 bytes, two above the capacity.
add_second : add_entry first_only (b'a' ∷ []) (b'x' ∷ []) 3 false ≡ ok (stored, true)
unfolding add_entry append_entry is_full cur_size layouts
add_second = refl

decode-encode_hashed_example :
    (encode stored >>= λ e. decode length (e ++ to_bytes 4 (u32 (length e))) true)
    ≡ ok (record stored { capacity = 0 })
decode-encode_hashed_example =
    decode-encode_hashed stored (omega arith) (omega arith) (omega arith) length

add_entry-Adds_example :
    Adds first_only (newer ∷ []) older false (add_entry first_only (b'a' ∷ []) (b'x' ∷ []) 3 false)
add_entry-Adds_example =
    add_entry-Adds first_only (newer ∷ []) older false first_only-Holds (omega arith) (omega arith)
