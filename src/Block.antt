-- ===== src/Block.antt =====
-- src/block/block.cpp, include/block/block.h: a data block. `data` holds the entries one after the
-- other, `offsets` where each begins. This file has the layout: adding an entry, the encoded form
-- and its decoding, and the reads at an offset. Lookups stand in Block/Search, the predicate query
-- in Block/Range.
pub mod Entries
pub mod Reads
pub mod Add
pub mod Codec
pub mod Search
pub mod Range
pub mod Tests
use lsm_tree_engine.Prelude.{
  ℕ, zero, suc, ◌+◌, ◌*◌, ◌%◌, ◌^◌, ltb, leb, ◌==◌, if◌then◌else◌, Bool, true, false, not, ◌&&◌,
  List, [], ◌∷◌, ◌++◌, length, get_elem?, take, replicate, Result, ok, err, ◌>>=◌, from_option,
  out_of_bounds, size_too_small, hash_mismatch, invalid_size, index_out_of_range,
}
use lsm_tree_engine.Bytes.{
  u16, u32, sub_size, to_bytes, load, load_int, store, ints_to_bytes, ints_from_bytes,
}

pub record Block : Type 0 where
  pub bytes : List ℕ
  pub offsets : List ℕ
  pub capacity : ℕ

-- `Block::Entry`.
pub record Entry : Type 0 where
  pub key : List ℕ
  pub value : List ℕ
  pub tranc_id : ℕ

-- `Block(size_t capacity)`.
pub new_block : ℕ → Block
new_block capacity = record { bytes = []; offsets = []; capacity = capacity }

-- Bytes of the encoded block, the count of entries included.
pub cur_size : Block → ℕ
cur_size b = length b.bytes + length b.offsets * 2 + 2

unfoldable pub size : Block → ℕ
size b = length b.offsets

pub is_empty : Block → Bool
is_empty b = elim b.offsets [ [] ↦ true | x ∷ xs ↦ false ]

-- The part of `add_entry` after its guard: grow `data` by the entry's size, then copy the lengths,
-- the key, the value and the transaction id in.
pub append_entry : Block → List ℕ → List ℕ → ℕ → Result Block
append_entry b key value tranc_id = do
  let entry_size = length key + length value + 2 * 2 + 8
  let old_size = length b.bytes
  let key_len = u16 (length key)
  let value_len = u16 (length value)
  bytes₁ ← store (b.bytes ++ replicate entry_size 0) old_size (to_bytes 2 key_len)
  bytes₂ ← store bytes₁ (old_size + 2) (take key_len key)
  bytes₃ ← store bytes₂ (old_size + 2 + key_len) (to_bytes 2 value_len)
  bytes₄ ← store bytes₃ (old_size + 2 + key_len + 2) (take value_len value)
  bytes₅ ← store bytes₄ (old_size + 2 + key_len + 2 + value_len) (to_bytes 8 tranc_id)
  ok (record b { bytes = bytes₅; offsets = b.offsets ++ (u16 old_size ∷ []) })

-- The guard of `add_entry`: the entry does not fit, and the write is not forced.
pub is_full : Block → List ℕ → List ℕ → Bool → Bool
is_full b key value force_write =
    not force_write && ltb b.capacity (cur_size b + length key + length value + 3 * 2)

pub add_entry : Block → List ℕ → List ℕ → ℕ → Bool → Result (Block × Bool)
add_entry b key value tranc_id force_write =
    if is_full b key value force_write
    then ok (b, false)
    else (do b' ← append_entry b key value tranc_id; ok (b', true))

pub encode : Block → Result (List ℕ)
encode b = do
  let total_bytes = length b.bytes + length b.offsets * 2 + 2
  e₁ ← store (replicate total_bytes 0) 0 b.bytes
  e₂ ← store e₁ (length b.bytes) (ints_to_bytes 2 b.offsets)
  store e₂ (length b.bytes + length b.offsets * 2) (to_bytes 2 (u16 (length b.offsets)))

-- The rest of `decode`, from the place of the count of entries on. `resize` to a wrapped size
-- would need more memory than there is; the read of `offsets` before it is out of bounds already.
pub decode_at : List ℕ → ℕ → Result Block
decode_at encoded num_elements_pos = do
  num_elements ← load_int 2 encoded num_elements_pos
  if ltb (length encoded) (2 + num_elements * 2) then err invalid_size else do
    let offset_section_start = sub_size num_elements_pos (num_elements * 2)
    offset_bytes ← load encoded offset_section_start (num_elements * 2)
    bytes ← load encoded 0 offset_section_start
    ok (record {
      bytes = bytes;
      offsets = ints_from_bytes 2 num_elements offset_bytes;
      capacity = 0;
    })

-- `hash` is `std::hash<std::string_view>`, which the code narrows to 32 bits.
module _ (hash : List ℕ → ℕ) where
  pub check_hash : List ℕ → Result (Unit {0})
  check_hash encoded = do
    hash_value ← load_int 4 encoded (sub_size (length encoded) 4)
    content ← load encoded 0 (sub_size (length encoded) 4)
    if hash_value == u32 (hash content) then ok tt else err hash_mismatch

  pub decode : List ℕ → Bool → Result Block
  decode encoded with_hash =
      if ltb (length encoded) 2
      then err size_too_small
      else if with_hash
      then (do _ ← check_hash encoded; decode_at encoded (sub_size (sub_size (length encoded) 2) 4))
      else decode_at encoded (sub_size (length encoded) 2)

-- `get_offset_at` lets `idx == offsets.size()` through, and reads past the vector there.
unfoldable pub get_offset_at : Block → ℕ → Result ℕ
get_offset_at b idx =
    if ltb (length b.offsets) idx
    then err index_out_of_range
    else from_option out_of_bounds (get_elem? b.offsets idx)

pub get_key_at : Block → ℕ → Result (List ℕ)
get_key_at b offset = do key_len ← load_int 2 b.bytes offset; load b.bytes (offset + 2) key_len

pub get_value_at : Block → ℕ → Result (List ℕ)
get_value_at b offset = do
  key_len ← load_int 2 b.bytes offset
  value_len ← load_int 2 b.bytes (offset + 2 + key_len)
  load b.bytes (offset + 2 + key_len + 2) value_len

-- `key_len` is a `uint64_t` of which two bytes are written: `stale` is what its other six bytes
-- happened to hold.
pub get_tranc_id_at : ℕ → Block → ℕ → Result ℕ
get_tranc_id_at stale b offset = do
  key_len ← load_int 2 b.bytes offset
  let value_len_ops = (offset + 2 + (key_len + 2 ^ 16 * stale)) % 2 ^ 64
  value_len ← load_int 2 b.bytes value_len_ops
  load_int 8 b.bytes (value_len_ops + 2 + value_len)

-- `get_entry_at` leaves `tranc_id` as it is: `uninitialised`.
pub get_entry_at : ℕ → Block → ℕ → Result Entry
get_entry_at uninitialised b offset = do
  key ← get_key_at b offset
  value ← get_value_at b offset
  ok (record { key = key; value = value; tranc_id = uninitialised })

pub get_first_key : Block → Result (List ℕ)
get_first_key b = elim b.bytes [
  | [] ↦ ok []
  | x ∷ xs ↦ elim b.offsets [
    | [] ↦ ok []
    | o ∷ os ↦ (do key_len ← load_int 2 b.bytes 0; load b.bytes 2 key_len)
  ]
]
