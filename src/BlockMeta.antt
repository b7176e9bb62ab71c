-- ===== src/BlockMeta.antt =====
-- src/block/blockmeta.cpp, include/block/blockmeta.h: where a block begins in its file, and its first and last
-- key; a list of these and its encoded form. `hash` is `std::hash<std::string_view>`, cut to 32 bits.
pub mod Layout
pub mod RoundTrip
mod Tests
use lsm_tree_engine.Prelude.{
  ℕ, zero, suc, ◌+◌, ◌-◌, ltb, ◌==◌, if◌then◌else◌, List, [], ◌∷◌, ◌++◌, length, take, replicate,
  Result, ok, err, ◌>>=◌, meta_length, meta_hash,
}
use lsm_tree_engine.Bytes.{u16, u32, to_bytes, load, load_int, store}

pub record BlockMeta : Type 0 where
  pub offset : ℕ
  pub first_key : List ℕ
  pub last_key : List ℕ

-- `memcpy(ptr, …); ptr += …;` for each piece: the buffer and the pointer.
unfoldable pub store_pieces : List ℕ → ℕ → List (List ℕ) → Result (List ℕ × ℕ)
store_pieces e ptr [] = ok (e, ptr)
store_pieces e ptr (piece ∷ pieces) = do
  e' ← store e ptr piece
  store_pieces e' (ptr + length piece) pieces

abbrev pub key_pieces : List ℕ → List (List ℕ)
key_pieces key = to_bytes 2 (u16 (length key)) ∷ take (u16 (length key)) key ∷ []

unfoldable pub entry_pieces : BlockMeta → List (List ℕ)
entry_pieces meta =
    to_bytes 4 (u32 meta.offset) ∷ (key_pieces meta.first_key ++ key_pieces meta.last_key)

unfoldable pub store_entries : List ℕ → ℕ → List BlockMeta → Result (List ℕ × ℕ)
store_entries e ptr [] = ok (e, ptr)
store_entries e ptr (meta ∷ metas) = do
  (e', ptr') ← store_pieces e ptr (entry_pieces meta)
  store_entries e' ptr' metas

unfoldable pub entries_size : List BlockMeta → ℕ
entries_size [] = 0
entries_size (meta ∷ metas) =
    (4 + 2 + length meta.first_key + 2 + length meta.last_key) + entries_size metas

module _ (hash : List ℕ → ℕ) where
  -- `metadata` is resized, and keeps its bytes until they are written over.
  unfoldable pub encode_meta_to_slice : List BlockMeta → List ℕ → Result (List ℕ)
  encode_meta_to_slice meta_entries metadata = do
    let total_size = 4 + entries_size meta_entries + 4
    let resized = take total_size (metadata ++ replicate total_size 0)
    (e₁, ptr₁) ← store_pieces resized 0 (to_bytes 4 (u32 (length meta_entries)) ∷ [])
    (e₂, ptr₂) ← store_entries e₁ ptr₁ meta_entries
    content ← load e₂ 4 (ptr₂ - 4)
    store e₂ ptr₂ (to_bytes 4 (u32 (hash content)))

-- A key at `ptr`, and the place behind it.
pub load_key : List ℕ → ℕ → Result (List ℕ × ℕ)
load_key metadata ptr = do
  key_len ← load_int 2 metadata ptr
  key ← load metadata (ptr + 2) key_len
  ok (key, ptr + 2 + key_len)

pub load_entry : List ℕ → ℕ → Result (BlockMeta × ℕ)
load_entry metadata ptr = do
  offset ← load_int 4 metadata ptr
  (first_key, ptr₁) ← load_key metadata (ptr + 4)
  (last_key, ptr₂) ← load_key metadata ptr₁
  ok (record { offset = offset; first_key = first_key; last_key = last_key }, ptr₂)

-- The rounds of the loop of `decode_meta_from_slice` left.
pub load_entries : List ℕ → ℕ → ℕ → Result (List BlockMeta × ℕ)
load_entries metadata zero ptr = ok ([], ptr)
load_entries metadata (suc n) ptr = do
  (meta, ptr₁) ← load_entry metadata ptr
  (metas, ptr₂) ← load_entries metadata n ptr₁
  ok (meta ∷ metas, ptr₂)

module _ (hash : List ℕ → ℕ) where
  pub decode_meta_from_slice : List ℕ → Result (List BlockMeta)
  decode_meta_from_slice metadata = if ltb (length metadata) 8 then err meta_length else (do
    num_entries ← load_int 4 metadata 0
    (metas, ptr) ← load_entries metadata num_entries 4
    stored_hash ← load_int 4 metadata ptr
    content ← load metadata 4 (ptr - 4)
    if stored_hash == u32 (hash content) then ok metas else err meta_hash)
