-- ===== src/Block/Add.antt =====
-- `Block::add_entry` (src/block/block.cpp) against the list of entries that a block holds.
use lsm_tree_engine.Block.{ℕ, Block, new_block, add_entry, is_full, cur_size, Entry}
use lsm_tree_engine.Prelude.{
  ◌*◌, false, lt→ltb, ok, refl, ◌+◌, ◌^◌, ◌≤◌, ◌<◌, ◌≡◌, List, [], ◌∷◌, ◌++◌, length, Bool, true,
  Result, err, arith, length-append, Bool-cases, inl, inr,
}
use lsm_tree_engine.Bytes.{u16}
use lsm_tree_engine.Block.Entries.{
  Fits, Holds, entry_bytes, appended, appended-Holds, append_entry-entry_bytes, length-entry_bytes,
}

-- What `add_entry` may answer for an entry: the entry stored behind the others, within eight bytes of
-- the capacity unless forced, or a refusal that leaves the block as it is.
abbrev pub Adds : Block → List Entry → Entry → Bool → Result (Block × Bool) → Type 0
Adds b es e force_write (ok (b', true)) =
    Holds b' (es ++ (e ∷ []))
    × (b'.capacity ≡ b.capacity)
    × (force_write ≡ false → cur_size b' ≤ b.capacity + 8)
Adds b es e force_write (ok (b', false)) =
    (b' ≡ b) × (force_write ≡ false) × (b.capacity < cur_size b + length e.key + length e.value + 6)
Adds b es e force_write (err x) = ⊥

cur_size-appended :
    (b : Block) (e : Entry)
    → cur_size (appended b e) ≡ cur_size b + length e.key + length e.value + 14
unfolding cur_size
cur_size-appended b e =
    rw
      (
        length-append b.bytes (entry_bytes e),
        length-append b.offsets (u16 (length b.bytes) ∷ []),
        length-entry_bytes e,
      )
      (omega arith)

-- For a block that holds some entries, less than 64 KiB of them so far, and an entry with a 64-bit
-- transaction id whose key and value are shorter than 2^16 bytes, `add_entry` never writes outside its buffer. It either stores the entry behind
-- the others, keeps the capacity and, unless forced, leaves the encoded block at most eight bytes
-- above it; or it refuses, only if not forced and only if the entry with its two lengths and its
-- offset does not fit, and changes nothing.
pub add_entry-Adds :
    (b : Block) (es : List Entry) (e : Entry) (force_write : Bool)
    → Holds b es
    → Fits e
    → length b.bytes < 2 ^ 16
    → Adds b es e force_write (add_entry b e.key e.value e.tranc_id force_write)
unfolding add_entry is_full
add_entry-Adds b es e force_write holds fits small =
    elim (Bool-cases (is_full b e.key e.value force_write)) [
      | inl full ↦ rw full (refl, ground arith, ground arith)
      | inr room ↦
          rw (room, append_entry-entry_bytes b e fits)
            (
              appended-Holds holds e fits small,
              refl,
              λ unforced. ground (arith, cur_size-appended b e),
            )
    ]

-- An entry that does not fit is not added.
pub add_entry_full :
    (b : Block) (key value : List ℕ) (tranc_id : ℕ)
    → b.capacity < length key + length value + 8
    → add_entry b key value tranc_id false ≡ ok (b, false)
unfolding add_entry is_full cur_size
add_entry_full b key value tranc_id large =
    rw
      (lt→ltb b.capacity
        (length b.bytes + length b.offsets * 2 + 2 + length key + length value + 3 * 2)
        (omega arith))
      refl

pub capacity-new_block : (capacity : ℕ) → (new_block capacity).capacity ≡ capacity
unfolding new_block
capacity-new_block capacity = refl
