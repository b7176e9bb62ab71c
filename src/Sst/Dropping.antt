-- ===== src/Sst/Dropping.antt =====
-- What `SSTBuilder::add` (src/sst/sst.cpp) does with an entry that is larger than a block.
use lsm_tree_engine.Prelude.{
  max, min, ap, ◌∙◌, ℕ, ◌+◌, ◌<◌, ◌≡◌, refl, false, List, [], ◌∷◌, ◌++◌, length, none, ok, arith,
}
use lsm_tree_engine.Block.Add.{add_entry_full, capacity-new_block}
use lsm_tree_engine.Sst.Builder.{or_first, SstBuilder, add, add_to_next}
use lsm_tree_engine.Prelude.Order.{eq_bytes}
use lsm_tree_engine.Block.{Block, new_block}
use lsm_tree_engine.Sst.Reading.{Stored, finish_block-Stored}

-- An entry that is larger than a block is dropped without an error: `add` lays the block out that it was filling, and
-- goes on with an empty one, in which the entry is not. For a builder without a filter, a key that is not the last one,
-- and an entry whose key and value are longer than the capacity less 8 bytes.
pub add-drops :
    (hash hasher : List ℕ → ℕ) (blocks : List Block) (b : SstBuilder) (key value : List ℕ)
    (tranc_id : ℕ)
    → Stored hash blocks b
    → b.bloom_filter ≡ none
    → eq_bytes b.last_key key ≡ false
    → b.block.capacity < length key + length value + 8
    → (b' : SstBuilder) × (add hash hasher b key value tranc_id ≡ ok b')
      × Stored hash (blocks ++ (b.block ∷ [])) b'
      × (b'.block ≡ new_block b.block.capacity)
unfolding add add_to_next
add-drops hash hasher blocks b key value tranc_id stored unfiltered other large =
    let noted : SstBuilder = record b {
      first_key = or_first b.first_key key;
      bloom_filter = none;
      max_tranc_id = max b.max_tranc_id tranc_id;
      min_tranc_id = min b.min_tranc_id tranc_id;
    } in
    let (b', finished, stored', fresh) =
      finish_block-Stored hash blocks noted
        (record { bytes_eq = stored.bytes_eq; offsets_eq = stored.offsets_eq }) in
    let room : b'.block.capacity ≡ b.block.capacity =
      ap (λ (x : Block). x.capacity) fresh ∙ capacity-new_block b.block.capacity in
    (
      record b' { first_key = key; last_key = key },
      rw
          (
            unfiltered,
            other,
            add_entry_full b.block key value tranc_id large,
            finished,
            add_entry_full b'.block key value tranc_id (omega (arith, room)),
          )
          refl,
      record { bytes_eq = stored'.bytes_eq; offsets_eq = stored'.offsets_eq },
      fresh,
    )
