-- ===== src/BlockIterator/Reading.antt =====
-- A block is read from end to end by its iterator (src/block/block_iterator.cpp).
use lsm_tree_engine.Prelude.{
  ℕ, zero, suc, ◌+◌, ◌^◌, ◌<◌, ◌≤◌, ◌≡◌, refl, sym, ◌∙◌, ltb, leb, ◌==◌, lt→ltb, if◌then◌else◌,
  true, false, List, [], ◌∷◌, ◌++◌, length, length-append, map, some, Result, ok, err, ◌>>=◌, stuck,
  get_elem?-append_end, append_assoc, subst, arith,
}
use lsm_tree_engine.Block.{Block, Entry, size, get_offset_at}
use lsm_tree_engine.Block.Entries.{Holds}
use lsm_tree_engine.Block.Reads.{Reads, Holds-Reads, length-offsets}
use lsm_tree_engine.BlockIterator.{
  BlockIterator, Pair, new_at, advance, deref, update_current, is_end,
}

-- `for (; !it.is_end(); ++it)` and the pairs it reads, on fuel.
pub read_block : ℕ → BlockIterator → Result (List Pair)
read_block zero it = err stuck
read_block (suc fuel) it =
    let step = (do
      (pair, it') ← deref it
      rest ← read_block fuel (advance it')
      ok (pair ∷ rest)) in
    (do at_end ← is_end it; if at_end then ok [] else step)

abbrev pub pair_of : Entry → Pair
pair_of e = (e.key, e.value)

module _ (address : ℕ) (b : Block) (tranc_id : ℕ) where
  abbrev at_index : ℕ → BlockIterator
  at_index i = new_at (some (address, b)) i tranc_id

  deref-Reads :
      (i : ℕ) (e : Entry)
      → i < length b.offsets
      → Reads b i e
      → deref (at_index i) ≡ ok (pair_of e, record (at_index i) { cached_value = some (pair_of e) })
  unfolding deref update_current new_at size get_offset_at
  deref-Reads i e inside reads =
      let in_range : leb (length b.offsets) i ≡ false = ground arith in
      let below : ltb i (length b.offsets) ≡ true = lt→ltb i (length b.offsets) inside in
      let not_past : ltb (length b.offsets) i ≡ false = ground arith in
      rw (in_range, below, not_past, reads.listed, reads.key_eq, reads.value_eq) refl

  read_block-from :
      (fuel : ℕ) (front es : List Entry)
      → Holds b (front ++ es)
      → length b.bytes ≤ 2 ^ 16
      → length es < fuel
      → read_block fuel (at_index (length front)) ≡ ok (map pair_of es)
  unfolding read_block is_end advance new_at
  read_block-from zero front es holds small room = absurd (omega arith)
  read_block-from (suc fuel) front [] holds small room =
      let ended : (length front == length b.offsets) ≡ true =
        ground (arith, length-offsets holds, length-append front []) in
      rw ended refl
  read_block-from (suc fuel) front (e ∷ es) holds small room =
      let count : length b.offsets ≡ length front + suc (length es) =
        length-offsets holds ∙ length-append front (e ∷ es) in
      let going : (length front == length b.offsets) ≡ false = ground (arith, count) in
      let inside : length front < length b.offsets = omega (arith, count) in
      let below : ltb (length front) (length b.offsets) ≡ true = lt→ltb _ _ inside in
      let reads =
        Holds-Reads (length front) e holds small
          (get_elem?-append_end front e es (length front) refl) in
      let next : length front + 1 ≡ length (front ++ (e ∷ [])) =
        sym (length-append front (e ∷ [])) in
      let rest =
        read_block-from fuel (front ++ (e ∷ [])) es
          (subst (Holds b) (sym (append_assoc front (e ∷ []) es)) holds) small (omega arith) in
      rw (going, deref-Reads (length front) e inside reads, below, next, rest) refl

-- From its first index on, the iterator of a block of at most 64 KiB reads the key and the value of
-- every entry that the block holds, in order, and then is at its end, without a throw.
pub read_block-entries :
    (address : ℕ) (b : Block) (es : List Entry) (tranc_id : ℕ)
    → Holds b es
    → length b.bytes ≤ 2 ^ 16
    → read_block (suc (length es)) (new_at (some (address, b)) 0 tranc_id) ≡ ok (map pair_of es)
read_block-entries address b es tranc_id holds small =
    read_block-from address b tranc_id (suc (length es)) [] es holds small (omega arith)
