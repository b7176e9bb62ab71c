-- ===== src/Block/Search/Adjust.antt =====
-- `Block::adjust_idx_by_tranc_id` (src/block/block.cpp) finds the newest visible version of the key
-- at its index, if the block is sorted.
use lsm_tree_engine.Block.Search.Walks.{
  tranc_id_at_stale, key_at-nth, tranc_id_at-nth, walk_first_lem, walk_visible_lem, walk_hidden_lem,
  older_hidden,
}
use lsm_tree_engine.Block.{out_of_bounds, suc, err, false, Block, Entry}
use lsm_tree_engine.Block.Search.Sorted.{Adjusts, nth, IsSorted, HiddenBefore, Newest}
use lsm_tree_engine.Prelude.{
  ℕ, ◌+◌, ◌-◌, ◌^◌, zero, suc, err, out_of_bounds, false, ◌≤◌, ◌<◌, ◌≡◌, refl, subst, leb, ◌==◌,
  List, length, inl, inr, Option, some, arith, ok, ◌≢◌, Bool-cases, lt→leb,
}
use lsm_tree_engine.Block.Entries.{Holds}
use lsm_tree_engine.Block.Reads.{length-offsets}
use lsm_tree_engine.Block.Search.{adjust_in_tranc, adjust_idx_by_tranc_id}

module _ (b : Block) (es : List Entry) (holds : Holds b es) (small : length b.bytes ≤ 2 ^ 16)
    (sorted : IsSorted es) (idx : ℕ) (inside : idx < length es) where
  abbrev own_key : List ℕ
  own_key = (nth es idx).key

  in_tranc :
      (t : ℕ)
      → t ≢ 0
      → (r : Option ℕ) × (adjust_in_tranc 0 b own_key t idx ≡ ok r) × Newest es own_key t r
  unfolding adjust_in_tranc
  in_tranc t transaction = elim (Bool-cases (leb (nth es idx).tranc_id t)) [
    | inl now ↦
        let (r, run, newest) =
          walk_visible_lem b es holds small sorted own_key t transaction idx inside refl
            (ground arith) in
        (
          some r,
          rw (tranc_id_at-nth b es holds small own_key t idx inside) (ground (arith, run)),
          newest,
        )
    | inr later ↦
        let (r, run, newest) =
          walk_hidden_lem b es holds small sorted own_key t transaction
            (length b.offsets - (idx + 1)) idx (idx + 1) (omega arith)
            (omega (arith, length-offsets holds)) refl
            (subst (HiddenBefore es own_key t) (omega arith) (
              older_hidden b es holds small sorted own_key t transaction idx inside refl
                (ground arith))) in
        (
          r,
          rw (tranc_id_at-nth b es holds small own_key t idx inside) (ground (arith, run)),
          newest,
        )
  ]

  adjusted :
      (t : ℕ) → (r : Option ℕ) × (adjust_idx_by_tranc_id 0 b idx t ≡ ok r) × Newest es own_key t r
  unfolding adjust_idx_by_tranc_id
  adjusted t = elim (Bool-cases (t == 0)) [
    | inl plain ↦
        let (r, run, found) = walk_first_lem b es holds small sorted own_key idx inside refl in
        (
          some r,
          rw
              (
                lt→leb (length b.offsets) idx (omega (arith, length-offsets holds)),
                key_at-nth b es holds small idx inside,
              )
              (ground (arith, run)),
          (found.0, found.1, ground arith, λ j p same. absurd (found.2 j p same)),
        )
    | inr transaction ↦
        let (r, run, newest) = in_tranc t (ground arith) in
        (
          r,
          rw
              (
                lt→leb (length b.offsets) idx (omega (arith, length-offsets holds)),
                key_at-nth b es holds small idx inside,
              )
              (ground (arith, run)),
          newest,
        )
  ]

  -- With no transaction no id is read.
  no_transaction :
      (stale : ℕ) → adjust_idx_by_tranc_id stale b idx 0 ≡ adjust_idx_by_tranc_id 0 b idx 0
  unfolding adjust_idx_by_tranc_id
  no_transaction stale = refl

  stale_read :
      (stale t : ℕ)
      → 0 < stale
      → stale < 2 ^ 48
      → (t == 0) ≡ false
      → adjust_idx_by_tranc_id stale b idx t ≡ err out_of_bounds
  unfolding adjust_idx_by_tranc_id adjust_in_tranc
  stale_read stale t pos less transaction =
      rw
        (
          lt→leb (length b.offsets) idx (omega (arith, length-offsets holds)),
          key_at-nth b es holds small idx inside,
          transaction,
          tranc_id_at_stale b es holds small stale own_key t idx pos less inside,
        )
        refl

-- For a block of at most 64 KiB that holds entries sorted by key, and by falling transaction id
-- within a key, at the index of an entry: `adjust_idx_by_tranc_id` answers the index of the newest
-- version of that entry's key which the transaction sees, or -1 if it sees none, where the six bytes
-- of `key_len` that `get_tranc_id_at` leaves uninitialised are zero or the transaction id is 0; where
-- neither is the case, it reads outside the block.
pub adjust_idx_by_tranc_id-Newest :
    (stale : ℕ) (b : Block) (es : List Entry) (idx tranc_id : ℕ)
    → stale < 2 ^ 48
    → Holds b es
    → length b.bytes ≤ 2 ^ 16
    → IsSorted es
    → idx < length es
    → Adjusts stale es (nth es idx).key tranc_id (adjust_idx_by_tranc_id stale b idx tranc_id)
adjust_idx_by_tranc_id-Newest zero b es idx tranc_id bounded holds small sorted inside =
    let (r, run, newest) = adjusted b es holds small sorted idx inside tranc_id in
    rw run (inl refl, newest)
adjust_idx_by_tranc_id-Newest (suc s) b es idx zero bounded holds small sorted inside =
    let (r, run, newest) = adjusted b es holds small sorted idx inside 0 in
    rw (no_transaction b es holds small sorted idx inside (suc s), run) (inr refl, newest)
adjust_idx_by_tranc_id-Newest (suc s) b es idx (suc t) bounded holds small sorted inside =
    rw
      (stale_read b es holds small sorted idx inside (suc s) (suc t) (omega arith) bounded
        (ground arith))
      (refl, (λ e. omega (arith, e)), (λ e. omega (arith, e)))
