-- ===== src/Sst/Iterator/Gathering.antt =====
-- What `SstIterator::merge_sst_iterator` (src/sst/sst_iterator.cpp) gathers.
use lsm_tree_engine.Prelude.{
  suc, ◌⊎◌, inl, inr, Bool-cases, ◌==◌, ltb, length, All, [], ◌∷◌, none, List, ℕ, ◌≡◌, refl, true,
  false, Option, some, ok,
}
use lsm_tree_engine.Sst.{num_blocks, BlockCache, Sst}
use lsm_tree_engine.Sst.Iterator.{is_end, is_valid, gather_valid, merge_sst_iterator, SstIterator}
use lsm_tree_engine.BlockIterator
use lsm_tree_engine.BlockIterator.{BlockIterator}
use lsm_tree_engine.Block.{Block}

-- An iterator of a file, at a block that is there or at none.
pub record Points (it : SstIterator) : Type 0 where
  pub file : (sst : Sst) × (it.sst ≡ some sst)
  pub block :
      (b : BlockIterator) → it.block_iter ≡ some b → (place : ℕ × Block) × (b.block ≡ some place)

-- A valid iterator points to a block, and is at its end therefore.
states :
    (it : SstIterator)
    → Points it
    → (b : Option BlockIterator) → it.block_iter ≡ b
    → (is_valid it ≡ ok false) ⊎ ((is_valid it ≡ ok true) × (is_end it ≡ ok true))
unfolding is_valid is_end BlockIterator.is_end
states it points none at = inl (rw at refl)
states it points (some b) at =
    let (sst, file) = points.file in
    let (place, block) = points.block b at in
    elim (Bool-cases (b.current_index == length place.1.offsets)) [
      | inl ended ↦ inl (rw (at, block, ended) refl)
      | inr inside ↦ elim (Bool-cases (ltb it.block_idx (num_blocks sst))) [
        | inl more ↦ inr (rw (at, block, inside, file, more) refl, rw at refl)
        | inr done ↦ inl (rw (at, block, inside, file, done) refl)
      ]
    ]

module _ (hash : List ℕ → ℕ) (C : BlockCache) (address : ℕ) where
  gather_valid-nothing :
      (fuel : ℕ) (it : SstIterator) (cache : Option C.State)
      → Points it
      → gather_valid hash C address (suc fuel) it cache ≡ ok ([], cache)
  unfolding gather_valid
  gather_valid-nothing fuel it cache points = elim (states it points it.block_iter refl) [
    | inl invalid ↦ rw invalid refl
    | inr (valid, ended) ↦ rw (valid, ended) refl
  ]

  -- The merge of any iterators of files gathers nothing, and ends with one round for each: an iterator that is valid is
  -- at its end for `is_end`, so the loop over its elements stops before the first one. For iterators each of which has
  -- its file, and its block where it has an iterator of a block.
  pub merge_sst_iterator-nothing :
      (fuel : ℕ) (iter_vec : List SstIterator) (cache : Option C.State)
      → All Points iter_vec
      → merge_sst_iterator hash C address (suc fuel) iter_vec cache ≡ ok ([], cache)
  unfolding merge_sst_iterator
  merge_sst_iterator-nothing fuel [] cache points = refl
  merge_sst_iterator-nothing fuel (it ∷ iter_vec) cache (points, rest) =
      rw
        (
          gather_valid-nothing fuel it cache points,
          merge_sst_iterator-nothing fuel iter_vec cache rest,
        )
        refl
