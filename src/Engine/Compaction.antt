-- ===== src/Engine/Compaction.antt =====
-- `LSMEngine::full_compact` (src/engine/engine.cpp) goes through a null pointer.
use lsm_tree_engine.Prelude.{
  lt→ltb, ℕ, zero, suc, ◌+◌, ◌<◌, ◌≡◌, ◌≢◌, refl, sym, ◌∙◌, ap, ltb, leb, ◌==◌, true, false,
  Bool-cases, inl, inr, List, [], ◌∷◌, length, map, Option, none, ok, err, out_of_bounds,
  from_option, arith,
}
use lsm_tree_engine.Prelude.Results.{first_ok, ok-injective}
use lsm_tree_engine.SkipList.{at_put}
use lsm_tree_engine.SkipList.Chains.{at_put_self}
use lsm_tree_engine.Memtable.{get_total_size}
use lsm_tree_engine.Engine.{
  SstFiles, LsmEngine, delete_ssts, compact_level, full_compact, flush, sst_level_ratio,
}

module _ (F : SstFiles) where
  -- What is not there is not there after files are deleted.
  delete_ssts-gone :
      (ids : List ℕ) (ssts ssts' : ℕ → Option F.Builder.Sst) (y : ℕ)
      → delete_ssts F ids ssts ≡ ok ssts'
      → ssts y ≡ none
      → ssts' y ≡ none
  unfolding delete_ssts
  delete_ssts-gone [] ssts ssts' y run gone =
      ap (λ (f : ℕ → Option F.Builder.Sst). f y) (sym (ok-injective run)) ∙ gone
  delete_ssts-gone (x ∷ xs) ssts ssts' y run gone =
      let (sst, e, rest) = first_ok (from_option out_of_bounds (ssts x)) _ run in
      delete_ssts-gone xs (at_put ssts x none) ssts' y rest
        (elim (Bool-cases (x == y)) [ inl same ↦ rw same refl | inr differ ↦ rw differ gone ])

  -- The same files cannot be deleted twice.
  delete_ssts_twice :
      (ids : List ℕ) (ssts ssts₁ ssts₂ : ℕ → Option F.Builder.Sst)
      → 0 < length ids
      → delete_ssts F ids ssts ≡ ok ssts₁
      → delete_ssts F ids ssts₁ ≢ ok ssts₂
  unfolding delete_ssts
  delete_ssts_twice [] ssts ssts₁ ssts₂ some_file run again = elim some_file [ ]
  delete_ssts_twice (x ∷ xs) ssts ssts₁ ssts₂ some_file run again =
      let (sst, e, rest) = first_ok (from_option out_of_bounds (ssts x)) _ run in
      let gone : ssts₁ x ≡ none =
        delete_ssts-gone xs (at_put ssts x none) ssts₁ x rest (at_put_self ssts x none) in
      let (sst', e', rest') = first_ok (from_option out_of_bounds (ssts₁ x)) _ again in
      let fault : err out_of_bounds ≡ ok sst' = sym (ap (from_option out_of_bounds) gone) ∙ e' in cc

  compact_level-fails :
      (e e' : LsmEngine F) (src_level : ℕ)
      → 0 < length (e.level_sst_ids src_level)
      → compact_level F e src_level ≢ ok e'
  unfolding compact_level
  compact_level-fails e e' src_level some_file run =
      let ids : List ℕ = e.level_sst_ids src_level in
      let (merged, e₁, run₁) =
        first_ok (F.compact src_level (map e.ssts ids) (map e.ssts ids) e.next_sst_id) _ run in
      let (ssts₁, deleted, run₂) = first_ok (delete_ssts F ids e.ssts) _ run₁ in
      let (ssts₂, again, run₃) = first_ok (delete_ssts F ids ssts₁) _ run₂ in
      delete_ssts_twice ids e.ssts ssts₁ ssts₂ some_file deleted again

  full_compact-fails :
      (fuel : ℕ) (e e' : LsmEngine F) (src_level : ℕ)
      → 0 < length (e.level_sst_ids src_level)
      → full_compact F fuel e src_level ≢ ok e'
  unfolding full_compact
  full_compact-fails zero e e' src_level some_file run = cc
  full_compact-fails (suc fuel) e e' src_level some_file run =
      elim (Bool-cases (leb sst_level_ratio (length (e.level_sst_ids (src_level + 1))))) [
        | inl full ↦
            let (e₁, above, run₁) =
              first_ok (full_compact F fuel e (src_level + 1)) _ (rw full at run) in
            full_compact-fails fuel e e₁ (src_level + 1) (ground arith) above
        | inr room ↦ compact_level-fails e e' src_level some_file (rw room at run)
      ]

  -- With more than sixteen files on the lowest level, `flush` of a memory table that is not empty never
  -- succeeds: the compaction deletes the files of the level twice, or fails before that, however far it
  -- goes up.
  pub flush-fails :
      (fuel : ℕ) (e e' : LsmEngine F)
      → (get_total_size e.memtable == 0) ≡ false
      → sst_level_ratio < length (e.level_sst_ids 0)
      → flush F fuel e ≢ ok e'
  unfolding flush
  flush-fails fuel e e' filled many run =
      let too_many : ltb sst_level_ratio (length (e.level_sst_ids 0)) ≡ true = lt→ltb _ _ many in
      let (e₁, compacted, run₁) =
        first_ok (full_compact F fuel e 0) _ (rw (filled, too_many) at run) in
      full_compact-fails fuel e e₁ 0 (omega (arith, many)) compacted
