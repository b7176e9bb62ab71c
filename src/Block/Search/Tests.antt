-- ===== src/Block/Search/Tests.antt =====
-- Concrete runs of the lookups of a block (src/block/block.cpp), and their theorems at concrete inputs.
use lsm_tree_engine.Prelude.{◌≡◌, refl, [], ◌∷◌, ok, none, some, arith, inr, zero, suc}
use lsm_tree_engine.Prelude.Order.{compare_bytes}
use lsm_tree_engine.Bytes.{from_bytes, load, load_int}
use lsm_tree_engine.Block.{is_empty, get_key_at, get_value_at, get_tranc_id_at}
use lsm_tree_engine.Block.Tests.{both, stored, stored-Holds}
use lsm_tree_engine.Block.Search.{
  offset_at, key_at, is_same_key, walk_first, tranc_id_at, walk_visible, walk_hidden,
  adjust_in_tranc, adjust_idx_by_tranc_id, on_found, binary_loop, compare_key, get_idx_binary,
  get_value_binary,
}
use lsm_tree_engine.Block.Search.Sorted.{IsSorted, Adjusts, Searches}
use lsm_tree_engine.Block.Search.Adjust.{adjust_idx_by_tranc_id-Newest}
use lsm_tree_engine.Block.Search.Binary.{get_idx_binary-Answers}

lookups : Unit {0}
unfolding from_bytes load load_int is_empty get_key_at get_value_at get_tranc_id_at offset_at key_at
    is_same_key walk_first tranc_id_at walk_visible walk_hidden adjust_in_tranc
    adjust_idx_by_tranc_id on_found binary_loop compare_key get_idx_binary get_value_binary
    compare_bytes
lookups = tt

both-IsSorted : IsSorted both
both-IsSorted zero zero p h = absurd (omega arith)
both-IsSorted zero (suc zero) p h = inr (refl, omega arith)
both-IsSorted zero (suc (suc j)) p h = absurd (omega arith)
both-IsSorted (suc i) j p h = absurd (omega arith)

-- The newest version that transaction 4 sees is the second one; the lookup finds none.
lookup_four :
    (adjust_idx_by_tranc_id 0 stored 0 4 ≡ ok (some 1))
    × (get_value_binary 0 stored (b'a' ∷ []) 4 ≡ ok none)
unfolding lookups
lookup_four = (refl, refl)

-- Transaction 2 sees no version, and the lookup answers one.
lookup_two :
    (adjust_idx_by_tranc_id 0 stored 0 2 ≡ ok none)
    × (get_value_binary 0 stored (b'a' ∷ []) 2 ≡ ok (some (b'y' ∷ [])))
unfolding lookups
lookup_two = (refl, refl)

adjust_idx_by_tranc_id-Newest_example :
    Adjusts 0 both (b'a' ∷ []) 4 (adjust_idx_by_tranc_id 0 stored 0 4)
adjust_idx_by_tranc_id-Newest_example =
    adjust_idx_by_tranc_id-Newest 0 stored both 0 4 (omega arith) stored-Holds (omega arith)
      both-IsSorted (omega arith)

get_idx_binary-Answers_example :
    Searches 0 both (b'a' ∷ []) 2 (get_idx_binary 0 stored (b'a' ∷ []) 2)
get_idx_binary-Answers_example =
    get_idx_binary-Answers 0 stored both (b'a' ∷ []) 2 (omega arith) stored-Holds (omega arith)
      both-IsSorted
