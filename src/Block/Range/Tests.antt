-- ===== src/Block/Range/Tests.antt =====
-- A concrete run of the range search (src/block/block.cpp), and its theorem at a concrete input.
use lsm_tree_engine.Prelude.{◌≡◌, refl, [], ◌∷◌, some, ok}
use lsm_tree_engine.Prelude.Order.{compare_bytes}
use lsm_tree_engine.Bytes.{from_bytes, load, load_int}
use lsm_tree_engine.Block.{get_key_at, is_empty}
use lsm_tree_engine.Block.Search.{offset_at}
use lsm_tree_engine.Block.Tests.{stored}
use lsm_tree_engine.Block.Range.{
  direction_at, first_loop, last_loop, range_from, get_monotony_predicate,
}

-- Both versions of the key "a" are in the range of the keys equal to "a".
both_versions : get_monotony_predicate stored (compare_bytes (b'a' ∷ [])) ≡ ok (some (0, 2))
unfolding get_monotony_predicate first_loop last_loop range_from direction_at offset_at get_key_at
    is_empty compare_bytes load load_int from_bytes
both_versions = refl
