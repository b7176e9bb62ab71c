-- ===== src/Block/Range/Ends.antt =====
-- The range search of a block (src/block/block.cpp) ends.
use lsm_tree_engine.Prelude.{
  ℕ, zero, suc, ◌+◌, ◌-◌, ◌/◌, ◌<◌, ◌≢◌, ltb, Bool-cases, inl, inr, List, length, Option, none,
  some, Ordering, err, stuck, avoids, arith,
}
use lsm_tree_engine.Prelude.Order.{Ordering-cases}
use lsm_tree_engine.Bytes.Layout.{load-ne-stuck, load_int-ne-stuck}
use lsm_tree_engine.Block.{Block, get_key_at, is_empty}
use lsm_tree_engine.Block.Search.{offset_at}
use lsm_tree_engine.Block.Range.{
  direction_at, first_loop, last_loop, range_from, get_monotony_predicate, keep_first,
}

module _ (b : Block) (predicate : List ℕ → Ordering) where
  offset_at-ne-stuck : (i : ℕ) → offset_at b i ≢ err stuck
  unfolding offset_at
  offset_at-ne-stuck i e = ground arith

  direction_at-ne-stuck : (mid : ℕ) → direction_at b predicate mid ≢ err stuck
  unfolding direction_at get_key_at
  direction_at-ne-stuck mid = avoids stuck _ _ (offset_at-ne-stuck mid) λ o.
      avoids stuck _ _
        (avoids stuck _ _ (load_int-ne-stuck 2 b.bytes o) λ n. load-ne-stuck b.bytes (o + 2) n)
        λ key e. cc

  first_loop-ne-stuck :
      (fuel left hi : ℕ) (first first_first : Option ℕ)
      → hi - left < fuel
      → first_loop b predicate fuel left hi first first_first ≢ err stuck
  unfolding first_loop
  first_loop-ne-stuck zero left hi first first_first room = elim room [ ]
  first_loop-ne-stuck (suc fuel) left hi first first_first room = elim (Bool-cases (ltb left hi)) [
    | inr done ↦ rw done (λ e. cc)
    | inl more ↦
        let mid : ℕ = left + (hi - 1 - left) / 2 in
        let inside : mid < hi = ground arith in
        rw more (
          avoids stuck _ _ (direction_at-ne-stuck mid) λ direction.
            elim (Ordering-cases direction) [
              | inl e ↦ rw e (first_loop-ne-stuck fuel left mid first first_first (omega arith))
              | inr (inl e) ↦ rw e (
                  first_loop-ne-stuck fuel left mid (some mid) (keep_first first_first mid)
                    (omega arith))
              | inr (inr e) ↦
                  rw e (first_loop-ne-stuck fuel (mid + 1) hi first first_first (omega arith))
            ])
  ]

  last_loop-ne-stuck :
      (fuel left hi : ℕ) (last : Option ℕ)
      → hi - left < fuel
      → last_loop b predicate fuel left hi last ≢ err stuck
  unfolding last_loop
  last_loop-ne-stuck zero left hi last room = elim room [ ]
  last_loop-ne-stuck (suc fuel) left hi last room = elim (Bool-cases (ltb left hi)) [
    | inr done ↦ rw done (λ e. cc)
    | inl more ↦
        let mid : ℕ = left + (hi - 1 - left) / 2 in
        let inside : mid < hi = ground arith in
        rw more (
          avoids stuck _ _ (direction_at-ne-stuck mid) λ direction.
            elim (Ordering-cases direction) [
              | inl e ↦ rw e (last_loop-ne-stuck fuel left mid last (omega arith))
              | inr (inl e) ↦ rw e (last_loop-ne-stuck fuel (mid + 1) hi (some mid) (omega arith))
              | inr (inr e) ↦ rw e (λ same. cc)
            ])
  ]

  range_from-ne-stuck :
      (first first_first : Option ℕ) → range_from b predicate first first_first ≢ err stuck
  unfolding range_from
  range_from-ne-stuck none first_first = λ e. cc
  range_from-ne-stuck (some first) none = λ e. cc
  range_from-ne-stuck (some first) (some left) =
      avoids stuck _ _
        (last_loop-ne-stuck (suc (length b.offsets)) left (length b.offsets) none (omega arith))
        λ last e. cc

  -- The range search ends on every block and for every predicate, monotone or not.
  pub get_monotony_predicate-ne-stuck : get_monotony_predicate b predicate ≢ err stuck
  unfolding get_monotony_predicate
  get_monotony_predicate-ne-stuck = elim (Bool-cases (is_empty b)) [
    | inl nothing ↦ rw nothing (λ e. cc)
    | inr some_entry ↦ rw some_entry (
        avoids stuck _ _
          (first_loop-ne-stuck (suc (length b.offsets)) 0 (length b.offsets) none none
            (omega arith))
          λ (first, first_first). range_from-ne-stuck first first_first)
  ]
