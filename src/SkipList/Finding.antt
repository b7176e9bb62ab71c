-- ===== src/SkipList/Finding.antt =====
-- Where the search of `SkipList::put` and `SkipList::get` (src/skiplist/skiplist.cpp) ends: before the
-- first node behind the place.
use lsm_tree_engine.Prelude.{
  ℕ, suc, zero, ◌<◌, ◌≤◌, ◌≡◌, refl, ◌∙◌, ap, Bool, true, false, inl, List, ◌++◌, All, Option, some,
  ok, arith, none,
}
use lsm_tree_engine.SkipList.{SkipList, forward_at, descend}
use lsm_tree_engine.SkipList.Chains.{last, last-In, filter, filter-append, filter_whole, All-left}
use lsm_tree_engine.SkipList.Distinct.{first, Chain-next}
use lsm_tree_engine.SkipList.Levels.{All-right}
use lsm_tree_engine.SkipList.Search.{final, descend_lem, filter_tall, tall_from, forward_at-ok}
use lsm_tree_engine.SkipList.Invariant.{IsLinked}

module _ (s : SkipList) (pre post : List ℕ) (linked : ℕ → ℕ → Bool)
    (inv : IsLinked s (pre ++ post) linked) (less : ℕ → Bool)
    (before : All (λ a. less a ≡ true) pre) (behind : All (λ a. less a ≡ false) post) where
  -- The last node of a level that is less.
  abbrev pub place : ℕ → ℕ
  place i = last s.head (filter (linked i) pre)

  final_positive : (n c : ℕ) → 0 < n → final s pre post linked inv less before behind c n ≡ place 0
  final_positive zero c h = absurd (omega arith)
  final_positive (suc n) c h = refl

  -- The search from the head, from any number of levels down.
  pub descend-place :
      (n : ℕ)
      → 0 < n
      → n ≤ s.max_level
      → (update : ℕ → Option ℕ) × (descend s less n s.head (λ i. none) ≡ ok (place 0, update))
        × ((i : ℕ) → i < n → update i ≡ some (place i))
  descend-place n some_level low =
      let (update, run, met, rest) =
        descend_lem s pre post linked inv less before behind n s.head (λ i. none) low
          (λ i e. inl refl) in
      (update, run ∙ ap (λ (a : ℕ). ok (a, update)) (final_positive n s.head some_level), met)

  -- Behind the place stands the first node that is not less.
  pub forward_at-place : forward_at s 0 (place 0) ≡ ok (first post)
  forward_at-place =
      let small = All-left (λ a. a < s.fresh) pre post inv.allocated.1 in
      let tall : 0 < (s.nodes (place 0)).height =
        tall_from s pre post linked inv less before behind 0 (place 0)
          (omega (arith, inv.positive, inv.bounded))
          (filter_tall s pre post linked inv less before behind 0 pre small before)
          (last-In s.head (filter (linked 0) pre)) in
      let whole : filter (linked 0) (pre ++ post)
          ≡ filter (linked 0) pre ++ filter (linked 0) post =
        filter-append (linked 0) pre post in
      let post_all : filter (linked 0) post ≡ post =
        filter_whole (linked 0) post (All-right (λ a. linked 0 a ≡ true) pre post inv.bottom) in
      let next : s.forward 0 (place 0) ≡ first (filter (linked 0) post) =
        Chain-next (filter (linked 0) pre) (filter (linked 0) post) (s.forward 0) s.head
          (rw (← whole) (inv.chains 0 (omega (arith, inv.positive, inv.bounded)))) in
      forward_at-ok s 0 (place 0) tall ∙ ap ok (next ∙ ap first post_all)
