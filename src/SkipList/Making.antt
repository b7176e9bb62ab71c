-- ===== src/SkipList/Making.antt =====
-- A node that is made but not linked in (src/skiplist/skiplist.cpp) changes nothing of what a skip list holds.
use lsm_tree_engine.Prelude.{
  ◌^◌, ◌%◌, subst, ℕ, suc, ◌+◌, ◌<◌, ◌≡◌, ◌≢◌, refl, sym, ◌∙◌, ap, Bool, true, false, List, [], ◌∷◌,
  map, All, none, arith,
}
use lsm_tree_engine.SkipList.Chains.{
  All-both, filter, filter-All, filter_same, Chain-frame, All-imp, at_put_ne,
}
use lsm_tree_engine.SkipList.{SkipList, SkipListNode, Version, version_at, at_put, make_node}
use lsm_tree_engine.SkipList.Versions.{IsSorted, total_size}
use lsm_tree_engine.SkipList.Invariant.{IsLinked}

-- Nothing is linked at the address of the new node yet.
abbrev pub linked_but : (ℕ → ℕ → Bool) → ℕ → ℕ → ℕ → Bool
linked_but linked n i = at_put (linked i) n false

pub map_same : (f g : ℕ → Version) (xs : List ℕ) → All (λ a. f a ≡ g a) xs → map f xs ≡ map g xs
map_same f g [] h = refl
map_same f g (x ∷ xs) (e, h) = rw e (ap (◌∷◌ (g x)) (map_same f g xs h))

module _ (s : SkipList) (addresses : List ℕ) (linked : ℕ → ℕ → Bool)
    (inv : IsLinked s addresses linked) (key value : List ℕ) (level tranc_id : ℕ) where
  abbrev pub made : SkipList
  made = make_node s key value level tranc_id

  others : All (λ a. a ≢ s.fresh) addresses
  others =
      All-imp (λ a. a < s.fresh) (λ a. a ≢ s.fresh) addresses (λ a h e. absurd (omega arith))
        inv.allocated.1

  head_other : s.head ≢ s.fresh
  head_other e = absurd (omega (arith, inv.allocated.0))

  node_other : (a : ℕ) → a ≢ s.fresh → made.nodes a ≡ s.nodes a
  unfolding make_node
  node_other a other = at_put_ne s.nodes s.fresh _ a other

  pub versions_made : map (version_at made) addresses ≡ map (version_at s) addresses
  versions_made = map_same (version_at made) (version_at s) addresses (
      All-imp (λ a. a ≢ s.fresh) (λ a. version_at made a ≡ version_at s a) addresses
        (λ a other. ap (λ (x : SkipListNode). (x.key, x.value, x.tranc_id)) (node_other a other))
        others)

  same_filter :
      (i : ℕ) → filter (linked_but linked s.fresh i) addresses ≡ filter (linked i) addresses
  same_filter i = filter_same (linked_but linked s.fresh i) (linked i) addresses (
      All-imp (λ a. a ≢ s.fresh) (λ a. linked_but linked s.fresh i a ≡ linked i a) addresses
        (λ a other. at_put_ne (linked i) s.fresh false a other) others)

  linked_before :
      (i a : ℕ) → linked_but linked s.fresh i a ≡ true → (a ≢ s.fresh) × (linked i a ≡ true)
  linked_before i a h = (λ e. absurd (ground arith), ground arith)

  but_same :
      (b : Bool) (i : ℕ)
      → All (λ a. linked i a ≡ b) addresses
      → All (λ a. linked_but linked s.fresh i a ≡ b) addresses
  but_same b i h =
      All-both (λ a. a ≢ s.fresh) (λ a. linked i a ≡ b) (λ a. linked_but linked s.fresh i a ≡ b)
        addresses (λ a other k. at_put_ne (linked i) s.fresh false a other ∙ k) others h

  pub made-IsLinked : IsLinked made addresses (linked_but linked s.fresh)
  unfolding make_node
  made-IsLinked = record {
    head_height =
        ap (λ (x : SkipListNode). x.height) (node_other s.head head_other) ∙ inv.head_height;
    positive = inv.positive;
    bounded = inv.bounded;
    chains = λ i h. rw (same_filter i) (
        Chain-frame (filter (linked i) addresses) (s.forward i) s.fresh none s.head
          (head_other, filter-All (λ a. a ≢ s.fresh) (linked i) addresses others) (inv.chains i h));
    tall = λ i a small h.
        let (other, old) = linked_before i a h in
        subst (λ (x : SkipListNode). i < x.height) (sym (node_other a other))
          (inv.tall i a (ground arith) old);
    bottom = but_same true 0 inv.bottom;
    nested = λ i a h.
        let (other, old) = linked_before (suc i) a h in
        at_put_ne (linked i) s.fresh false a other ∙ inv.nested i a old;
    low = λ i h. but_same false i (inv.low i h);
    distinct = inv.distinct;
    allocated = (
      omega (arith, inv.allocated.0),
      All-imp (λ a. a < s.fresh) (λ a. a < s.fresh + 1) addresses (λ a h. omega arith)
          inv.allocated.1,
    );
    few = omega (arith, inv.few);
    sorted = subst IsSorted (sym versions_made) inv.sorted;
    sized = inv.sized ∙ ap (λ (vs : List Version). total_size vs % 2 ^ 64) (sym versions_made);
  }
