-- ===== src/SkipList/Placing.antt =====
-- A skip list (src/skiplist/skiplist.cpp) with a new node linked in on its lowest levels is well formed.
use lsm_tree_engine.Prelude.{
  ◌==◌, subst, ℕ, suc, ◌+◌, ◌%◌, ◌^◌, ◌<◌, ◌≤◌, ◌≡◌, ◌≢◌, refl, sym, ◌∙◌, ap, ltb, Bool, true,
  false, Bool-cases, inl, inr, List, ◌∷◌, ◌++◌, length, length-append, map, All, Option, arith,
}
use lsm_tree_engine.SkipList.{SkipList, Version, version_at, at_put}
use lsm_tree_engine.SkipList.Chains.{
  Chain, filter, filter-append, filter_same, All-imp, All-both, at_put_self, at_put_ne, All-left,
}
use lsm_tree_engine.SkipList.Distinct.{All-put, Distinct-put, filter_put, filter_put_not}
use lsm_tree_engine.SkipList.Levels.{All-right}
use lsm_tree_engine.SkipList.Replacing.{map-append}
use lsm_tree_engine.SkipList.Insertion.{total_size-append}
use lsm_tree_engine.SkipList.Versions.{IsSorted, size_of, total_size}
use lsm_tree_engine.SkipList.Invariant.{IsLinked}

-- The new node is linked below level `m`.
abbrev pub linked_below : (ℕ → ℕ → Bool) → ℕ → ℕ → ℕ → ℕ → Bool
linked_below linked n m i = at_put (linked i) n (ltb i m)

-- Of a list without the new node, a level has what it had.
filter_below :
    (linked : ℕ → ℕ → Bool) (n m i : ℕ) (xs : List ℕ)
    → All (λ a. a ≢ n) xs
    → filter (linked_below linked n m i) xs ≡ filter (linked i) xs
filter_below linked n m i xs apart = filter_same (linked_below linked n m i) (linked i) xs (
    All-imp (λ a. a ≢ n) (λ a. linked_below linked n m i a ≡ linked i a) xs
      (λ a other. at_put_ne (linked i) n (ltb i m) a other) apart)

filter_below_in :
    (linked : ℕ → ℕ → Bool) (n m i : ℕ) (xs ys : List ℕ)
    → All (λ a. a ≢ n) (xs ++ ys)
    → ltb i m ≡ true
    → filter (linked_below linked n m i) (xs ++ (n ∷ ys))
      ≡ filter (linked i) xs ++ (n ∷ filter (linked i) ys)
filter_below_in linked n m i xs ys apart low =
    filter_put (linked_below linked n m i) xs ys n (at_put_self (linked i) n (ltb i m) ∙ low)
    ∙ rw
        (
          filter_below linked n m i xs (All-left (λ a. a ≢ n) xs ys apart),
          filter_below linked n m i ys (All-right (λ a. a ≢ n) xs ys apart),
        )
        refl

filter_below_out :
    (linked : ℕ → ℕ → Bool) (n m i : ℕ) (xs ys : List ℕ)
    → All (λ a. a ≢ n) (xs ++ ys)
    → ltb i m ≡ false
    → filter (linked_below linked n m i) (xs ++ (n ∷ ys)) ≡ filter (linked i) (xs ++ ys)
filter_below_out linked n m i xs ys apart high =
    filter_put_not (linked_below linked n m i) xs ys n (at_put_self (linked i) n (ltb i m) ∙ high)
    ∙ rw
        (
          filter_below linked n m i xs (All-left (λ a. a ≢ n) xs ys apart),
          filter_below linked n m i ys (All-right (λ a. a ≢ n) xs ys apart),
        )
        refl
    ∙ sym (filter-append (linked i) xs ys)

module _ (s : SkipList) (pre post : List ℕ) (linked : ℕ → ℕ → Bool)
    (inv : IsLinked s (pre ++ post) linked) (n new_level m : ℕ)
    (forward backward : ℕ → ℕ → Option ℕ) (few : length (pre ++ post) + 1 < s.fresh)
    (apart : All (λ a. a ≢ n) (s.head ∷ (pre ++ post))) (unlinked : (i : ℕ) → linked i n ≡ false)
    (small : n < s.fresh) (positive : 0 < m) (tall : (s.nodes n).height ≡ new_level)
    (grown : s.current_level ≤ new_level) (bounded : new_level ≤ s.max_level)
    (reached : m ≤ new_level)
    (below : (i : ℕ)
      → i < m
      → Chain (forward i) s.head (filter (linked i) pre ++ (n ∷ filter (linked i) post)))
    (above : (i : ℕ) → m ≤ i → forward i ≡ s.forward i)
    (sorted : IsSorted (map (version_at s) pre ++ (version_at s n ∷ map (version_at s) post))) where
  abbrev pub placed : SkipList
  placed = record s {
    size_bytes = (s.size_bytes + size_of (version_at s n)) % 2 ^ 64;
    forward = forward;
    backward = backward;
    current_level = new_level;
  }

  abbrev now : ℕ → ℕ → Bool
  now = linked_below linked n m

  on_others :
      (b : Bool) (i : ℕ) (xs : List ℕ)
      → All (λ a. a ≢ n) xs
      → All (λ a. linked i a ≡ b) xs
      → All (λ a. now i a ≡ b) xs
  on_others b i xs =
      All-both (λ a. a ≢ n) (λ a. linked i a ≡ b) (λ a. now i a ≡ b) xs
        (λ a other k. at_put_ne (linked i) n (ltb i m) a other ∙ k)

  chains_placed :
      (i : ℕ) → i < s.max_level → Chain (forward i) s.head (filter (now i) (pre ++ (n ∷ post)))
  chains_placed i low = elim (Bool-cases (ltb i m)) [
    | inl inside ↦
        rw (filter_below_in linked n m i pre post apart.1 inside) (below i (ground arith))
    | inr outside ↦
        rw (filter_below_out linked n m i pre post apart.1 outside, above i (ground arith))
          (inv.chains i low)
  ]

  tall_placed : (i a : ℕ) → a < s.fresh → now i a ≡ true → i < (s.nodes a).height
  tall_placed i a old h = elim (Bool-cases (n == a)) [
    | inl e ↦
        let same : n ≡ a = ground arith in
        subst (λ (b : ℕ). i < (s.nodes b).height) same (ground (arith, tall))
    | inr differ ↦ inv.tall i a old (ground arith)
  ]

  nested_placed : (i a : ℕ) → now (suc i) a ≡ true → now i a ≡ true
  nested_placed i a h = elim (Bool-cases (n == a)) [
    | inl e ↦ ground arith
    | inr differ ↦ ground (arith, inv.nested i a)
  ]

  low_placed : (i : ℕ) → new_level ≤ i → All (λ a. now i a ≡ false) (pre ++ (n ∷ post))
  low_placed i high =
      All-put (λ a. now i a ≡ false) pre post n
        (on_others false i (pre ++ post) apart.1 (inv.low i (omega arith)))
        (at_put_self (linked i) n (ltb i m) ∙ ground arith)

  bottom_placed : All (λ a. now 0 a ≡ true) (pre ++ (n ∷ post))
  bottom_placed =
      All-put (λ a. now 0 a ≡ true) pre post n (on_others true 0 (pre ++ post) apart.1 inv.bottom)
        (at_put_self (linked 0) n (ltb 0 m) ∙ ground arith)

  pub versions_placed :
      map (version_at s) (pre ++ (n ∷ post))
      ≡ map (version_at s) pre ++ (version_at s n ∷ map (version_at s) post)
  versions_placed = map-append (version_at s) pre (n ∷ post)

  sized_placed :
      (s.size_bytes + size_of (version_at s n)) % 2 ^ 64
      ≡ total_size (map (version_at s) (pre ++ (n ∷ post))) % 2 ^ 64
  sized_placed =
      let xs : List Version = map (version_at s) pre in
      let ys : List Version = map (version_at s) post in
      let before : s.size_bytes ≡ (total_size xs + total_size ys) % 2 ^ 64 =
        inv.sized
        ∙ ap (λ (vs : List Version). total_size vs % 2 ^ 64) (map-append (version_at s) pre post)
        ∙ ap (λ (k : ℕ). k % 2 ^ 64) (total_size-append xs ys) in
      let after : total_size (xs ++ (version_at s n ∷ ys))
          ≡ total_size xs + (size_of (version_at s n) + total_size ys) =
        total_size-append xs (version_at s n ∷ ys) in
      rw (versions_placed, after, before) (omega arith)

  pub placed-IsLinked : IsLinked placed (pre ++ (n ∷ post)) now
  placed-IsLinked = record {
    head_height = inv.head_height;
    positive = omega arith;
    bounded = bounded;
    chains = chains_placed;
    tall = tall_placed;
    bottom = bottom_placed;
    nested = nested_placed;
    low = low_placed;
    distinct = (
      All-put (λ a. a ≢ s.head) pre post n inv.distinct.0 (λ e. apart.0 (sym e)),
      Distinct-put pre post n inv.distinct.1 apart.1,
    );
    allocated = (inv.allocated.0, All-put (λ a. a < s.fresh) pre post n inv.allocated.1 small);
    few = omega (arith, few, length-append pre (n ∷ post), length-append pre post);
    sorted = subst IsSorted (sym versions_placed) sorted;
    sized = sized_placed;
  }
