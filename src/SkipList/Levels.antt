-- ===== src/SkipList/Levels.antt =====
-- The levels of a skip list (src/skiplist/skiplist.cpp) around the place of a new node, and the nodes
-- `update` has for them.
use lsm_tree_engine.Prelude.{
  ℕ, ◌<◌, ◌≡◌, ◌≢◌, refl, sym, ◌∙◌, ltb, leb, ◌&&◌, Bool, false, Bool-cases, inl, inr, List, [],
  ◌∷◌, ◌++◌, All, Option, some, arith,
}
use lsm_tree_engine.SkipList.{SkipList, fill_update}
use lsm_tree_engine.SkipList.Chains.{
  last, filter, filter-append, filter-All, filter_none, last-All, All-left,
}
use lsm_tree_engine.SkipList.Distinct.{Chain-next, first-All, filter-Distinct}
use lsm_tree_engine.SkipList.Linking.{IsLevel}
use lsm_tree_engine.SkipList.Invariant.{IsLinked}

pub All-right : (Q : ℕ → Type 0) (xs ys : List ℕ) → All Q (xs ++ ys) → All Q ys
All-right Q [] ys h = h
All-right Q (x ∷ xs) ys (q, h) = All-right Q xs ys h

module _ (s : SkipList) (pre post : List ℕ) (linked : ℕ → ℕ → Bool)
    (inv : IsLinked s (pre ++ post) linked) where
  pub heights :
      (i : ℕ) (xs : List ℕ)
      → All (λ a. a < s.fresh) xs
      → All (λ a. i < (s.nodes a).height) (filter (linked i) xs)
  unfolding filter
  heights i [] small = tt
  heights i (x ∷ xs) (small_x, small) = elim (Bool-cases (linked i x)) [
    | inl yes_x ↦ rw yes_x (inv.tall i x small_x yes_x, heights i xs small)
    | inr no_x ↦ rw no_x (heights i xs small)
  ]

  pub level_of :
      (n i : ℕ)
      → All (λ a. a ≢ n) (s.head ∷ (pre ++ post))
      → i < s.max_level
      → IsLevel s n i (filter (linked i) pre) (filter (linked i) post)
  level_of n i (head_apart, apart) low =
      let whole : filter (linked i) (pre ++ post)
          ≡ filter (linked i) pre ++ filter (linked i) post =
        filter-append (linked i) pre post in
      let small = inv.allocated.1 in
      record {
        chain = rw (← whole) (inv.chains i low);
        apart = (head_apart, rw (← whole) (filter-All (λ a. a ≢ n) (linked i) (pre ++ post) apart));
        distinct = rw (← whole) (
          filter-All (λ a. a ≢ s.head) (linked i) (pre ++ post) inv.distinct.0,
          filter-Distinct (linked i) (pre ++ post) inv.distinct.1,
        );
        tall_last =
            last-All (λ a. i < (s.nodes a).height) s.head (filter (linked i) pre)
              (
                omega (arith, inv.head_height),
                heights i pre (All-left (λ a. a < s.fresh) pre post small),
              );
        tall_next = λ m e.
            first-All (λ a. i < (s.nodes a).height) (filter (linked i) post) m
              (heights i post (All-right (λ a. a < s.fresh) pre post small))
              (sym (
                  Chain-next (filter (linked i) pre) (filter (linked i) post) (s.forward i) s.head
                    (rw (← whole) (inv.chains i low)))
                ∙ e);
      }

  -- Above the current level `update` has the head, and so has the place.
  pub fill_update_lem :
      (update : ℕ → Option ℕ) (new_level i : ℕ)
      → ((j : ℕ) → j < s.current_level → update j ≡ some (last s.head (filter (linked j) pre)))
      → i < new_level
      → fill_update s new_level s.current_level update i
        ≡ some (last s.head (filter (linked i) pre))
  unfolding fill_update
  fill_update_lem update new_level i met low =
      elim (Bool-cases (leb s.current_level i && ltb i new_level)) [
        | inl above ↦
            let none_linked : filter (linked i) pre ≡ [] =
              filter_none (linked i) pre
                (All-left (λ a. linked i a ≡ false) pre post (inv.low i (ground arith))) in
            rw (above, none_linked) refl
        | inr below ↦ rw below (met i (ground arith))
      ]
