-- ===== src/SkipList/Linking.antt =====
-- `SkipList::put` (src/skiplist/skiplist.cpp) links a new node in: what the loop over the levels leaves behind.
use lsm_tree_engine.Prelude.{
  ◌||◌, subst, ℕ, zero, suc, ◌+◌, ◌<◌, ◌≤◌, ◌≡◌, ◌≢◌, refl, sym, ◌∙◌, ap, lt→ltb, ◌==◌, Bool,
  Bool-cases, inl, inr, List, ◌∷◌, ◌++◌, All, Option, none, some, ok, arith,
}
use lsm_tree_engine.SkipList.{has_bit, SkipList, at_put, set_forward, set_backward, link, link_loop}
use lsm_tree_engine.SkipList.Search.{forward_at-ok}
use lsm_tree_engine.SkipList.Chains.{
  Chain, Distinct, last, inserted, Chain-insert, at_put_self, at_put_ne,
}

abbrev pub with_links : SkipList → (ℕ → ℕ → Option ℕ) → (ℕ → ℕ → Option ℕ) → SkipList
with_links s f b = record s { forward = f; backward = b }

-- The forward pointers after `n` is linked in at level `i` behind `u` and before `next`.
abbrev pub linked_in : (ℕ → ℕ → Option ℕ) → ℕ → ℕ → ℕ → Option ℕ → ℕ → ℕ → Option ℕ
linked_in f i n u next =
    let g = at_put f i (at_put (f i) n next) in at_put g i (at_put (g i) u (some n))

linked_in_self :
    (f : ℕ → ℕ → Option ℕ) (i n u : ℕ) → linked_in f i n u (f i u) i ≡ inserted (f i) n u
linked_in_self f i n u =
    let g : ℕ → ℕ → Option ℕ = at_put f i (at_put (f i) n (f i u)) in
    at_put_self g i (at_put (g i) u (some n))
    ∙ ap (λ (h : ℕ → Option ℕ). at_put h u (some n)) (at_put_self f i (at_put (f i) n (f i u)))

linked_in_ne :
    (f : ℕ → ℕ → Option ℕ) (i n u : ℕ) (next : Option ℕ) (j : ℕ)
    → j ≢ i
    → linked_in f i n u next j ≡ f j
linked_in_ne f i n u next j differ =
    let g : ℕ → ℕ → Option ℕ = at_put f i (at_put (f i) n next) in
    at_put_ne g i (at_put (g i) u (some n)) j differ ∙ at_put_ne f i (at_put (f i) n next) j differ

set_forward-ok :
    (s : SkipList) (i a : ℕ) (p : Option ℕ)
    → i < (s.nodes a).height
    → set_forward s i a p
      ≡ ok (record s { forward = at_put s.forward i (at_put (s.forward i) a p) })
unfolding set_forward
set_forward-ok s i a p tall = rw (lt→ltb i (s.nodes a).height tall) refl

set_backward-ok :
    (s : SkipList) (i a : ℕ) (p : Option ℕ)
    → i < (s.nodes a).height
    → set_backward s i a p
      ≡ ok (record s { backward = at_put s.backward i (at_put (s.backward i) a p) })
unfolding set_backward
set_backward-ok s i a p tall = rw (lt→ltb i (s.nodes a).height tall) refl

module _ (s : SkipList) (n : ℕ) where
  link_one :
      (f b : ℕ → ℕ → Option ℕ) (i u : ℕ) (next : Option ℕ)
      → f i u ≡ next
      → i < (s.nodes n).height
      → i < (s.nodes u).height
      → ((m : ℕ) → next ≡ some m → i < (s.nodes m).height)
      → (b' : ℕ → ℕ → Option ℕ) × (link (with_links s f b) i n (some u)
          ≡ ok (with_links s (linked_in f i n u next) b'))
  unfolding link
  link_one f b i u none e tall_n tall_u tall_m =
      let g : ℕ → ℕ → Option ℕ = at_put f i (at_put (f i) n none) in
      (
        at_put b i (at_put (b i) n (some u)),
        rw
            (
              forward_at-ok (with_links s f b) i u tall_u,
              e,
              set_forward-ok (with_links s f b) i n none tall_n,
              set_forward-ok (with_links s g b) i u (some n) tall_u,
              set_backward-ok (with_links s (linked_in f i n u none) b) i n (some u) tall_n,
            )
            refl,
      )
  link_one f b i u (some m) e tall_n tall_u tall_m =
      let g : ℕ → ℕ → Option ℕ = at_put f i (at_put (f i) n (some m)) in
      let b₁ : ℕ → ℕ → Option ℕ = at_put b i (at_put (b i) m (some n)) in
      (
        at_put b₁ i (at_put (b₁ i) n (some u)),
        rw
            (
              forward_at-ok (with_links s f b) i u tall_u,
              e,
              set_forward-ok (with_links s f b) i n (some m) tall_n,
              set_backward-ok (with_links s g b) i m (some n) (tall_m m refl),
              set_forward-ok (with_links s g b₁) i u (some n) tall_u,
              set_backward-ok (with_links s (linked_in f i n u (some m)) b₁) i n (some u) tall_n,
            )
            refl,
      )

-- A level before the new node `n` is linked in: the addresses before and behind its place.
pub record IsLevel (s : SkipList) (n i : ℕ) (xs ys : List ℕ) : Type 0 where
  pub chain : Chain (s.forward i) s.head (xs ++ ys)
  pub apart : All (λ a. a ≢ n) (s.head ∷ (xs ++ ys))
  pub distinct : Distinct (s.head ∷ (xs ++ ys))
  pub tall_last : i < (s.nodes (last s.head xs)).height
  pub tall_next : (m : ℕ) → s.forward i (last s.head xs) ≡ some m → i < (s.nodes m).height

module _ (s : SkipList) (n new_level : ℕ) (xs ys : ℕ → List ℕ)
    (levels : (i : ℕ) → i < new_level → IsLevel s n i (xs i) (ys i)) (update : ℕ → Option ℕ)
    (met : (i : ℕ) → i < new_level → update i ≡ some (last s.head (xs i)))
    (tall : new_level ≤ (s.nodes n).height) (grown : Bool) (bits : ℕ) where
  -- The levels below `m` have the new node, the others are as they were.
  pub record IsLinkedBelow (f : ℕ → ℕ → Option ℕ) (m : ℕ) : Type 0 where
    pub below : (j : ℕ) → j < m → Chain (f j) s.head (xs j ++ (n ∷ ys j))
    pub above : (j : ℕ) → m ≤ j → f j ≡ s.forward j

  link_next :
      (f : ℕ → ℕ → Option ℕ) (i : ℕ)
      → i < new_level
      → IsLinkedBelow f i
      → IsLinkedBelow
          (linked_in f i n (last s.head (xs i)) (s.forward i (last s.head (xs i))))
          (i + 1)
  link_next f i low done =
      let u : ℕ = last s.head (xs i) in
      let level = levels i low in
      let same : f i ≡ s.forward i = done.above i (omega arith) in
      let here : linked_in f i n u (s.forward i u) i ≡ inserted (s.forward i) n u =
        ap (λ (g : ℕ → Option ℕ). linked_in f i n u (g u) i) (sym same)
        ∙ linked_in_self f i n u
        ∙ ap (λ (g : ℕ → Option ℕ). inserted g n u) same in
      record {
        below = λ j h. elim (Bool-cases (j == i)) [
          | inl e ↦
              let at : j ≡ i = ground arith in
              subst
                (λ (k : ℕ). Chain (linked_in f i n u (s.forward i u) k) s.head (xs k ++ (n ∷ ys k)))
                (sym at)
                (subst (λ (g : ℕ → Option ℕ). Chain g s.head (xs i ++ (n ∷ ys i))) (sym here)
                  (Chain-insert (xs i) (ys i) (s.forward i) n s.head level.apart level.distinct
                    level.chain))
          | inr differ ↦
              subst (λ (g : ℕ → Option ℕ). Chain g s.head (xs j ++ (n ∷ ys j)))
                (sym (linked_in_ne f i n u (s.forward i u) j (ground arith)))
                (done.below j (ground arith))
        ];
        above = λ j h.
            linked_in_ne f i n u (s.forward i u) j (λ e. absurd (omega arith))
            ∙ done.above j (omega arith);
      }

  pub link_loop_lem :
      (k i : ℕ) (f b : ℕ → ℕ → Option ℕ)
      → i + k ≡ new_level
      → IsLinkedBelow f i
      → (f' : ℕ → ℕ → Option ℕ) × (b' : ℕ → ℕ → Option ℕ) × (m : ℕ) × (link_loop grown bits n update
            k i
            (with_links s f b)
          ≡ ok (with_links s f' b'))
        × IsLinkedBelow f' m
        × (m ≤ new_level)
        × (0 < new_level → 0 < m)
  unfolding link_loop
  link_loop_lem zero i f b end done = (f, b, i, refl, done, omega arith, λ h. omega arith)
  link_loop_lem (suc k) i f b end done = elim (Bool-cases (i == 0 || (grown || has_bit bits i))) [
    | inr stops ↦ (f, b, i, rw stops refl, done, omega arith, λ h. ground arith)
    | inl goes ↦
        let low : i < new_level = omega arith in
        let level = levels i low in
        let u : ℕ = last s.head (xs i) in
        let (b₁, run₁) =
          link_one s n f b i u (s.forward i u)
            (ap (λ (g : ℕ → Option ℕ). g u) (done.above i (omega arith))) (omega arith)
            level.tall_last level.tall_next in
        let (f', b', m, run, done', small, some_level) =
          link_loop_lem k (i + 1) (linked_in f i n u (s.forward i u)) b₁ (omega arith)
            (link_next f i low done) in
        (f', b', m, rw (goes, met i low, run₁) run, done', small, some_level)
  ]
