-- ===== src/SkipList/Search.antt =====
-- The descent through the levels of a skip list (src/skiplist/skiplist.cpp) ends at the last node before the
-- place that is looked for, on each level.
use lsm_tree_engine.SkipList.Chains.{
  at_put_ne, at_put_self, All-In, Chain, last, In, filter, filter-append, filter-All, filter-In,
  length-filter, Chain-from, last-In, All-left,
}
use lsm_tree_engine.Prelude.{
  subst, Bool-cases, ℕ, zero, suc, ◌<◌, ◌≤◌, ◌≡◌, refl, sym, ◌∙◌, ap, lt→ltb, ◌==◌, Bool, true,
  false, inl, inr, List, [], ◌∷◌, ◌++◌, length, length-append, All, Option, some, ok, arith,
}
use lsm_tree_engine.SkipList.{SkipList, at_put, forward_at, walk, descend}
use lsm_tree_engine.SkipList.Invariant.{IsLinked}

pub forward_at-ok :
    (s : SkipList) (i a : ℕ) → i < (s.nodes a).height → forward_at s i a ≡ ok (s.forward i a)
unfolding forward_at
forward_at-ok s i a tall = rw (lt→ltb i (s.nodes a).height tall) refl

module _ (s : SkipList) (less : ℕ → Bool) (i : ℕ) where
  abbrev Before : ℕ → Type 0
  Before a = (less a ≡ true) × (i < (s.nodes a).height)

  walk_lem :
      (zs ys : List ℕ) (fuel c : ℕ)
      → Chain (s.forward i) c (zs ++ ys)
      → i < (s.nodes c).height
      → All Before zs
      → All (λ a. less a ≡ false) ys
      → length zs < fuel
      → walk s less i fuel c ≡ ok (last c zs)
  unfolding walk
  walk_lem zs ys zero c chain tall before behind room = elim room [ ]
  walk_lem [] [] (suc fuel) c chain tall before behind room =
      rw (forward_at-ok s i c tall, chain) refl
  walk_lem [] (y ∷ ys) (suc fuel) c (e, chain) tall before (no_less, behind) room =
      rw (forward_at-ok s i c tall, e, no_less) refl
  walk_lem (z ∷ zs) ys (suc fuel) c (e, chain) tall ((is_less, tall_z), before) behind room =
      rw (forward_at-ok s i c tall, e, is_less)
        (walk_lem zs ys fuel z chain tall_z before behind (omega arith))

module _ (s : SkipList) (pre post : List ℕ) (linked : ℕ → ℕ → Bool)
    (inv : IsLinked s (pre ++ post) linked) (less : ℕ → Bool)
    (before : All (λ a. less a ≡ true) pre) (behind : All (λ a. less a ≡ false) post) where
  -- The last node of a level before the place.
  abbrev pub stop : ℕ → ℕ
  stop i = last s.head (filter (linked i) pre)

  abbrev pub final : ℕ → ℕ → ℕ
  final c zero = c
  final c (suc n) = stop 0

  pub filter_tall :
      (i : ℕ) (xs : List ℕ)
      → All (λ a. a < s.fresh) xs
      → All (λ a. less a ≡ true) xs
      → All (λ a. (less a ≡ true) × (i < (s.nodes a).height)) (filter (linked i) xs)
  unfolding filter
  filter_tall i [] small h = tt
  filter_tall i (x ∷ xs) (small_x, small) (less_x, h) = elim (Bool-cases (linked i x)) [
    | inl yes_x ↦ rw yes_x ((less_x, inv.tall i x small_x yes_x), filter_tall i xs small h)
    | inr no_x ↦ rw no_x (filter_tall i xs small h)
  ]

  pub tall_from :
      (i c : ℕ)
      → i < s.max_level
      → All (λ a. (less a ≡ true) × (i < (s.nodes a).height)) (filter (linked i) pre)
      → In c (s.head ∷ filter (linked i) pre)
      → i < (s.nodes c).height
  tall_from i c low tall (inl e) =
      subst (λ (a : ℕ). i < (s.nodes a).height) (sym e) (omega (arith, inv.head_height))
  tall_from i c low tall (inr there) =
      (All-In (λ a. (less a ≡ true) × (i < (s.nodes a).height)) c (filter (linked i) pre) tall
        there).1

  walk_level :
      (i c : ℕ)
      → i < s.max_level
      → In c (s.head ∷ filter (linked i) pre)
      → walk s less i s.fresh c ≡ ok (stop i)
  walk_level i c low there =
      let xs : List ℕ = filter (linked i) pre in
      let ys : List ℕ = filter (linked i) post in
      let chain : Chain (s.forward i) s.head (xs ++ ys) =
        rw (← filter-append (linked i) pre post) (inv.chains i low) in
      let small = All-left (λ a. a < s.fresh) pre post inv.allocated.1 in
      let tall = filter_tall i pre small before in
      let (zs, chain', same, before', short) =
        Chain-from xs ys (s.forward i) (λ a. (less a ≡ true) × (i < (s.nodes a).height)) c s.head
          chain tall there in
      let tall_c : i < (s.nodes c).height = tall_from i c low tall there in
      walk_lem s less i zs ys s.fresh c chain' tall_c before'
        (filter-All (λ a. less a ≡ false) (linked i) post behind)
        (omega (arith, short, length-filter (linked i) pre, length-append pre post, inv.few))
      ∙ ap ok same

  final-stop : (n : ℕ) → final (stop n) n ≡ stop 0
  final-stop zero = refl
  final-stop (suc n) = refl

  nested_In :
      (n i c : ℕ)
      → n ≡ suc i
      → In c (s.head ∷ filter (linked n) pre)
      → In c (s.head ∷ filter (linked i) pre)
  nested_In n i c e (inl same) = inl same
  nested_In n i c e (inr there) = inr (
      filter-In (linked n) (linked i) c pre
        (λ x h. inv.nested i x (subst (λ (k : ℕ). linked k x ≡ true) e h)) there)

  -- The descent from level `n - 1` down.
  pub descend_lem :
      (n c : ℕ) (update : ℕ → Option ℕ)
      → n ≤ s.max_level
      → ((i : ℕ) → n ≡ suc i → In c (s.head ∷ filter (linked i) pre))
      → (update' : ℕ → Option ℕ) × (descend s less n c update ≡ ok (final c n, update'))
        × ((i : ℕ) → i < n → update' i ≡ some (stop i))
        × ((i : ℕ) → n ≤ i → update' i ≡ update i)
  unfolding descend
  descend_lem zero c update low there = (update, refl, λ i h. elim h [ ], λ i h. refl)
  descend_lem (suc n) c update low there =
      let c' : ℕ = stop n in
      let (update', run, met, rest) =
        descend_lem n c' (at_put update n (some c')) (omega arith)
          (λ i e. nested_In n i c' e (last-In s.head (filter (linked n) pre))) in
      (
        update',
        rw (walk_level n c (omega arith) (there n refl))
            (run ∙ ap (λ (a : ℕ). ok (a, update')) (final-stop n)),
        λ i h. elim (Bool-cases (i == n)) [
          | inl e ↦
              let same : i ≡ n = ground arith in
              ap update' same
              ∙ rest n (omega arith)
              ∙ at_put_self update n (some c')
              ∙ ap (λ (k : ℕ). some (stop k)) (sym same)
          | inr differ ↦ met i (ground arith)
        ],
        λ i h. rest i (omega arith) ∙ at_put_ne update n (some c') i (λ e. absurd (omega arith)),
      )
