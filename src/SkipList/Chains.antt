-- ===== src/SkipList/Chains.antt =====
-- Linked chains of addresses, as the skip list (src/skiplist/skiplist.cpp) has them on each level, and
-- how a walk and an insertion act on them.
use lsm_tree_engine.Prelude.{
  subst, ℕ, ◌≤◌, ◌≡◌, ◌≢◌, refl, sym, ◌∙◌, ap, if◌then◌else◌, Bool, true, false, Bool-cases, ◌⊎◌,
  inl, inr, List, [], ◌∷◌, ◌++◌, length, All, Option, none, some, arith,
}
use lsm_tree_engine.SkipList.{at_put}

-- The pointers lead from `a` through the addresses of the list to null.
abbrev pub Chain : (ℕ → Option ℕ) → ℕ → List ℕ → Type 0
Chain f a [] = f a ≡ none
Chain f a (x ∷ xs) = (f a ≡ some x) × Chain f x xs

abbrev pub last : ℕ → List ℕ → ℕ
last a [] = a
last a (x ∷ xs) = last x xs

abbrev pub In : ℕ → List ℕ → Type 0
In c [] = ⊥
In c (x ∷ xs) = (c ≡ x) ⊎ In c xs

unfoldable pub filter : (ℕ → Bool) → List ℕ → List ℕ
filter p [] = []
filter p (x ∷ xs) = let rest = filter p xs in if p x then x ∷ rest else rest

abbrev pub Distinct : List ℕ → Type 0
Distinct [] = Unit {0}
Distinct (x ∷ xs) = All (λ y. y ≢ x) xs × Distinct xs

pub filter-append :
    (p : ℕ → Bool) (xs ys : List ℕ) → filter p (xs ++ ys) ≡ filter p xs ++ filter p ys
unfolding filter
filter-append p [] ys = refl
filter-append p (x ∷ xs) ys = elim (Bool-cases (p x)) [
  | inl yes_x ↦ rw yes_x (ap (◌∷◌ x) (filter-append p xs ys))
  | inr no_x ↦ rw no_x (filter-append p xs ys)
]

pub length-filter : (p : ℕ → Bool) (xs : List ℕ) → length (filter p xs) ≤ length xs
unfolding filter
length-filter p [] = omega arith
length-filter p (x ∷ xs) = ground (arith, length-filter p xs)

pub filter-All : (Q : ℕ → Type 0) (p : ℕ → Bool) (xs : List ℕ) → All Q xs → All Q (filter p xs)
unfolding filter
filter-All Q p [] h = tt
filter-All Q p (x ∷ xs) (q, h) = elim (Bool-cases (p x)) [
  | inl yes_x ↦ rw yes_x (q, filter-All Q p xs h)
  | inr no_x ↦ rw no_x (filter-All Q p xs h)
]

pub filter_none : (p : ℕ → Bool) (xs : List ℕ) → All (λ x. p x ≡ false) xs → filter p xs ≡ []
unfolding filter
filter_none p [] h = refl
filter_none p (x ∷ xs) (no_x, h) = rw no_x (filter_none p xs h)

pub filter_whole : (p : ℕ → Bool) (xs : List ℕ) → All (λ x. p x ≡ true) xs → filter p xs ≡ xs
unfolding filter
filter_whole p [] h = refl
filter_whole p (x ∷ xs) (yes_x, h) = rw yes_x (ap (◌∷◌ x) (filter_whole p xs h))

-- Filters that agree on the list.
pub filter_same :
    (p q : ℕ → Bool) (xs : List ℕ) → All (λ x. p x ≡ q x) xs → filter p xs ≡ filter q xs
unfolding filter
filter_same p q [] h = refl
filter_same p q (x ∷ xs) (e, h) = elim (Bool-cases (q x)) [
  | inl yes_x ↦ rw (e, yes_x) (ap (◌∷◌ x) (filter_same p q xs h))
  | inr no_x ↦ rw (e, no_x) (filter_same p q xs h)
]

-- A stricter filter leaves fewer elements.
pub filter-In :
    (p q : ℕ → Bool) (c : ℕ) (xs : List ℕ)
    → ((x : ℕ) → p x ≡ true → q x ≡ true)
    → In c (filter p xs)
    → In c (filter q xs)
unfolding filter
filter-In p q c [] h there = there
filter-In p q c (x ∷ xs) h there = elim (Bool-cases (p x)) [
  | inl yes_x ↦
      rw (h x yes_x)
        (elim (rw yes_x at there) [ inl e ↦ inl e | inr later ↦ inr (filter-In p q c xs h later) ])
  | inr no_x ↦
      let later = filter-In p q c xs h (rw no_x at there) in
      elim (Bool-cases (q x)) [ inl yes_q ↦ rw yes_q (inr later) | inr no_q ↦ rw no_q later ]
]

pub last-In : (a : ℕ) (xs : List ℕ) → In (last a xs) (a ∷ xs)
last-In a [] = inl refl
last-In a (x ∷ xs) = inr (last-In x xs)

pub All-In : (Q : ℕ → Type 0) (c : ℕ) (xs : List ℕ) → All Q xs → In c xs → Q c
All-In Q c (x ∷ xs) (q, h) (inl e) = subst Q (sym e) q
All-In Q c (x ∷ xs) (q, h) (inr there) = All-In Q c xs h there
All-In Q c [] h there = elim there [ ]

-- From any element on, the rest of a chain leads to the same last element.
pub Chain-from :
    (xs ys : List ℕ) (f : ℕ → Option ℕ) (Q : ℕ → Type 0) (c a : ℕ)
    → Chain f a (xs ++ ys)
    → All Q xs
    → In c (a ∷ xs)
    → (zs : List ℕ) × Chain f c (zs ++ ys)
      × (last c zs ≡ last a xs)
      × All Q zs
      × (length zs ≤ length xs)
Chain-from [] ys f Q c a chain h (inl e) =
    ([], subst (λ (b : ℕ). Chain f b ys) (sym e) chain, e, tt, omega arith)
Chain-from [] ys f Q c a chain h (inr there) = elim there [ ]
Chain-from (x ∷ xs) ys f Q c a (step, chain) (q, h) (inl e) =
    (x ∷ xs, (ap f e ∙ step, chain), refl, (q, h), omega arith)
Chain-from (x ∷ xs) ys f Q c a (step, chain) (q, h) (inr there) =
    let (zs, chain', same, h', short) = Chain-from xs ys f Q c x chain h there in
    (zs, chain', same, h', omega (arith, short))

pub at_put_self {ℓ} : {A : Type ℓ} (f : ℕ → A) (p : ℕ) (v : A) → at_put f p v p ≡ v
at_put_self f p v = ground arith

pub at_put_ne {ℓ} : {A : Type ℓ} (f : ℕ → A) (p : ℕ) (v : A) (q : ℕ) → q ≢ p → at_put f p v q ≡ f q
at_put_ne f p v q n = ground arith

-- A change at an address outside a chain leaves it as it is.
pub Chain-frame :
    (xs : List ℕ) (f : ℕ → Option ℕ) (p : ℕ) (v : Option ℕ) (a : ℕ)
    → All (λ x. x ≢ p) (a ∷ xs)
    → Chain f a xs
    → Chain (at_put f p v) a xs
Chain-frame [] f p v a (n, h) e = rw (at_put_ne f p v a n) e
Chain-frame (x ∷ xs) f p v a (n, h) (e, chain) =
    (rw (at_put_ne f p v a n) e, Chain-frame xs f p v x h chain)

-- The pointers after `n` is put behind `u`.
abbrev pub inserted : (ℕ → Option ℕ) → ℕ → ℕ → ℕ → Option ℕ
inserted f n u = at_put (at_put f n (f u)) u (some n)

pub last-All : (Q : ℕ → Type 0) (a : ℕ) (xs : List ℕ) → All Q (a ∷ xs) → Q (last a xs)
last-All Q a [] (q, h) = q
last-All Q a (x ∷ xs) (q, h) = last-All Q x xs h

pub All-imp : (P Q : ℕ → Type 0) (xs : List ℕ) → ((x : ℕ) → P x → Q x) → All P xs → All Q xs
All-imp P Q [] imp h = tt
All-imp P Q (x ∷ xs) imp (p, h) = (imp x p, All-imp P Q xs imp h)

pub All-both :
    (P Q R : ℕ → Type 0) (xs : List ℕ)
    → ((x : ℕ) → P x → Q x → R x)
    → All P xs
    → All Q xs
    → All R xs
All-both P Q R [] imp h k = tt
All-both P Q R (x ∷ xs) imp (p, h) (q, k) = (imp x p q, All-both P Q R xs imp h k)

pub All-left : (Q : ℕ → Type 0) (xs ys : List ℕ) → All Q (xs ++ ys) → All Q xs
All-left Q [] ys h = tt
All-left Q (x ∷ xs) ys (q, h) = (q, All-left Q xs ys h)

Chain-insert_last :
    (ys : List ℕ) (f : ℕ → Option ℕ) (n u : ℕ)
    → All (λ x. x ≢ n) (u ∷ ys)
    → All (λ x. x ≢ u) ys
    → Chain f u ys
    → Chain (inserted f n u) u (n ∷ ys)
Chain-insert_last [] f n u (un, h) k e = (
  at_put_self (at_put f n (f u)) u (some n),
  at_put_ne (at_put f n (f u)) u (some n) n (λ e'. un (sym e')) ∙ at_put_self f n (f u) ∙ e,
)
Chain-insert_last (y ∷ ys) f n u (un, h) k (e, chain) = (
  at_put_self (at_put f n (f u)) u (some n),
  (
    at_put_ne (at_put f n (f u)) u (some n) n (λ e'. un (sym e')) ∙ at_put_self f n (f u) ∙ e,
    Chain-frame ys (at_put f n (f u)) u (some n) y k (Chain-frame ys f n (f u) y h chain),
  ),
)

-- A new address put behind the last one of the first part stands between the two parts.
pub Chain-insert :
    (xs ys : List ℕ) (f : ℕ → Option ℕ) (n a : ℕ)
    → All (λ x. x ≢ n) (a ∷ (xs ++ ys))
    → Distinct (a ∷ (xs ++ ys))
    → Chain f a (xs ++ ys)
    → Chain (inserted f n (last a xs)) a (xs ++ (n ∷ ys))
Chain-insert [] ys f n a fresh (apart, distinct) chain =
    Chain-insert_last ys f n a fresh apart chain
Chain-insert (x ∷ xs) ys f n a (an, fresh) (apart, distinct) (e, chain) =
    let u : ℕ = last x xs in
    let other : a ≢ u =
      λ e'. last-All (λ y. y ≢ a) x xs (All-left (λ y. y ≢ a) (x ∷ xs) ys apart) (sym e') in
    (
      at_put_ne (at_put f n (f u)) u (some n) a other ∙ at_put_ne f n (f u) a an ∙ e,
      Chain-insert xs ys f n x fresh distinct chain,
    )
