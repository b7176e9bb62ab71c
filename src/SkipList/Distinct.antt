-- ===== src/SkipList/Distinct.antt =====
-- Chains of distinct addresses (the levels of a skip list, src/skiplist/skiplist.cpp): what follows a
-- part of one, and lists with one address more.
use lsm_tree_engine.Prelude.{
  subst, ℕ, ◌≡◌, ◌≢◌, refl, sym, ◌∙◌, ap, Bool, true, false, Bool-cases, inl, inr, List, [], ◌∷◌,
  ◌++◌, All, Option, none, some,
}
use mathlib.Core.Option.{some-injective}
use lsm_tree_engine.SkipList.Chains.{Chain, Distinct, last, filter, filter-All, filter-append}

abbrev pub first : List ℕ → Option ℕ
first [] = none
first (x ∷ xs) = some x

pub Chain-next :
    (xs ys : List ℕ) (f : ℕ → Option ℕ) (a : ℕ) → Chain f a (xs ++ ys) → f (last a xs) ≡ first ys
Chain-next [] [] f a e = e
Chain-next [] (y ∷ ys) f a (e, chain) = e
Chain-next (x ∷ xs) ys f a (e, chain) = Chain-next xs ys f x chain

pub first-All : (Q : ℕ → Type 0) (xs : List ℕ) (m : ℕ) → All Q xs → first xs ≡ some m → Q m
first-All Q [] m h e = cc
first-All Q (x ∷ xs) m (q, h) e = subst Q (some-injective _ _ e) q

pub filter-Distinct : (p : ℕ → Bool) (xs : List ℕ) → Distinct xs → Distinct (filter p xs)
unfolding filter
filter-Distinct p [] h = tt
filter-Distinct p (x ∷ xs) (apart, h) = elim (Bool-cases (p x)) [
  | inl yes_x ↦ rw yes_x (filter-All (λ y. y ≢ x) p xs apart, filter-Distinct p xs h)
  | inr no_x ↦ rw no_x (filter-Distinct p xs h)
]

-- One address is put into a list.
pub All-put :
    (Q : ℕ → Type 0) (xs ys : List ℕ) (n : ℕ) → All Q (xs ++ ys) → Q n → All Q (xs ++ (n ∷ ys))
All-put Q [] ys n h q = (q, h)
All-put Q (x ∷ xs) ys n (p, h) q = (p, All-put Q xs ys n h q)

pub Distinct-put :
    (xs ys : List ℕ) (n : ℕ)
    → Distinct (xs ++ ys)
    → All (λ a. a ≢ n) (xs ++ ys)
    → Distinct (xs ++ (n ∷ ys))
Distinct-put [] ys n h apart = (apart, h)
Distinct-put (x ∷ xs) ys n (other, h) (x_apart, apart) =
    (All-put (λ a. a ≢ x) xs ys n other (λ e. x_apart (sym e)), Distinct-put xs ys n h apart)

-- A filter that takes the new address, and one that does not.
pub filter_put :
    (p : ℕ → Bool) (xs ys : List ℕ) (n : ℕ)
    → p n ≡ true
    → filter p (xs ++ (n ∷ ys)) ≡ filter p xs ++ (n ∷ filter p ys)
unfolding filter
filter_put p xs ys n h =
    filter-append p xs (n ∷ ys)
    ∙ (let e : filter p (n ∷ ys) ≡ n ∷ filter p ys = rw h refl in ap (◌++◌ (filter p xs)) e)

pub filter_put_not :
    (p : ℕ → Bool) (xs ys : List ℕ) (n : ℕ)
    → p n ≡ false
    → filter p (xs ++ (n ∷ ys)) ≡ filter p xs ++ filter p ys
unfolding filter
filter_put_not p xs ys n h =
    filter-append p xs (n ∷ ys)
    ∙ (let e : filter p (n ∷ ys) ≡ filter p ys = rw h refl in ap (◌++◌ (filter p xs)) e)

-- The addresses beside one of a list of distinct ones.
pub Distinct-beside :
    (xs ys : List ℕ) (n : ℕ) → Distinct (xs ++ (n ∷ ys)) → All (λ a. a ≢ n) xs × All (λ a. a ≢ n) ys
Distinct-beside [] ys n (other, h) = (tt, other)
Distinct-beside (x ∷ xs) ys n (other, h) =
    let (front, back) = Distinct-beside xs ys n h in
    let (n_other, rest) = split_All xs other in ((λ e. n_other (sym e), front), back)
  where
    split_All : (zs : List ℕ) → All (λ a. a ≢ x) (zs ++ (n ∷ ys)) → (n ≢ x) × All (λ a. a ≢ x) ys
    split_All [] h = h
    split_All (z ∷ zs) (q, h) = split_All zs h
