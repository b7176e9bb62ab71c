-- ===== src/SkipList/Insertion.antt =====
-- Sorted versions, and where `insert_version` puts one (specification of `SkipList::put`,
-- src/skiplist/skiplist.cpp).
use lsm_tree_engine.Prelude.{
  ℕ, ◌+◌, ◌≡◌, refl, ap, true, false, inl, inr, List, [], ◌∷◌, ◌++◌, All, arith,
}
use lsm_tree_engine.Prelude.Order.{
  compare_bytes, eq_bytes, lt_bytes, eq_bytes_iff, compare_bytes_gt_lt, Ordering-cases,
}
use lsm_tree_engine.SkipList.{Version}
use lsm_tree_engine.SkipList.Versions.{
  version_less, version_less_trans, IsSorted, same_version, insert_version, total_size,
}

pub lt_bytes_total :
    (a b : List ℕ) → lt_bytes a b ≡ false → eq_bytes a b ≡ false → lt_bytes b a ≡ true
lt_bytes_total a b h k = elim (Ordering-cases (compare_bytes a b)) [
  | inl e ↦ absurd (ground arith)
  | inr (inl e) ↦ absurd (ground arith)
  | inr (inr e) ↦ ground (arith, compare_bytes_gt_lt a b e)
]

pub version_less_total :
    (x e : Version) → version_less x e ≡ false → same_version x e ≡ false → version_less e x ≡ true
unfolding version_less
version_less_total (a, v, t) (b, w, u) h k = ground (
  arith,
  lt_bytes_total a b,
  (eq_bytes_iff a b).0,
  (eq_bytes_iff b a).0,
  (eq_bytes_iff a b).1,
  (eq_bytes_iff b a).1,
)

pub insert_version-append :
    (e : Version) (xs ys : List Version)
    → All (λ x. version_less x e ≡ true) xs
    → insert_version e (xs ++ ys) ≡ xs ++ insert_version e ys
unfolding insert_version
insert_version-append e [] ys h = refl
insert_version-append e (x ∷ xs) ys (less, h) =
    rw less (ap (◌∷◌ x) (insert_version-append e xs ys h))

pub IsSorted-tail : (xs ys : List Version) → IsSorted (xs ++ ys) → IsSorted ys
IsSorted-tail [] ys sorted = sorted
IsSorted-tail (x ∷ xs) ys (less, sorted) = IsSorted-tail xs ys sorted

All-right : (Q : Version → Type 0) (xs ys : List Version) → All Q (xs ++ ys) → All Q ys
All-right Q [] ys h = h
All-right Q (x ∷ xs) ys (q, h) = All-right Q xs ys h

All-left : (Q : Version → Type 0) (xs ys : List Version) → All Q (xs ++ ys) → All Q xs
All-left Q [] ys h = tt
All-left Q (x ∷ xs) ys (q, h) = (q, All-left Q xs ys h)

All-middle :
    (Q : Version → Type 0) (xs ys : List Version) (e : Version)
    → All Q xs
    → Q e
    → All Q ys
    → All Q (xs ++ (e ∷ ys))
All-middle Q [] ys e h q k = (q, k)
All-middle Q (x ∷ xs) ys e (p, h) q k = (p, All-middle Q xs ys e h q k)

-- A version between earlier and later ones.
pub IsSorted-middle :
    (xs ys : List Version) (e : Version)
    → IsSorted xs
    → IsSorted ys
    → ((x : Version) → version_less x e ≡ true → All (λ y. version_less x y ≡ true) ys)
    → All (λ x. version_less x e ≡ true) xs
    → All (λ y. version_less e y ≡ true) ys
    → IsSorted (xs ++ (e ∷ ys))
IsSorted-middle [] ys e sorted_x sorted_y across before behind = (behind, sorted_y)
IsSorted-middle (x ∷ xs) ys e (less, sorted_x) sorted_y across (less_e, before) behind = (
  All-middle (λ y. version_less x y ≡ true) xs ys e less less_e (across x less_e),
  IsSorted-middle xs ys e sorted_x sorted_y across before behind,
)

IsSorted-front : (xs ys : List Version) → IsSorted (xs ++ ys) → IsSorted xs
IsSorted-front [] ys sorted = tt
IsSorted-front (x ∷ xs) ys (less, sorted) =
    (All-left (λ y. version_less x y ≡ true) xs ys less, IsSorted-front xs ys sorted)

All-behind :
    (x e : Version) (ys : List Version)
    → version_less x e ≡ true
    → All (λ y. version_less e y ≡ true) ys
    → All (λ y. version_less x y ≡ true) ys
All-behind x e [] less h = tt
All-behind x e (y ∷ ys) less (less_y, h) =
    (version_less_trans x e y less less_y, All-behind x e ys less h)

-- The order survives where the later versions are behind the new one.
pub IsSorted-put :
    (xs ys : List Version) (e : Version)
    → IsSorted (xs ++ ys)
    → All (λ x. version_less x e ≡ true) xs
    → All (λ y. version_less e y ≡ true) ys
    → IsSorted (xs ++ (e ∷ ys))
IsSorted-put xs ys e sorted before behind =
    IsSorted-middle xs ys e (IsSorted-front xs ys sorted) (IsSorted-tail xs ys sorted)
      (λ x less. All-behind x e ys less behind) before behind

-- Behind a version that is neither less than the new one nor the same stand later ones only.
pub behind_first :
    (e y : Version) (ys : List Version)
    → IsSorted (y ∷ ys)
    → version_less y e ≡ false
    → same_version y e ≡ false
    → All (λ x. version_less e x ≡ true) (y ∷ ys)
behind_first e y ys (less, sorted) not_less differ =
    let first = version_less_total y e not_less differ in (first, All-behind e y ys first less)

pub total_size-append :
    (xs ys : List Version) → total_size (xs ++ ys) ≡ total_size xs + total_size ys
total_size-append [] ys = omega arith
total_size-append (x ∷ xs) ys = omega (arith, total_size-append xs ys)
