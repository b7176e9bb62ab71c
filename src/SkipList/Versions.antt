-- ===== src/SkipList/Versions.antt =====
-- What a skip list (src/skiplist/skiplist.cpp) stands for: its versions in order. A version is a key, a
-- value and a transaction id; keys ascend, and the ids of one key descend.
use lsm_tree_engine.Prelude.{
  ℕ, ◌+◌, ◌≡◌, refl, ap, ltb, leb, ◌==◌, if◌then◌else◌, Bool, true, false, ◌&&◌, ◌||◌, Bool-cases,
  inl, inr, List, [], ◌∷◌, ◌++◌, length, map, All, Option, none, some, arith,
}
use lsm_tree_engine.Prelude.Order.{
  eq_bytes, lt_bytes, eq_bytes_iff, compare_bytes_trans, compare_bytes_self,
}
use lsm_tree_engine.SkipList.{Version}

abbrev pub key_of : Version → List ℕ
key_of (key, value, tranc_id) = key

abbrev pub id_of : Version → ℕ
id_of (key, value, tranc_id) = tranc_id

abbrev pub size_of : Version → ℕ
size_of (key, value, tranc_id) = length key + length value + 8

unfoldable pub version_less : Version → Version → Bool
version_less x y =
    if eq_bytes (key_of x) (key_of y)
    then ltb (id_of y) (id_of x)
    else lt_bytes (key_of x) (key_of y)

-- The versions in order, each before all later ones.
abbrev pub IsSorted : List Version → Type 0
IsSorted [] = Unit {0}
IsSorted (x ∷ xs) = All (λ y. version_less x y ≡ true) xs × IsSorted xs

abbrev pub same_version : Version → Version → Bool
same_version x y = eq_bytes (key_of x) (key_of y) && (id_of x == id_of y)

-- A version is put at its place, and takes the place of one with its key and id.
unfoldable pub insert_version : Version → List Version → List Version
insert_version e [] = e ∷ []
insert_version e (x ∷ xs) =
    let rest = insert_version e xs in
    if version_less x e then x ∷ rest else (if same_version x e then e ∷ xs else e ∷ x ∷ xs)

-- Transaction id 0 sees every version, any other the versions up to itself.
abbrev pub is_visible : ℕ → Version → Bool
is_visible tranc_id x = tranc_id == 0 || leb (id_of x) tranc_id

-- The first version of a key that is visible.
unfoldable pub find_version : List ℕ → ℕ → List Version → Option Version
find_version key tranc_id [] = none
find_version key tranc_id (x ∷ xs) =
    if eq_bytes (key_of x) key && is_visible tranc_id x
    then some x
    else find_version key tranc_id xs

abbrev pub total_size : List Version → ℕ
total_size [] = 0
total_size (x ∷ xs) = size_of x + total_size xs

pub lt_bytes_trans :
    (a b c : List ℕ) → lt_bytes a b ≡ true → lt_bytes b c ≡ true → lt_bytes a c ≡ true
lt_bytes_trans a b c h k = ground (arith, compare_bytes_trans a b c)

pub version_less_trans :
    (x y z : Version) → version_less x y ≡ true → version_less y z ≡ true → version_less x z ≡ true
unfolding version_less
version_less_trans (a, v, t) (b, w, u) (c, x, r) h k = ground (
  arith,
  lt_bytes_trans a b c,
  (eq_bytes_iff a b).0,
  (eq_bytes_iff b c).0,
  (eq_bytes_iff a c).0,
  (eq_bytes_iff a c).1,
  compare_bytes_self a,
  compare_bytes_self b,
)

-- A key that is not greater than that of a later version is less than the later key or the same.
pub key_order :
    (x y : Version) (key : List ℕ)
    → version_less x y ≡ true
    → lt_bytes (key_of y) key ≡ true
    → lt_bytes (key_of x) key ≡ true
unfolding version_less
key_order (a, v, t) (b, w, u) key h k = ground (arith, lt_bytes_trans a b key, (eq_bytes_iff a b).0)

module _ (f : ℕ → Version) (p : Version → Bool) where
  fails_behind :
      (a : ℕ) (ys : List ℕ)
      → p (f a) ≡ false
      → All (λ y. version_less (f a) y ≡ true) (map f ys)
      → ((x y : Version) → version_less x y ≡ true → p y ≡ true → p x ≡ true)
      → All (λ b. p (f b) ≡ false) ys
  fails_behind a [] fails h down = tt
  fails_behind a (b ∷ ys) fails (less, h) down =
      (ground (arith, down (f a) (f b) less), fails_behind a ys fails h down)

  -- Sorted versions, cut where a property ends that earlier versions inherit from later ones.
  pub cut :
      (xs : List ℕ)
      → IsSorted (map f xs)
      → ((x y : Version) → version_less x y ≡ true → p y ≡ true → p x ≡ true)
      → (pre : List ℕ) × (post : List ℕ) × (xs ≡ pre ++ post)
        × All (λ a. p (f a) ≡ true) pre
        × All (λ a. p (f a) ≡ false) post
  cut [] sorted down = ([], [], refl, tt, tt)
  cut (a ∷ xs) (less, sorted) down = elim (Bool-cases (p (f a))) [
    | inl holds ↦
        let (pre, post, e, before, behind) = cut xs sorted down in
        (a ∷ pre, post, ap (◌∷◌ a) e, (holds, before), behind)
    | inr fails ↦ ([], a ∷ xs, refl, tt, (fails, fails_behind a xs fails less down))
  ]
