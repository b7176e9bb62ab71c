-- ===== src/Wal/Recovery/Sorting.antt =====
-- The order of the log files in `Wal::recover` (src/wal/wal.cpp): `std::sort` by the numbers in their
-- names. A file is its number and what is in it.
use mathlib.Core.List.{Perm}
use mathlib.Core.List.Perm
use lsm_tree_engine.Prelude.{
  ℕ, ◌≤◌, ◌≡◌, refl, ap, leb, if◌then◌else◌, Bool-cases, inl, inr, List, [], ◌∷◌, All, arith,
}

module _ {ℓ} {A : Type ℓ} where
  pub insert_file : ℕ × A → List (ℕ × A) → List (ℕ × A)
  insert_file f [] = f ∷ []
  insert_file f (g ∷ gs) = if leb f.0 g.0 then f ∷ g ∷ gs else g ∷ insert_file f gs

  pub sort_files : List (ℕ × A) → List (ℕ × A)
  sort_files [] = []
  sort_files (f ∷ fs) = insert_file f (sort_files fs)

  -- No file stands behind one of a larger number.
  abbrev pub Ascending : List (ℕ × A) → Type 0
  Ascending [] = Unit
  Ascending (f ∷ fs) = All (λ (g : ℕ × A). f.0 ≤ g.0) fs × Ascending fs

  module _ {κ} (P : ℕ × A → Type κ) where
    insert_file-All :
        (f : ℕ × A) (files : List (ℕ × A)) → P f → All P files → All P (insert_file f files)
    unfolding insert_file
    insert_file-All f [] fit fits = (fit, tt)
    insert_file-All f (g ∷ files) fit (also, fits) = elim (Bool-cases (leb f.0 g.0)) [
      | inl before ↦ rw before (fit, (also, fits))
      | inr behind ↦ rw behind (also, insert_file-All f files fit fits)
    ]

    pub sort_files-All : (files : List (ℕ × A)) → All P files → All P (sort_files files)
    unfolding sort_files
    sort_files-All [] fits = tt
    sort_files-All (f ∷ files) (fit, fits) =
        insert_file-All f (sort_files files) fit (sort_files-All files fits)

  weaken_bound :
      (m n : ℕ) (files : List (ℕ × A))
      → m ≤ n
      → All (λ (g : ℕ × A). n ≤ g.0) files
      → All (λ (g : ℕ × A). m ≤ g.0) files
  weaken_bound m n [] le h = tt
  weaken_bound m n (g ∷ files) le (here, h) = (omega arith, weaken_bound m n files le h)

  insert_file-Ascending :
      (f : ℕ × A) (files : List (ℕ × A)) → Ascending files → Ascending (insert_file f files)
  unfolding insert_file
  insert_file-Ascending f [] h = (tt, tt)
  insert_file-Ascending f (g ∷ files) (first, h) = elim (Bool-cases (leb f.0 g.0)) [
    | inl before ↦
        let le : f.0 ≤ g.0 = ground arith in
        rw before ((le, weaken_bound f.0 g.0 files le first), (first, h))
    | inr behind ↦ rw behind (
      insert_file-All (λ (x : ℕ × A). g.0 ≤ x.0) f files (ground arith) first,
      insert_file-Ascending f files h,
    )
  ]

  pub sort_files-Ascending : (files : List (ℕ × A)) → Ascending (sort_files files)
  unfolding sort_files
  sort_files-Ascending [] = tt
  sort_files-Ascending (f ∷ files) =
      insert_file-Ascending f (sort_files files) (sort_files-Ascending files)

  insert_file-Perm : (f : ℕ × A) (files : List (ℕ × A)) → Perm (f ∷ files) (insert_file f files)
  unfolding insert_file
  insert_file-Perm f [] = Perm.refl (f ∷ [])
  insert_file-Perm f (g ∷ files) = elim (Bool-cases (leb f.0 g.0)) [
    | inl before ↦ rw before (Perm.refl (f ∷ g ∷ files))
    | inr behind ↦
        rw behind (Perm.trans (Perm.swap g f files) (Perm.cons g (insert_file-Perm f files)))
  ]

  pub sort_files-Perm : (files : List (ℕ × A)) → Perm files (sort_files files)
  unfolding sort_files
  sort_files-Perm [] = Perm.refl []
  sort_files-Perm (f ∷ files) =
      Perm.trans (Perm.cons f (sort_files-Perm files)) (insert_file-Perm f (sort_files files))

module _ {ℓ κ} {A : Type ℓ} {B : Type κ} (content : A → B) where
  -- The same files with another content.
  abbrev pub map_files : List (ℕ × A) → List (ℕ × B)
  map_files [] = []
  map_files (f ∷ files) = (f.0, content f.1) ∷ map_files files

  insert_file-map_files :
      (f : ℕ × A) (files : List (ℕ × A))
      → insert_file (f.0, content f.1) (map_files files) ≡ map_files (insert_file f files)
  unfolding insert_file
  insert_file-map_files f [] = refl
  insert_file-map_files f (g ∷ files) = elim (Bool-cases (leb f.0 g.0)) [
    | inl before ↦ rw before refl
    | inr behind ↦ rw behind (ap (◌∷◌ (g.0, content g.1)) (insert_file-map_files f files))
  ]

  pub sort_files-map_files :
      (files : List (ℕ × A)) → sort_files (map_files files) ≡ map_files (sort_files files)
  unfolding sort_files
  sort_files-map_files [] = refl
  sort_files-map_files (f ∷ files) =
      rw (sort_files-map_files files) (insert_file-map_files f (sort_files files))
