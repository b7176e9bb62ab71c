-- ===== src/HeapIterator/Passing.antt =====
-- What the heap iterator (src/iterator/iterator.cpp) may show and may pass over.
use lsm_tree_engine.HeapIterator.{
  SearchItem, is_empty, top_value_legal, skip_hidden, skip_by_tranc_id, pop_key,
}
use lsm_tree_engine.Prelude.{
  ◌⊎◌, ◌++◌, ◌≢◌, ◌∙◌, ap, subst, All, append_assoc, ℕ, ◌≤◌, ◌<◌, ◌≡◌, refl, sym, ltb, ◌==◌, true,
  Bool-cases, inl, inr, List, [], ◌∷◌, arith,
}
use lsm_tree_engine.Prelude.Order.{eq_bytes, eq_bytes_iff}

-- An iterator is at its end, or at an item with a value, of a transaction that it sees if it was
-- given one.
abbrev pub Shown : ℕ → List SearchItem → Type 0
Shown id [] = Unit
Shown id (top ∷ rest) = (top.value ≢ []) × ((id ≡ 0) ⊎ (top.tranc_id ≤ id))

-- The mark of a deletion of the key is among the items.
abbrev pub HasMark : List ℕ → List SearchItem → Type 0
HasMark key [] = ⊥
HasMark key (e ∷ es) = ((e.key ≡ key) × (e.value ≡ [])) ⊎ HasMark key es

-- What may be passed over: what the transaction does not see, and what a mark among the items that
-- are passed over deletes.
abbrev pub MayPass : ℕ → List SearchItem → SearchItem → Type 0
MayPass id passed e = ((id ≢ 0) × (id < e.tranc_id)) ⊎ HasMark e.key passed

-- Only such items are gone from the front.
abbrev pub Passes : ℕ → List SearchItem → List SearchItem → Type 0
Passes id items items' =
    (passed : List SearchItem) × (items ≡ passed ++ items') × All (MayPass id passed) passed

HasMark-front : (key : List ℕ) (xs ys : List SearchItem) → HasMark key xs → HasMark key (xs ++ ys)
HasMark-front key [] ys h = elim h [ ]
HasMark-front key (x ∷ xs) ys (inl here) = inl here
HasMark-front key (x ∷ xs) ys (inr there) = inr (HasMark-front key xs ys there)

HasMark-back : (key : List ℕ) (xs ys : List SearchItem) → HasMark key ys → HasMark key (xs ++ ys)
HasMark-back key [] ys h = h
HasMark-back key (x ∷ xs) ys h = inr (HasMark-back key xs ys h)

-- What may be passed over among some items may be among more.
All-MayPass :
    (id : ℕ) (some_items more_items es : List SearchItem)
    → ((key : List ℕ) → HasMark key some_items → HasMark key more_items)
    → All (MayPass id some_items) es
    → All (MayPass id more_items) es
All-MayPass id some_items more_items [] more h = tt
All-MayPass id some_items more_items (e ∷ es) more (inl hidden, h) =
    (inl hidden, All-MayPass id some_items more_items es more h)
All-MayPass id some_items more_items (e ∷ es) more (inr marked, h) =
    (inr (more e.key marked), All-MayPass id some_items more_items es more h)

All-append :
    (P : SearchItem → Type 0) (xs ys : List SearchItem) → All P xs → All P ys → All P (xs ++ ys)
All-append P [] ys h k = k
All-append P (x ∷ xs) ys (p, h) k = (p, All-append P xs ys h k)

pub Passes-trans :
    (id : ℕ) (xs ys zs : List SearchItem) → Passes id xs ys → Passes id ys zs → Passes id xs zs
Passes-trans id xs ys zs (front, e, h) (back, e', h') = (
  front ++ back,
  e ∙ ap (◌++◌ front) e' ∙ sym (append_assoc front back zs),
  All-append (MayPass id (front ++ back)) front back
      (All-MayPass id front (front ++ back) front (λ key. HasMark-front key front back) h)
      (All-MayPass id back (front ++ back) back (λ key. HasMark-back key front back) h'),
)

is_empty_eq : (xs : List ℕ) → is_empty xs ≡ true → xs ≡ []
is_empty_eq [] h = refl
is_empty_eq (x ∷ xs) h = cc

-- The guard of the loop tells what may be shown.
pub legal-Shown :
    (id : ℕ) (items : List SearchItem) → top_value_legal id items ≡ true → Shown id items
unfolding top_value_legal
legal-Shown id [] legal = tt
legal-Shown id (top ∷ rest) legal = elim (Bool-cases (id == 0)) [
  | inl none_begun ↦ (λ e. ground (arith, e), inl (ground arith))
  | inr begun ↦ (λ e. ground (arith, e), inr (ground arith))
]

pub pop_key_split :
    (key : List ℕ) (items : List SearchItem)
    → (run : List SearchItem) × (items ≡ run ++ pop_key key items)
      × All (λ (e : SearchItem). e.key ≡ key) run
unfolding pop_key
pop_key_split key [] = ([], refl, tt)
pop_key_split key (top ∷ rest) = elim (Bool-cases (eq_bytes top.key key)) [
  | inr other ↦ ([], rw other refl, tt)
  | inl same ↦
      let (run, e, h) = pop_key_split key rest in
      (top ∷ run, rw same (ap (◌∷◌ top) e), ((eq_bytes_iff top.key key).0 same, h))
]

marked :
    (id : ℕ) (key : List ℕ) (passed run : List SearchItem)
    → HasMark key passed
    → All (λ (e : SearchItem). e.key ≡ key) run
    → All (MayPass id passed) run
marked id key passed [] mark h = tt
marked id key passed (e ∷ run) mark (same, h) =
    (inr (subst (λ k. HasMark k passed) (sym same) mark), marked id key passed run mark h)

-- The items of a key whose first one is the mark of its deletion may go.
pub pop_key-Passes :
    (id : ℕ) (top : SearchItem) (rest : List SearchItem)
    → is_empty top.value ≡ true
    → Passes id (top ∷ rest) (pop_key top.key (top ∷ rest))
unfolding pop_key
pop_key-Passes id top rest deleted =
    let (run, e, h) = pop_key_split top.key rest in
    (
      top ∷ run,
      rw ((eq_bytes_iff top.key top.key).1 refl) (ap (◌∷◌ top) e),
      marked id top.key (top ∷ run) (top ∷ run) (inl (refl, is_empty_eq top.value deleted))
          (refl, h),
    )

pub skip_hidden-Passes :
    (id : ℕ) (items : List SearchItem) → id ≢ 0 → Passes id items (skip_hidden id items)
unfolding skip_hidden
skip_hidden-Passes id [] begun = ([], refl, tt)
skip_hidden-Passes id (top ∷ rest) begun = elim (Bool-cases (ltb id top.tranc_id)) [
  | inr seen ↦ ([], rw seen refl, tt)
  | inl hidden ↦
      let (run, e, h) = skip_hidden-Passes id rest begun in
      (
        top ∷ run,
        rw hidden (ap (◌∷◌ top) e),
        (
          inl (begun, ground arith),
          All-MayPass id run (top ∷ run) run (λ key. HasMark-back key (top ∷ []) run) h,
        ),
      )
]

pub skip_by_tranc_id-Passes :
    (id : ℕ) (items : List SearchItem) → Passes id items (skip_by_tranc_id id items)
unfolding skip_by_tranc_id
skip_by_tranc_id-Passes id items = elim (Bool-cases (id == 0)) [
  | inl none_begun ↦ rw none_begun ([], refl, tt)
  | inr begun ↦ rw begun (skip_hidden-Passes id items (ground arith))
]
