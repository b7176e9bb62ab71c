-- ===== src/BlockMeta/RoundTrip.antt =====
-- `BlockMeta::encode_meta_to_slice` and `decode_meta_from_slice` (src/block/blockmeta.cpp) are inverse.
use lsm_tree_engine.Prelude.{
  ℕ, ◌+◌, ◌-◌, ◌≤◌, ◌<◌, ◌^◌, ◌%◌, ◌≡◌, refl, sym, ap, List, [], ◌∷◌, ◌++◌, length, take, replicate,
  ok, ◌>>=◌, All, arith, length-append, length-replicate, length-take, append_assoc, append-nil,
  le→ltb, eq→==,
}
use lsm_tree_engine.Bytes.{u32, to_bytes, load, load_int, store}
use lsm_tree_engine.Bytes.Layout.{length-to_bytes, load-append, load_int-to_bytes}
use lsm_tree_engine.BlockMeta.{
  BlockMeta, store_pieces, store_entries, entries_size, encode_meta_to_slice, load_key, load_entry,
  load_entries, decode_meta_from_slice,
}
use lsm_tree_engine.BlockMeta.Layout.{
  Fits, key_layout, entry_layout, entries_layout, store_next, store_entries_lem,
  length-entries_layout,
}

no_rest : (xs : List ℕ) → length xs ≡ 0 → xs ≡ []
no_rest [] h = refl
no_rest (x ∷ xs) h = absurd (omega arith)

load_key-layout :
    (front key back : List ℕ) (ptr : ℕ)
    → ptr ≡ length front
    → length key < 2 ^ 16
    → load_key (front ++ (key_layout key ++ back)) ptr ≡ ok (key, ptr + length (key_layout key))
unfolding load_key
load_key-layout front key back ptr at fits =
    let k : List ℕ = to_bytes 2 (length key) in
    let lk : length k ≡ 2 = length-to_bytes 2 (length key) in
    let e₁ : front ++ ((k ++ key) ++ back) ≡ front ++ (k ++ (key ++ back)) = simp append_assoc in
    let e₂ : front ++ (k ++ (key ++ back)) ≡ (front ++ k) ++ (key ++ back) = simp append_assoc in
    let read₁ = load_int-to_bytes 2 (length key) front (key ++ back) ptr at fits in
    let read₂ : load (front ++ (k ++ (key ++ back))) (ptr + 2) (length key) ≡ ok key = rw e₂ (
      load-append (front ++ k) key back (ptr + 2) (length key)
        (rw (length-append front k) (omega arith)) refl) in
    rw (e₁, read₁, read₂, length-append k key, lk) (ap (λ (n : ℕ). ok (key, n)) (omega arith))

load_entry-layout :
    (front back : List ℕ) (meta : BlockMeta) (ptr : ℕ)
    → ptr ≡ length front
    → Fits meta
    → load_entry (front ++ (entry_layout meta ++ back)) ptr
      ≡ ok (meta, ptr + length (entry_layout meta))
unfolding load_entry entry_layout
load_entry-layout front back meta ptr at fits =
    let o : List ℕ = to_bytes 4 meta.offset in
    let f : List ℕ = key_layout meta.first_key in
    let l : List ℕ = key_layout meta.last_key in
    let lo : length o ≡ 4 = length-to_bytes 4 meta.offset in
    let e₁ : front ++ ((o ++ (f ++ l)) ++ back) ≡ front ++ (o ++ (f ++ (l ++ back))) =
      simp append_assoc in
    let e₂ : front ++ (o ++ (f ++ (l ++ back))) ≡ (front ++ o) ++ (f ++ (l ++ back)) =
      simp append_assoc in
    let e₃ : front ++ (o ++ (f ++ (l ++ back))) ≡ ((front ++ o) ++ f) ++ (l ++ back) =
      simp append_assoc in
    let at₂ : ptr + 4 ≡ length (front ++ o) = rw (length-append front o) (omega arith) in
    let at₃ : ptr + 4 + length f ≡ length ((front ++ o) ++ f) =
      rw (length-append (front ++ o) f) (omega arith) in
    let read₁ = load_int-to_bytes 4 meta.offset front (f ++ (l ++ back)) ptr at fits.offset_fits in
    let read₂ : load_key (front ++ (o ++ (f ++ (l ++ back)))) (ptr + 4)
        ≡ ok (meta.first_key, ptr + 4 + length f) =
      rw e₂
        (load_key-layout (front ++ o) meta.first_key (l ++ back) (ptr + 4) at₂ fits.first_fits) in
    let read₃ : load_key (front ++ (o ++ (f ++ (l ++ back)))) (ptr + 4 + length f)
        ≡ ok (meta.last_key, ptr + 4 + length f + length l) =
      rw e₃ (
        load_key-layout ((front ++ o) ++ f) meta.last_key back (ptr + 4 + length f) at₃
          fits.last_fits) in
    let size : length (o ++ (f ++ l)) ≡ 4 + (length f + length l) =
      rw (length-append o (f ++ l), length-append f l) (omega arith) in
    rw (e₁, read₁, read₂, read₃, size) (ap (λ (n : ℕ). ok (meta, n)) (omega arith))

load_entries-layout :
    (metas : List BlockMeta) (front back : List ℕ) (ptr : ℕ)
    → ptr ≡ length front
    → All Fits metas
    → load_entries (front ++ (entries_layout metas ++ back)) (length metas) ptr
      ≡ ok (metas, ptr + length (entries_layout metas))
unfolding load_entries entries_layout
load_entries-layout [] front back ptr at fits = ap (λ (n : ℕ). ok ([], n)) (omega arith)
load_entries-layout (meta ∷ metas) front back ptr at (fit, fits) =
    let e : List ℕ = entry_layout meta in
    let es : List ℕ = entries_layout metas in
    let e₁ : front ++ ((e ++ es) ++ back) ≡ front ++ (e ++ (es ++ back)) = simp append_assoc in
    let e₂ : front ++ ((e ++ es) ++ back) ≡ (front ++ e) ++ (es ++ back) = simp append_assoc in
    let read₁ : load_entry (front ++ ((e ++ es) ++ back)) ptr ≡ ok (meta, ptr + length e) =
      rw e₁ (load_entry-layout front (es ++ back) meta ptr at fit) in
    let read₂ : load_entries (front ++ ((e ++ es) ++ back)) (length metas) (ptr + length e)
        ≡ ok (metas, ptr + length e + length es) =
      rw e₂ (
        load_entries-layout metas (front ++ e) back (ptr + length e)
          (rw (length-append front e) (omega arith)) fits) in
    rw (read₁, read₂, length-append e es) (ap (λ (n : ℕ). ok (meta ∷ metas, n)) (omega arith))

-- | count | entries | hash of the entries |.
abbrev meta_layout : (List ℕ → ℕ) → List BlockMeta → List ℕ
meta_layout hash metas =
    to_bytes 4 (length metas)
    ++ (entries_layout metas ++ to_bytes 4 (u32 (hash (entries_layout metas))))

decode-meta_layout :
    (hash : List ℕ → ℕ) (metas : List BlockMeta)
    → length metas < 2 ^ 32
    → All Fits metas
    → decode_meta_from_slice hash (meta_layout hash metas) ≡ ok metas
unfolding decode_meta_from_slice
decode-meta_layout hash metas few fits =
    let n : List ℕ = to_bytes 4 (length metas) in
    let es : List ℕ = entries_layout metas in
    let h : List ℕ = to_bytes 4 (u32 (hash es)) in
    let ln : length n ≡ 4 = length-to_bytes 4 (length metas) in
    let lh : length h ≡ 4 = length-to_bytes 4 (u32 (hash es)) in
    let long : length (n ++ (es ++ h)) ≡ 4 + (length es + 4) =
      rw (length-append n (es ++ h), length-append es h) (omega arith) in
    let read₁ = load_int-to_bytes 4 (length metas) [] (es ++ h) 0 refl few in
    let read₂ = load_entries-layout metas n h 4 (sym ln) fits in
    let small : u32 (hash es) < 256 ^ 4 = omega arith in
    let e : n ++ (es ++ h) ≡ (n ++ es) ++ (h ++ []) = simp (append_assoc, append-nil) in
    let read₃ : load_int 4 (n ++ (es ++ h)) (4 + length es) ≡ ok (u32 (hash es)) = rw e (
      load_int-to_bytes 4 (u32 (hash es)) (n ++ es) [] (4 + length es)
        (rw (length-append n es) (omega arith)) small) in
    let read₄ = load-append n es h 4 (4 + length es - 4) (sym ln) (omega arith) in
    rw
      (
        le→ltb (length (n ++ (es ++ h))) 8 (omega arith),
        read₁,
        read₂,
        read₃,
        read₄,
        eq→== (u32 (hash es)) (u32 (hash es)) refl,
      )
      refl

-- The first write of `encode_meta_to_slice`.
store_count :
    (count resized : List ℕ)
    → length count ≡ 4
    → 4 ≤ length resized
    → (rest : List ℕ) × (store_pieces resized 0 (count ∷ []) ≡ ok (count ++ rest, 4))
      × (length resized ≡ 4 + length rest)
store_count count resized four room =
    let (rest, run, left) = store_next [] resized count 0 refl (omega arith) in
    (rest, unfold store_pieces in rw (run, four) refl, omega arith)

-- What follows it, from the bytes behind the count on, when they are as many as the entries and the hash take.
finish_slice :
    (hash : List ℕ → ℕ) (metas : List BlockMeta) (count rest : List ℕ)
    → length count ≡ 4
    → All Fits metas
    → length rest ≡ entries_size metas + 4
    → (store_entries (count ++ rest) 4 metas >>= λ (e, ptr).
        load e 4 (ptr - 4) >>= λ content. store e ptr (to_bytes 4 (u32 (hash content))))
      ≡ ok (count ++ (entries_layout metas ++ to_bytes 4 (u32 (hash (entries_layout metas)))))
finish_slice hash metas count rest four fits sized =
    let es : List ℕ = entries_layout metas in
    let h : List ℕ = to_bytes 4 (u32 (hash es)) in
    let lh : length h ≡ 4 = length-to_bytes 4 (u32 (hash es)) in
    let ls = length-entries_layout metas in
    let (rest₂, run₂, left₂) =
      store_entries_lem metas count rest 4 fits (sym four) (omega (arith, ls)) in
    let read : load ((count ++ es) ++ rest₂) 4 (4 + length es - 4) ≡ ok es =
      rw append_assoc (load-append count es rest₂ 4 (4 + length es - 4) (sym four) (omega arith)) in
    let (rest₃, run₃, left₃) =
      store_next (count ++ es) rest₂ h (4 + length es) (rw (length-append count es) (omega arith))
        (omega (arith, ls, left₂, lh)) in
    let none_left : rest₃ ≡ [] = no_rest rest₃ (omega (arith, ls, left₂, left₃, lh)) in
    rw (run₂, read, run₃, none_left) (ap ok (simp (append_assoc, append-nil)))

-- Whatever the buffer held before, the encoded form is the layout.
encode-meta_layout :
    (hash : List ℕ → ℕ) (metas : List BlockMeta) (metadata : List ℕ)
    → length metas < 2 ^ 32
    → All Fits metas
    → encode_meta_to_slice hash metas metadata ≡ ok (meta_layout hash metas)
unfolding encode_meta_to_slice
encode-meta_layout hash metas metadata few fits =
    let n : List ℕ = to_bytes 4 (length metas) in
    let total : ℕ = 4 + entries_size metas + 4 in
    let resized : List ℕ = take total (metadata ++ replicate total 0) in
    let small : length metas % 2 ^ 32 ≡ length metas = omega arith in
    let sized : length resized ≡ total = length-take (metadata ++ replicate total 0) total (
      rw (length-append metadata (replicate total 0), length-replicate {A = ℕ} total 0)
        (omega arith)) in
    let (rest, run, left) =
      store_count n resized (length-to_bytes 4 (length metas)) (omega arith) in
    rw (small, run)
      (finish_slice hash metas n rest (length-to_bytes 4 (length metas)) fits (omega arith))

-- For fewer than 2 ^ 32 entries whose offsets have 32 bits and whose keys are shorter than 2 ^ 16
-- bytes, decoding the encoded form gives back the entries, whatever the buffer held before.
pub decode_meta_from_slice-encode_meta_to_slice :
    (hash : List ℕ → ℕ) (metas : List BlockMeta) (metadata : List ℕ)
    → length metas < 2 ^ 32
    → All Fits metas
    → (encode_meta_to_slice hash metas metadata >>= decode_meta_from_slice hash) ≡ ok metas
decode_meta_from_slice-encode_meta_to_slice hash metas metadata few fits =
    rw (encode-meta_layout hash metas metadata few fits) (decode-meta_layout hash metas few fits)
