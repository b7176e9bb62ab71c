-- ===== src/BlockMeta/Layout.antt =====
-- The bytes that `BlockMeta::encode_meta_to_slice` (src/block/blockmeta.cpp) writes.
use lsm_tree_engine.Prelude.{
  concat, length-drop, ℕ, ◌+◌, ◌≤◌, ◌<◌, ◌^◌, ◌%◌, ◌≡◌, refl, ap, List, [], ◌∷◌, ◌++◌, length, drop,
  ok, All, arith, length-append, take-append, drop-append_add, append_assoc, append-nil, take_all,
  le→leb,
}
use lsm_tree_engine.Bytes.{to_bytes, store}
use lsm_tree_engine.Bytes.Layout.{length-to_bytes}
use lsm_tree_engine.BlockMeta.{
  BlockMeta, store_pieces, key_pieces, entry_pieces, store_entries, entries_size,
}

pub record Fits (meta : BlockMeta) : Type 0 where
  pub offset_fits : meta.offset < 2 ^ 32
  pub first_fits : length meta.first_key < 2 ^ 16
  pub last_fits : length meta.last_key < 2 ^ 16

-- | key_len | key |.
abbrev pub key_layout : List ℕ → List ℕ
key_layout key = to_bytes 2 (length key) ++ key

unfoldable pub entry_layout : BlockMeta → List ℕ
entry_layout meta =
    to_bytes 4 meta.offset ++ (key_layout meta.first_key ++ key_layout meta.last_key)

unfoldable pub entries_layout : List BlockMeta → List ℕ
entries_layout [] = []
entries_layout (meta ∷ metas) = entry_layout meta ++ entries_layout metas

-- A write behind `front` of what fits in the rest of the buffer.
pub store_next :
    (front rest bytes : List ℕ) (pos : ℕ)
    → pos ≡ length front
    → length bytes ≤ length rest
    → (rest' : List ℕ) × (store (front ++ rest) pos bytes ≡ ok ((front ++ bytes) ++ rest'))
      × (length rest ≡ length bytes + length rest')
unfolding store
store_next front rest bytes pos at room = (
  drop (length bytes) rest,
  rw
      (
        take-append front rest pos at,
        drop-append_add front rest (pos + length bytes) (length bytes) (omega arith),
        le→leb (pos + length bytes) (length (front ++ rest))
            (rw (length-append front rest) (omega arith)),
        append_assoc front bytes (drop (length bytes) rest),
      )
      refl,
  omega (arith, length-drop rest (length bytes)),
)

pub store_pieces_lem :
    (pieces : List (List ℕ)) (front rest : List ℕ) (ptr : ℕ)
    → ptr ≡ length front
    → length (concat pieces) ≤ length rest
    → (rest' : List ℕ) × (store_pieces (front ++ rest) ptr pieces
        ≡ ok ((front ++ concat pieces) ++ rest', ptr + length (concat pieces)))
      × (length rest ≡ length (concat pieces) + length rest')
unfolding store_pieces
store_pieces_lem [] front rest ptr at room =
    (rest, rw append-nil (ap (λ (n : ℕ). ok (front ++ rest, n)) (omega arith)), omega arith)
store_pieces_lem (piece ∷ pieces) front rest ptr at room =
    let long : length (piece ++ concat pieces) ≡ length piece + length (concat pieces) =
      length-append piece (concat pieces) in
    let (rest₁, run₁, left₁) = store_next front rest piece ptr at (omega (arith, long)) in
    let (rest₂, run₂, left₂) =
      store_pieces_lem pieces (front ++ piece) rest₁ (ptr + length piece)
        (rw (length-append front piece) (omega arith)) (omega (arith, long, left₁)) in
    (
      rest₂,
      rw (run₁, run₂, append_assoc front piece (concat pieces))
          (ap (λ (n : ℕ). ok ((front ++ (piece ++ concat pieces)) ++ rest₂, n))
            (omega (arith, long))),
      omega (arith, long, left₁, left₂),
    )

key_pieces_lem : (key : List ℕ) → length key < 2 ^ 16 → concat (key_pieces key) ≡ key_layout key
key_pieces_lem key fits =
    let small : length key % 2 ^ 16 ≡ length key = omega arith in
    rw (small, take_all key (length key) (omega arith), append-nil) refl

entry_pieces_lem : (meta : BlockMeta) → Fits meta → concat (entry_pieces meta) ≡ entry_layout meta
unfolding entry_pieces entry_layout
entry_pieces_lem meta fits =
    let small : meta.offset % 2 ^ 32 ≡ meta.offset = omega (arith, fits.offset_fits) in
    rw
      (
        small,
        ← key_pieces_lem meta.first_key fits.first_fits,
        ← key_pieces_lem meta.last_key fits.last_fits,
      )
      (simp append_assoc)

pub store_entries_lem :
    (metas : List BlockMeta) (front rest : List ℕ) (ptr : ℕ)
    → All Fits metas
    → ptr ≡ length front
    → length (entries_layout metas) ≤ length rest
    → (rest' : List ℕ) × (store_entries (front ++ rest) ptr metas
        ≡ ok ((front ++ entries_layout metas) ++ rest', ptr + length (entries_layout metas)))
      × (length rest ≡ length (entries_layout metas) + length rest')
unfolding store_entries entries_layout
store_entries_lem [] front rest ptr fits at room =
    (rest, rw append-nil (ap (λ (n : ℕ). ok (front ++ rest, n)) (omega arith)), omega arith)
store_entries_lem (meta ∷ metas) front rest ptr (fit, fits) at room =
    let same = entry_pieces_lem meta fit in
    let l : List ℕ = entry_layout meta in
    let long : length (l ++ entries_layout metas) ≡ length l + length (entries_layout metas) =
      length-append l (entries_layout metas) in
    let (rest₁, run₁, left₁) =
      store_pieces_lem (entry_pieces meta) front rest ptr at (rw same (omega (arith, long))) in
    let run₁' = rw same at run₁ in
    let left₁' = rw same at left₁ in
    let (rest₂, run₂, left₂) =
      store_entries_lem metas (front ++ l) rest₁ (ptr + length l) fits
        (rw (length-append front l) (omega arith)) (omega (arith, long, left₁')) in
    (
      rest₂,
      rw (run₁', run₂, append_assoc front l (entries_layout metas))
          (ap (λ (n : ℕ). ok ((front ++ (l ++ entries_layout metas)) ++ rest₂, n))
            (omega (arith, long))),
      omega (arith, long, left₁', left₂),
    )

pub length-entries_layout :
    (metas : List BlockMeta) → length (entries_layout metas) ≡ entries_size metas
unfolding entries_layout entry_layout entries_size
length-entries_layout [] = refl
length-entries_layout (meta ∷ metas) =
    let f : List ℕ = meta.first_key in
    let l : List ℕ = meta.last_key in
    rw
      (
        length-append (to_bytes 4 meta.offset ++ (key_layout f ++ key_layout l))
            (entries_layout metas),
        length-append (to_bytes 4 meta.offset) (key_layout f ++ key_layout l),
        length-append (key_layout f) (key_layout l),
        length-append (to_bytes 2 (length f)) f,
        length-append (to_bytes 2 (length l)) l,
        length-to_bytes 4 meta.offset,
        length-to_bytes 2 (length f),
        length-to_bytes 2 (length l),
        length-entries_layout metas,
      )
      (omega arith)
