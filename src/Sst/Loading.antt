-- ===== src/Sst/Loading.antt =====
-- `SST::read_block` (src/sst/sst.cpp) on a file that is built.
use lsm_tree_engine.Sst.Reading.{
  offset_of, hashed, places, Stored, offsets_at, offsets_end, length-offsets, length-places,
  block_at,
}
use lsm_tree_engine.Sst.Trailer.{build_file_lem}
use lsm_tree_engine.Sst.Builder.{build_file, SstBuilder}
use lsm_tree_engine.Sst.{Sst, block_end, load_block}
use lsm_tree_engine.Files.{read_to_slice}
use lsm_tree_engine.Block.{decode, Block}
use lsm_tree_engine.Block.Codec.{decode-encode_hashed, encode-layout}
use lsm_tree_engine.Bytes.{load, sub_size}
use lsm_tree_engine.Bytes.Layout.{load-append}
use lsm_tree_engine.Prelude.{
  All, Bool-cases, ◌==◌, inl, inr, true, get_elem?-lt, get_elem?-some, le→ltb, ◌<◌, ◌%◌, ◌*◌, ◌^◌,
  ◌-◌, suc, ok, ℕ, ◌+◌, ◌≡◌, refl, sym, ap, ◌∙◌, List, [], ◌∷◌, ◌++◌, map, length, length-append,
  append_assoc, get_elem?, some, arith,
}
use mathlib.Core.Option.{some-injective}

module _ (hash : List ℕ → ℕ) where
  -- A block that its encoded form gives back.
  abbrev pub Encodes : Block → Type 0
  Encodes c =
      (length c.offsets < 2 ^ 16)
      × All (λ o. o < 2 ^ 16) c.offsets
      × (length c.bytes + length c.offsets * 2 + 6 < 2 ^ 64)

  decode-hashed :
      (c : Block) → Encodes c → decode hash (hashed hash c) true ≡ ok (record c { capacity = 0 })
  decode-hashed c (few, small, fits) =
      let sealed = decode-encode_hashed c few small fits hash in rw (encode-layout c) at sealed

  block_end-place :
      (blocks : List Block) (b : SstBuilder) (sst : Sst) (i end : ℕ)
      → Stored hash blocks b
      → sst.meta_entries ≡ b.meta_entries
      → sst.meta_block_offset ≡ length b.bytes
      → i < length blocks
      → get_elem? (places hash 0 blocks) (i + 1) ≡ some end
      → block_end hash sst i ≡ ok end
  unfolding block_end
  block_end-place blocks b sst i end stored metas data_end inside next =
      let as_many : suc (length b.meta_entries) ≡ suc (length blocks) =
        sym (length-offsets b.meta_entries (length b.bytes))
        ∙ ap length stored.offsets_eq
        ∙ length-places hash 0 blocks in
      let next' : get_elem? (map offset_of b.meta_entries ++ (length b.bytes ∷ [])) (i + 1)
          ≡ some end =
        ap (λ xs. get_elem? xs (i + 1)) stored.offsets_eq ∙ next in
      rw metas (elim (Bool-cases (i == length b.meta_entries - 1)) [
        | inl last ↦
            let e : length b.bytes ≡ end =
              some-injective _ _ (
                sym (offsets_end b.meta_entries (length b.bytes) (i + 1) (ground arith)) ∙ next') in
            rw (last, data_end) (ap ok e)
        | inr more ↦
            let (meta, at) = get_elem?-some b.meta_entries (i + 1) (ground arith) in
            let e : meta.offset ≡ end =
              some-injective _ _
                (sym (offsets_at b.meta_entries (length b.bytes) (i + 1) meta at) ∙ next') in
            rw (more, at) (ap ok e)
      ])

  -- From a file that is built of the blocks that a builder has laid out, each block is read back as it was, but for its
  -- capacity, which becomes 0, where the cache does not have it: when its entries and offsets have 16 bits, the blocks
  -- fill fewer than 2^32 bytes, and the file has fewer than 2^63.
  pub load_block-build_file :
      (blocks : List Block) (b : SstBuilder) (sst_id : ℕ) (sst : Sst) (i : ℕ) (c : Block)
      → Stored hash blocks b
      → build_file hash sst_id b ≡ ok sst
      → length b.bytes < 2 ^ 32
      → length sst.file < 2 ^ 63
      → get_elem? blocks i ≡ some c
      → Encodes c
      → load_block hash sst i ≡ ok (record c { capacity = 0 })
  unfolding load_block read_to_slice
  load_block-build_file blocks b sst_id sst i c stored built small short at encodes =
      let (rest, file, metas, noted) = build_file_lem hash sst_id b sst built in
      let (front, back, bytes, place, next) = block_at hash 0 blocks i c at in
      let inside : i < length blocks = get_elem?-lt blocks i c at in
      let end = block_end-place blocks b sst i _ stored metas (noted ∙ omega arith) inside next in
      let as_many : suc (length b.meta_entries) ≡ suc (length blocks) =
        sym (length-offsets b.meta_entries (length b.bytes))
        ∙ ap length stored.offsets_eq
        ∙ length-places hash 0 blocks in
      let (meta, there) = get_elem?-some b.meta_entries i (omega arith) in
      let start : meta.offset ≡ 0 + length front = some-injective _ _ (
        sym (offsets_at b.meta_entries (length b.bytes) i meta there)
        ∙ ap (λ xs. get_elem? xs i) stored.offsets_eq
        ∙ place) in
      let there' : get_elem? sst.meta_entries i ≡ some meta =
        ap (λ xs. get_elem? xs i) metas ∙ there in
      let laid : sst.file ≡ front ++ (hashed hash c ++ (back ++ rest)) =
        file
        ∙ ap (λ xs. xs ++ rest) (stored.bytes_eq ∙ bytes)
        ∙ append_assoc front (hashed hash c ++ back) rest
        ∙ ap (◌++◌ front) (append_assoc (hashed hash c) back rest) in
      let whole : length sst.file
          ≡ length front + (length (hashed hash c) + length (back ++ rest)) =
        rw
          (
            laid,
            length-append front (hashed hash c ++ (back ++ rest)),
            length-append (hashed hash c) (back ++ rest),
          )
          refl in
      let size : sub_size (0 + length front + length (hashed hash c)) meta.offset
          ≡ length (hashed hash c) =
        omega arith in
      let found : load sst.file meta.offset (length (hashed hash c)) ≡ ok (hashed hash c) =
        rw laid (
          load-append front (hashed hash c) (back ++ rest) meta.offset (length (hashed hash c))
            (start ∙ omega arith) refl) in
      rw
        (
          there',
          end,
          size,
          le→ltb (length sst.file) ((meta.offset + length (hashed hash c)) % 2 ^ 64) (omega arith),
          found,
        )
        (decode-hashed c encodes)
