-- ===== src/Sst/Trailer.antt =====
-- What `SST::open` reads at the end of a file that `SSTBuilder::build` (src/sst/sst.cpp) has written.
use lsm_tree_engine.Prelude.{
  ok, ◌>>=◌, ap, ◌∙◌, subst, append-nil, ok-injective, first_ok, ◌<◌, ◌/◌, le→ltb, le→leb, ◌+◌, ◌-◌,
  ◌%◌, ◌^◌, take-append, drop-append, drop-append_add, length-append, append_assoc, sym, [],
  replicate, refl, arith, ℕ, ◌≡◌, List, ◌++◌, length,
}
use lsm_tree_engine.Bytes.{u32, load, load_int, sub_size, to_bytes, from_bytes, store}
use lsm_tree_engine.Bytes.Layout.{length-to_bytes, load-append}
use lsm_tree_engine.Files.{read_to_slice}
use lsm_tree_engine.Sst.{Sst, read_offsets}
use lsm_tree_engine.BlockMeta.{encode_meta_to_slice}
use lsm_tree_engine.Sst.Builder.{SstBuilder, build_file, filter_bytes, write_trailer}

store_over :
    (front mid old new back : List ℕ) (pos : ℕ)
    → pos ≡ length front + length mid
    → length old ≡ length new
    → store (front ++ (mid ++ (old ++ back))) pos new ≡ ok (front ++ (mid ++ (new ++ back)))
unfolding store
store_over front mid old new back pos at same =
    rw
      (
        ← (append_assoc front mid (old ++ back)),
        take-append (front ++ mid) (old ++ back) pos (rw (length-append front mid) at),
        drop-append_add (front ++ mid) (old ++ back) (pos + length new) (length new)
            (rw (length-append front mid) (omega arith)),
        drop-append old back (length new) (sym same),
        le→leb (pos + length new) (length ((front ++ mid) ++ (old ++ back))) (
            rw
              (
                length-append (front ++ mid) (old ++ back),
                length-append front mid,
                length-append old back,
              )
              (omega arith)),
        append_assoc front mid (new ++ back),
      )
      refl

-- The 24 bytes: the offset of the metadata, four zeros, and the two ids.
write_trailer_lem :
    (content : List ℕ) (meta_offset bloom_offset min_tranc_id max_tranc_id : ℕ)
    → write_trailer content meta_offset bloom_offset min_tranc_id max_tranc_id
      ≡ ok (
          content
          ++ (to_bytes 4 meta_offset
              ++ (replicate 4 0 ++ (to_bytes 8 min_tranc_id ++ (to_bytes 8 max_tranc_id ++ [])))))
unfolding write_trailer to_bytes
write_trailer_lem content meta_offset bloom_offset min_tranc_id max_tranc_id =
    let m4 = to_bytes 4 meta_offset in
    let b4 = to_bytes 4 bloom_offset in
    let min8 = to_bytes 8 min_tranc_id in
    rw
      (
        store_over content [] (replicate 4 0) m4 (replicate 20 0) (length content + 24 - 24)
            (omega arith) refl,
        store_over content (m4 ++ replicate 12 0) (replicate 4 0) b4 (replicate 4 0)
            (length content + 24 - 8) (omega arith) refl,
        store_over content (m4 ++ replicate 4 0) (replicate 8 0) min8 (b4 ++ replicate 4 0)
            (length content + 24 - 16) (omega arith) refl,
        store_over content (m4 ++ (replicate 4 0 ++ min8)) (b4 ++ replicate 4 0)
            (to_bytes 8 max_tranc_id) [] (length content + 24 - 8) (omega arith) refl,
      )
      refl

four_bytes : (v : ℕ) → from_bytes (to_bytes 4 v) ≡ v % 2 ^ 32
unfolding from_bytes to_bytes
four_bytes v = omega arith

read_four :
    (front back : List ℕ) (v pos : ℕ)
    → pos ≡ length front
    → length (front ++ (to_bytes 4 v ++ back)) < 2 ^ 63
    → (read_to_slice (front ++ (to_bytes 4 v ++ back)) pos 4 >>= λ bytes. load_int 4 bytes 0)
      ≡ ok (v % 2 ^ 32)
unfolding read_to_slice load_int
read_four front back v pos at small =
    let whole : length (front ++ (to_bytes 4 v ++ back)) ≡ length front + (4 + length back) =
      rw
        (
          length-append front (to_bytes 4 v ++ back),
          length-append (to_bytes 4 v) back,
          length-to_bytes 4 v,
        )
        refl in
    let again : load (to_bytes 4 v) 0 4 ≡ ok (to_bytes 4 v) = unfold load to_bytes in refl in
    rw
      (
        le→ltb (length (front ++ (to_bytes 4 v ++ back))) ((pos + 4) % 2 ^ 64)
            (omega (arith, whole)),
        load-append front (to_bytes 4 v) back pos 4 at (sym (length-to_bytes 4 v)),
        again,
      )
      (ap ok (four_bytes v))

eight_bytes : (v : ℕ) → to_bytes 8 v ≡ to_bytes 4 v ++ to_bytes 4 (v / 2 ^ 32)
unfolding to_bytes
eight_bytes v =
    let e : v / 256 / 256 / 256 / 256 ≡ v / 2 ^ 32 = omega arith in
    ap (λ w. to_bytes 4 v ++ to_bytes 4 w) e

-- The last 8 bytes are those of the largest id.
read_offsets-trailer :
    (front : List ℕ) (max_tranc_id : ℕ) (file : List ℕ)
    → file ≡ front ++ (to_bytes 4 max_tranc_id ++ to_bytes 4 (max_tranc_id / 2 ^ 32))
    → length file < 2 ^ 63
    → max_tranc_id < 2 ^ 64
    → read_offsets file ≡ ok (max_tranc_id / 2 ^ 32, max_tranc_id % 2 ^ 32)
unfolding read_offsets
read_offsets-trailer front max_tranc_id file laid small fits =
    let low = to_bytes 4 max_tranc_id in
    let high = to_bytes 4 (max_tranc_id / 2 ^ 32) in
    let again : file ≡ (front ++ low) ++ (high ++ []) =
      laid
      ∙ ap (λ xs. front ++ (low ++ xs)) (sym (append-nil high))
      ∙ sym (append_assoc front low (high ++ [])) in
    let size : length file ≡ length front + 8 =
      rw
        (
          laid,
          length-append front (low ++ high),
          length-append low high,
          length-to_bytes 4 max_tranc_id,
          length-to_bytes 4 (max_tranc_id / 2 ^ 32),
        )
        (omega arith) in
    let first : (read_to_slice file (sub_size (length file) 4) 4 >>= λ bytes. load_int 4 bytes 0)
        ≡ ok (max_tranc_id / 2 ^ 32) =
      ap (λ xs. read_to_slice xs (sub_size (length file) 4) 4 >>= λ bytes. load_int 4 bytes 0) again
      ∙ read_four (front ++ low) [] (max_tranc_id / 2 ^ 32) (sub_size (length file) 4)
          (rw (length-append front low, length-to_bytes 4 max_tranc_id) (omega arith))
          (subst (λ xs. length xs < 2 ^ 63) again small)
      ∙ ap ok (omega arith) in
    let second : (read_to_slice file (sub_size (length file) 8) 4 >>= λ bytes. load_int 4 bytes 0)
        ≡ ok (max_tranc_id % 2 ^ 32) =
      ap (λ xs. read_to_slice xs (sub_size (length file) 8) 4 >>= λ bytes. load_int 4 bytes 0) laid
      ∙ read_four front high max_tranc_id (sub_size (length file) 8) (omega arith)
          (subst (λ xs. length xs < 2 ^ 63) laid small) in
    let (bytes, at, reads) = first_ok (read_to_slice file (sub_size (length file) 4) 4) _ first in
    let (bytes', at', reads') =
      first_ok (read_to_slice file (sub_size (length file) 8) 4) _ second in
    rw (le→ltb (length file) 4 (omega arith), at, reads, at', reads') refl

trailer_shape :
    (content : List ℕ) (meta_offset min_tranc_id max_tranc_id : ℕ)
    → content
        ++ (to_bytes 4 meta_offset
            ++ (replicate 4 0 ++ (to_bytes 8 min_tranc_id ++ (to_bytes 8 max_tranc_id ++ []))))
      ≡ (content ++ (to_bytes 4 meta_offset ++ (replicate 4 0 ++ to_bytes 8 min_tranc_id)))
        ++ (to_bytes 4 max_tranc_id ++ to_bytes 4 (max_tranc_id / 2 ^ 32))
unfolding to_bytes
trailer_shape content meta_offset min_tranc_id max_tranc_id =
    let middle = to_bytes 4 meta_offset ++ (replicate 4 0 ++ to_bytes 8 min_tranc_id) in
    ap (λ xs. content ++ (middle ++ xs)) (eight_bytes max_tranc_id)
    ∙ sym (
        append_assoc content middle (to_bytes 4 max_tranc_id ++ to_bytes 4 (max_tranc_id / 2 ^ 32)))

module _ (hash : List ℕ → ℕ) where
  -- `open` does not read back the offsets that `build` noted: on a file of fewer than 2^63 bytes that `build` has
  -- written, the offset of the filter that it reads is the upper half of the largest transaction id, and the offset
  -- of the metadata is the lower half.
  pub read_offsets-build_file :
      (sst_id : ℕ) (b : SstBuilder) (sst : Sst)
      → build_file hash sst_id b ≡ ok sst
      → length sst.file < 2 ^ 63
      → b.max_tranc_id < 2 ^ 64
      → read_offsets sst.file ≡ ok (b.max_tranc_id / 2 ^ 32, b.max_tranc_id % 2 ^ 32)
  unfolding build_file
  read_offsets-build_file sst_id b sst run small fits =
      let (meta_block, _, run₁) = first_ok (encode_meta_to_slice hash b.meta_entries []) _ run in
      let (bf_data, _, run₂) = first_ok (filter_bytes b.bloom_filter) _ run₁ in
      let content = (b.bytes ++ meta_block) ++ bf_data in
      let (file, written, run₃) =
        first_ok
          (write_trailer content (u32 (length b.bytes)) (u32 (length (b.bytes ++ meta_block)))
            b.min_tranc_id b.max_tranc_id)
          _ run₂ in
      let same : file ≡ sst.file = ap (λ (x : Sst). x.file) (ok-injective run₃) in
      let laid = ok-injective (sym written ∙ write_trailer_lem content _ _ _ _) in
      let e : sst.file ≡ _ =
        sym same
        ∙ laid
        ∙ trailer_shape content (u32 (length b.bytes)) b.min_tranc_id b.max_tranc_id in
      read_offsets-trailer _ b.max_tranc_id sst.file e small fits

  -- What stands in a file that is built, and what is noted of it.
  pub build_file_lem :
      (sst_id : ℕ) (b : SstBuilder) (sst : Sst)
      → build_file hash sst_id b ≡ ok sst
      → (rest : List ℕ) × (sst.file ≡ b.bytes ++ rest)
        × (sst.meta_entries ≡ b.meta_entries)
        × (sst.meta_block_offset ≡ u32 (length b.bytes))
  unfolding build_file
  build_file_lem sst_id b sst run =
      let (meta_block, _, run₁) = first_ok (encode_meta_to_slice hash b.meta_entries []) _ run in
      let (bf_data, _, run₂) = first_ok (filter_bytes b.bloom_filter) _ run₁ in
      let (file, written, run₃) =
        first_ok
          (write_trailer ((b.bytes ++ meta_block) ++ bf_data) (u32 (length b.bytes))
            (u32 (length (b.bytes ++ meta_block))) b.min_tranc_id b.max_tranc_id)
          _ run₂ in
      let noted = ok-injective run₃ in
      let laid =
        ok-injective
          (sym written ∙ write_trailer_lem ((b.bytes ++ meta_block) ++ bf_data) _ _ _ _) in
      (
        _,
        ap (λ (x : Sst). x.file) (sym noted)
            ∙ laid
            ∙ append_assoc (b.bytes ++ meta_block) bf_data _
            ∙ append_assoc b.bytes meta_block _,
        ap (λ (x : Sst). x.meta_entries) (sym noted),
        ap (λ (x : Sst). x.meta_block_offset) (sym noted),
      )
