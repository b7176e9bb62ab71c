-- ===== src/Block/Codec.antt =====
-- `Block::encode` against `Block::decode` (src/block/block.cpp).
use lsm_tree_engine.Prelude.{
  ℕ, ◌+◌, ◌-◌, ◌*◌, ◌^◌, ◌<◌, ◌≡◌, refl, ap, le→ltb, List, [], ◌++◌, length, replicate, All, true,
  false, ok, ◌>>=◌, arith, length-append, append_assoc, append-nil, eq→==,
}
use lsm_tree_engine.Bytes.{to_bytes, store, load, load_int, ints_to_bytes, u16, u32, sub_size}
use lsm_tree_engine.Bytes.Layout.{
  store_fill, store_last, load-append, load_int-to_bytes, length-to_bytes, length-ints_to_bytes,
  ints_from_bytes-ints_to_bytes,
}
use lsm_tree_engine.Block.{Block, encode, decode_at, decode, check_hash}

-- The encoded form: the entries, the offsets as 16-bit integers, their count.
abbrev pub layout : Block → List ℕ
layout b = (b.bytes ++ ints_to_bytes 2 b.offsets) ++ to_bytes 2 (u16 (length b.offsets))

length-layout : (b : Block) → length (layout b) ≡ length b.bytes + length b.offsets * 2 + 2
length-layout b =
    rw
      (
        length-append (b.bytes ++ ints_to_bytes 2 b.offsets) (to_bytes 2 (u16 (length b.offsets))),
        length-append b.bytes (ints_to_bytes 2 b.offsets),
        length-to_bytes 2 (u16 (length b.offsets)),
        length-ints_to_bytes 2 b.offsets,
      )
      (omega arith)

check_hash-hashed :
    (hash : List ℕ → ℕ) (content : List ℕ)
    → length content + 4 < 2 ^ 64
    → check_hash hash (content ++ to_bytes 4 (u32 (hash content))) ≡ ok tt
unfolding check_hash
check_hash-hashed hash content fits =
    let sealed : List ℕ = to_bytes 4 (u32 (hash content)) in
    let place : sub_size (length (content ++ sealed)) 4 ≡ length content =
      rw (length-append content sealed) (omega (arith, length-to_bytes 4 (u32 (hash content)))) in
    let stored : load_int 4 (content ++ sealed) (length content) ≡ ok (u32 (hash content)) =
      rw append-nil at
        (load_int-to_bytes 4 (u32 (hash content)) content [] (length content) refl (omega arith)) in
    rw
      (
        place,
        stored,
        load-append [] content sealed 0 (length content) refl refl,
        eq→== (u32 (hash content)) (u32 (hash content)) refl,
      )
      refl

module _ (b : Block) where
  total : ℕ
  total = length b.bytes + length b.offsets * 2 + 2

  stored_bytes :
      store (replicate total 0) 0 b.bytes ≡ ok (b.bytes ++ replicate (total - length b.bytes) 0)
  unfolding total
  stored_bytes = store_fill [] b.bytes 0 total refl (omega arith)

  -- `encode` never writes outside its buffer, and fills it exactly.
  pub encode-layout : encode b ≡ ok (layout b)
  unfolding encode total
  encode-layout =
      rw
        (
          stored_bytes,
          store_fill b.bytes (ints_to_bytes 2 b.offsets) (length b.bytes) (total - length b.bytes)
              refl (omega (arith, length-ints_to_bytes 2 b.offsets)),
          store_last (b.bytes ++ ints_to_bytes 2 b.offsets) (to_bytes 2 (u16 (length b.offsets)))
              (length b.bytes + length b.offsets * 2)
              (total - length b.bytes - length (ints_to_bytes 2 b.offsets))
              (rw (length-append b.bytes (ints_to_bytes 2 b.offsets))
                (omega (arith, length-ints_to_bytes 2 b.offsets)))
              (omega (
                arith,
                length-ints_to_bytes 2 b.offsets,
                length-to_bytes 2 (u16 (length b.offsets)),
              )),
        )
        refl

  module _ (few : length b.offsets < 2 ^ 16) (small : All (λ o. o < 2 ^ 16) b.offsets)
      (fits : length b.bytes + length b.offsets * 2 + 6 < 2 ^ 64) where
    parts :
        (rest : List ℕ)
        → layout b ++ rest
          ≡ b.bytes ++ (ints_to_bytes 2 b.offsets ++ (to_bytes 2 (u16 (length b.offsets)) ++ rest))
    parts rest =
        rw
          (
            append_assoc (b.bytes ++ ints_to_bytes 2 b.offsets)
                (to_bytes 2 (u16 (length b.offsets))) rest,
            append_assoc b.bytes (ints_to_bytes 2 b.offsets)
                (to_bytes 2 (u16 (length b.offsets)) ++ rest),
          )
          refl

    count_read :
        (rest : List ℕ) (pos : ℕ)
        → pos ≡ length b.bytes + length b.offsets * 2
        → load_int 2 (layout b ++ rest) pos ≡ ok (length b.offsets)
    count_read rest pos hp =
        let same : u16 (length b.offsets) ≡ length b.offsets = omega arith in
        rw
          (
            append_assoc (b.bytes ++ ints_to_bytes 2 b.offsets)
                (to_bytes 2 (u16 (length b.offsets))) rest,
            load_int-to_bytes 2 (u16 (length b.offsets)) (b.bytes ++ ints_to_bytes 2 b.offsets) rest
                pos
                (rw (length-append b.bytes (ints_to_bytes 2 b.offsets))
                  (omega (arith, length-ints_to_bytes 2 b.offsets)))
                (omega arith),
          )
          (ap ok same)

    offsets_read :
        (rest : List ℕ)
        → load (layout b ++ rest) (length b.bytes) (length b.offsets * 2)
          ≡ ok (ints_to_bytes 2 b.offsets)
    offsets_read rest = rw (parts rest) (
        load-append b.bytes (ints_to_bytes 2 b.offsets)
          (to_bytes 2 (u16 (length b.offsets)) ++ rest) (length b.bytes) (length b.offsets * 2) refl
          (omega (arith, length-ints_to_bytes 2 b.offsets)))

    bytes_read : (rest : List ℕ) → load (layout b ++ rest) 0 (length b.bytes) ≡ ok b.bytes
    bytes_read rest = rw (parts rest) (
        load-append [] b.bytes
          (ints_to_bytes 2 b.offsets ++ (to_bytes 2 (u16 (length b.offsets)) ++ rest)) 0
          (length b.bytes) refl refl)

    -- Decoding at the place of the count gives the block back, whatever follows it.
    decode_at-layout :
        (rest : List ℕ) (pos : ℕ)
        → pos ≡ length b.bytes + length b.offsets * 2
        → decode_at (layout b ++ rest) pos ≡ ok (record b { capacity = 0 })
    unfolding decode_at
    decode_at-layout rest pos hp =
        let start : sub_size pos (length b.offsets * 2) ≡ length b.bytes =
          omega (arith, length-layout b) in
        rw
          (
            count_read rest pos hp,
            le→ltb (length (layout b ++ rest)) (2 + length b.offsets * 2)
                (rw (length-append (layout b) rest) (omega (arith, length-layout b))),
            start,
            offsets_read rest,
            bytes_read rest,
            ints_from_bytes-ints_to_bytes 2 b.offsets (length b.offsets) refl small,
          )
          refl

    module _ (hash : List ℕ → ℕ) where
      -- Decoding the encoded form of a block gives back its entries and offsets (the capacity is not
      -- stored, and becomes 0), if it has fewer than 2 ^ 16 entries with offsets below 2 ^ 16.
      pub decode-encode : (encode b >>= λ e. decode hash e false) ≡ ok (record b { capacity = 0 })
      unfolding decode
      decode-encode =
          rw (encode-layout, le→ltb (length (layout b)) 2 (omega (arith, length-layout b)))
            (rw append-nil at (
              decode_at-layout [] (sub_size (length (layout b)) 2)
                (omega (arith, length-layout b))))

      -- With the 32-bit hash of the encoded form behind it, as `SSTBuilder::finish_block` writes a
      -- block, `decode` with `with_hash` gives the block back too.
      pub decode-encode_hashed :
          (encode b >>= λ e. decode hash (e ++ to_bytes 4 (u32 (hash e))) true)
          ≡ ok (record b { capacity = 0 })
      unfolding decode
      decode-encode_hashed =
          let grown : length (layout b ++ to_bytes 4 (u32 (hash (layout b))))
              ≡ length (layout b) + 4 =
            rw (length-append (layout b) (to_bytes 4 (u32 (hash (layout b)))))
              (omega (arith, length-to_bytes 4 (u32 (hash (layout b))))) in
          rw
            (
              encode-layout,
              le→ltb (length (layout b ++ to_bytes 4 (u32 (hash (layout b))))) 2
                  (omega (arith, grown)),
              check_hash-hashed hash (layout b) (omega (arith, length-layout b)),
            )
            (decode_at-layout (to_bytes 4 (u32 (hash (layout b))))
              (sub_size (sub_size (length (layout b ++ to_bytes 4 (u32 (hash (layout b))))) 2) 4)
              (omega (arith, grown, length-layout b)))
