-- ===== src/Sst/Reading.antt =====
-- The blocks that `SSTBuilder` (src/sst/sst.cpp) has laid out, as `SST::read_block` reads them.
use lsm_tree_engine.Sst.Builder.{finish_block, SstBuilder}
use lsm_tree_engine.Block.{new_block, Block}
use lsm_tree_engine.Block.Codec.{encode-layout, layout}
use lsm_tree_engine.Bytes.{u32, to_bytes}
use lsm_tree_engine.Prelude.{
  suc, ok, ℕ, zero, ◌+◌, ◌≡◌, refl, sym, ap, ◌∙◌, List, [], ◌∷◌, ◌++◌, map, length, length-append,
  append_assoc, append-nil, get_elem?, some, arith,
}
use mathlib.Core.Option.{some-injective}
use mathlib.Core.List.{map-append}
use lsm_tree_engine.BlockMeta.{BlockMeta}

abbrev pub offset_of : BlockMeta → ℕ
offset_of meta = meta.offset

pub offsets_at :
    (metas : List BlockMeta) (end i : ℕ) (meta : BlockMeta)
    → get_elem? metas i ≡ some meta
    → get_elem? (map offset_of metas ++ (end ∷ [])) i ≡ some meta.offset
offsets_at [] end i meta at = cc
offsets_at (m ∷ metas) end zero meta at =
    ap (λ (x : BlockMeta). some x.offset) (some-injective _ _ at)
offsets_at (m ∷ metas) end (suc i) meta at = offsets_at metas end i meta at

pub offsets_end :
    (metas : List BlockMeta) (end i : ℕ)
    → i ≡ length metas
    → get_elem? (map offset_of metas ++ (end ∷ [])) i ≡ some end
offsets_end [] end zero at = refl
offsets_end [] end (suc i) at = absurd (omega arith)
offsets_end (m ∷ metas) end zero at = absurd (omega arith)
offsets_end (m ∷ metas) end (suc i) at = offsets_end metas end i (omega arith)

pub length-offsets :
    (metas : List BlockMeta) (end : ℕ)
    → length (map offset_of metas ++ (end ∷ [])) ≡ suc (length metas)
length-offsets [] end = refl
length-offsets (m ∷ metas) end = ap suc (length-offsets metas end)

module _ (hash : List ℕ → ℕ) where
  -- A block as it stands in the file.
  abbrev pub hashed : Block → List ℕ
  hashed b = layout b ++ to_bytes 4 (u32 (hash (layout b)))

  unfoldable pub blocks_bytes : List Block → List ℕ
  blocks_bytes [] = []
  blocks_bytes (b ∷ blocks) = hashed b ++ blocks_bytes blocks

  -- Where the blocks begin, and where the last one ends.
  unfoldable pub places : ℕ → List Block → List ℕ
  places start [] = start ∷ []
  places start (b ∷ blocks) = start ∷ places (start + length (hashed b)) blocks

  -- The blocks that a builder has laid out, in their order.
  pub record Stored (blocks : List Block) (b : SstBuilder) : Type 0 where
    pub bytes_eq : b.bytes ≡ blocks_bytes blocks
    pub offsets_eq : map offset_of b.meta_entries ++ (length b.bytes ∷ []) ≡ places 0 blocks

  blocks_bytes-append :
      (blocks : List Block) (b : Block)
      → blocks_bytes (blocks ++ (b ∷ [])) ≡ blocks_bytes blocks ++ hashed b
  unfolding blocks_bytes
  blocks_bytes-append [] b = append-nil (hashed b)
  blocks_bytes-append (c ∷ blocks) b =
      ap (◌++◌ (hashed c)) (blocks_bytes-append blocks b)
      ∙ sym (append_assoc (hashed c) (blocks_bytes blocks) (hashed b))

  places-append :
      (start : ℕ) (blocks : List Block) (b : Block)
      → places start (blocks ++ (b ∷ []))
        ≡ places start blocks ++ ((start + length (blocks_bytes blocks ++ hashed b)) ∷ [])
  unfolding places blocks_bytes
  places-append start [] b = refl
  places-append start (c ∷ blocks) b =
      let e : start + length (hashed c) + length (blocks_bytes blocks ++ hashed b)
          ≡ start + length ((hashed c ++ blocks_bytes blocks) ++ hashed b) =
        rw
          (
            append_assoc (hashed c) (blocks_bytes blocks) (hashed b),
            length-append (hashed c) (blocks_bytes blocks ++ hashed b),
          )
          (omega arith) in
      ap (◌∷◌ start) (
        places-append (start + length (hashed c)) blocks b
        ∙ ap (λ (n : ℕ). places (start + length (hashed c)) blocks ++ (n ∷ [])) e)

  places_first : (start : ℕ) (blocks : List Block) → get_elem? (places start blocks) 0 ≡ some start
  unfolding places
  places_first start [] = refl
  places_first start (b ∷ blocks) = refl

  pub length-places :
      (start : ℕ) (blocks : List Block) → length (places start blocks) ≡ suc (length blocks)
  unfolding places
  length-places start [] = refl
  length-places start (b ∷ blocks) = ap suc (length-places (start + length (hashed b)) blocks)

  -- The block at an index, in the bytes and in the list of places.
  pub block_at :
      (start : ℕ) (blocks : List Block) (i : ℕ) (c : Block)
      → get_elem? blocks i ≡ some c
      → (front : List ℕ) × (back : List ℕ) × (blocks_bytes blocks ≡ front ++ (hashed c ++ back))
        × (get_elem? (places start blocks) i ≡ some (start + length front))
        × (get_elem? (places start blocks) (i + 1)
            ≡ some (start + length front + length (hashed c)))
  unfolding blocks_bytes places
  block_at start [] i c at = cc
  block_at start (b ∷ blocks) zero c at =
      let e : b ≡ c = some-injective _ _ at in
      (
        [],
        blocks_bytes blocks,
        ap (λ x. hashed x ++ blocks_bytes blocks) e,
        ap some (omega arith),
        places_first (start + length (hashed b)) blocks
            ∙ ap (λ x. some (start + length (hashed x))) e
            ∙ ap some (omega arith),
      )
  block_at start (b ∷ blocks) (suc i) c at =
      let (front, back, bytes, place, next) = block_at (start + length (hashed b)) blocks i c at in
      let e : suc i + 1 ≡ suc (i + 1) = omega arith in
      (
        hashed b ++ front,
        back,
        ap (◌++◌ (hashed b)) bytes ∙ sym (append_assoc (hashed b) front (hashed c ++ back)),
        place ∙ ap some (rw (length-append (hashed b) front) (omega arith)),
        rw e (next ∙ ap some (rw (length-append (hashed b) front) (omega arith))),
      )

  -- `finish_block` lays the builder's block out behind the others, and goes on with an empty one.
  pub finish_block-Stored :
      (blocks : List Block) (b : SstBuilder)
      → Stored blocks b
      → (b' : SstBuilder) × (finish_block hash b ≡ ok b')
        × Stored (blocks ++ (b.block ∷ [])) b'
        × (b'.block ≡ new_block b.block.capacity)
  unfolding finish_block
  finish_block-Stored blocks b stored =
      let meta : BlockMeta = record {
        offset = length b.bytes;
        first_key = b.first_key;
        last_key = b.last_key;
      } in
      let grown : b.bytes ++ hashed b.block ≡ blocks_bytes (blocks ++ (b.block ∷ [])) =
        ap (λ xs. xs ++ hashed b.block) stored.bytes_eq
        ∙ sym (blocks_bytes-append blocks b.block) in
      let offsets : map offset_of (b.meta_entries ++ (meta ∷ []))
            ++ (length (b.bytes ++ hashed b.block) ∷ [])
          ≡ places 0 (blocks ++ (b.block ∷ [])) =
        ap (λ xs. xs ++ (length (b.bytes ++ hashed b.block) ∷ []))
          (map-append offset_of b.meta_entries (meta ∷ []) ∙ stored.offsets_eq)
        ∙ ap (λ (n : ℕ). places 0 blocks ++ (n ∷ []))
            (ap (λ xs. length (xs ++ hashed b.block)) stored.bytes_eq ∙ omega arith)
        ∙ sym (places-append 0 blocks b.block) in
      (
        record b {
          block = new_block b.block.capacity;
          meta_entries = b.meta_entries ++ (meta ∷ []);
          bytes = b.bytes ++ hashed b.block;
        },
        rw (encode-layout b.block) refl,
        record { bytes_eq = grown; offsets_eq = offsets },
        refl,
      )
