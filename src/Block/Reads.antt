-- ===== src/Block/Reads.antt =====
-- The reads of a block at the place where an entry begins (src/block/block.cpp).
use lsm_tree_engine.Prelude.{
  ℕ, zero, suc, ◌+◌, ◌*◌, ◌%◌, ◌^◌, ◌≤◌, ◌<◌, ◌≡◌, refl, sym, ap, ◌∙◌, All-get_elem?, List, [], ◌∷◌,
  ◌++◌, length, get_elem?, some, ok, err, arith, length-append, append_assoc, out_of_bounds,
}
use mathlib.Core.Option.{some-injective}
use lsm_tree_engine.Bytes.{to_bytes, load, load_int}
use lsm_tree_engine.Bytes.Layout.{load-append, load_int-to_bytes, length-to_bytes, load_int_beyond}
use lsm_tree_engine.Block.{Block, Entry, get_key_at, get_value_at, get_tranc_id_at}
use lsm_tree_engine.Block.Entries.{
  entry_bytes, entries_bytes, starts, Fits, Holds, length-entry_bytes,
}

-- The reads at the place where an entry begins give back the entry.
module _ (front back : List ℕ) (e : Entry) (fits : Fits e) (b : Block) (offset : ℕ)
    (here : b.bytes ≡ front ++ (entry_bytes e ++ back)) (at : offset ≡ length front) where
  abbrev k_len : List ℕ
  k_len = to_bytes 2 (length e.key)

  abbrev v_len : List ℕ
  v_len = to_bytes 2 (length e.value)

  abbrev before_value : List ℕ
  before_value = ((front ++ k_len) ++ e.key) ++ v_len

  key_len_read : load_int 2 b.bytes offset ≡ ok (length e.key)
  unfolding entry_bytes
  key_len_read =
      let shape : b.bytes
          ≡ front ++ (k_len ++ (e.key ++ (v_len ++ (e.value ++ (to_bytes 8 e.tranc_id ++ back))))) =
        rw here (simp append_assoc) in
      rw shape (load_int-to_bytes 2 (length e.key) front _ offset at fits.key_fits)

  key_read : load b.bytes (offset + 2) (length e.key) ≡ ok e.key
  unfolding entry_bytes
  key_read =
      let shape : b.bytes
          ≡ (front ++ k_len) ++ (e.key ++ (v_len ++ (e.value ++ (to_bytes 8 e.tranc_id ++ back)))) =
        rw here (simp append_assoc) in
      rw shape (
        load-append (front ++ k_len) e.key _ (offset + 2) (length e.key)
          (rw (length-append front k_len) (omega (arith, length-to_bytes 2 (length e.key)))) refl)

  value_len_read : load_int 2 b.bytes (offset + 2 + length e.key) ≡ ok (length e.value)
  unfolding entry_bytes
  value_len_read =
      let shape : b.bytes
          ≡ ((front ++ k_len) ++ e.key) ++ (v_len ++ (e.value ++ (to_bytes 8 e.tranc_id ++ back))) =
        rw here (simp append_assoc) in
      rw shape (
        load_int-to_bytes 2 (length e.value) ((front ++ k_len) ++ e.key) _
          (offset + 2 + length e.key)
          (rw (length-append (front ++ k_len) e.key, length-append front k_len)
            (omega (arith, length-to_bytes 2 (length e.key))))
          fits.value_fits)

  length-before_value : length before_value ≡ offset + 2 + length e.key + 2
  length-before_value =
      rw
        (
          length-append ((front ++ k_len) ++ e.key) v_len,
          length-append (front ++ k_len) e.key,
          length-append front k_len,
        )
        (omega (arith, length-to_bytes 2 (length e.key), length-to_bytes 2 (length e.value)))

  value_read : load b.bytes (offset + 2 + length e.key + 2) (length e.value) ≡ ok e.value
  unfolding entry_bytes
  value_read =
      let shape : b.bytes ≡ before_value ++ (e.value ++ (to_bytes 8 e.tranc_id ++ back)) =
        rw here (simp append_assoc) in
      rw shape (
        load-append before_value e.value _ (offset + 2 + length e.key + 2) (length e.value)
          (sym length-before_value) refl)

  tranc_id_read :
      load_int 8 b.bytes (offset + 2 + length e.key + 2 + length e.value) ≡ ok e.tranc_id
  unfolding entry_bytes
  tranc_id_read =
      let shape : b.bytes ≡ (before_value ++ e.value) ++ (to_bytes 8 e.tranc_id ++ back) =
        rw here (simp append_assoc) in
      rw shape (
        load_int-to_bytes 8 e.tranc_id (before_value ++ e.value) back
          (offset + 2 + length e.key + 2 + length e.value)
          (rw (length-append before_value e.value) (omega (arith, length-before_value)))
          fits.id_fits)

  pub get_key_at-entry : get_key_at b offset ≡ ok e.key
  unfolding get_key_at
  get_key_at-entry = rw (key_len_read, key_read) refl

  pub get_value_at-entry : get_value_at b offset ≡ ok e.value
  unfolding get_value_at
  get_value_at-entry = rw (key_len_read, value_len_read, value_read) refl

  -- The six bytes that the code leaves uninitialised have to be zero.
  pub get_tranc_id_at-entry : offset < 2 ^ 16 → get_tranc_id_at 0 b offset ≡ ok e.tranc_id
  unfolding get_tranc_id_at
  get_tranc_id_at-entry small =
      let place : (offset + 2 + (length e.key + 2 ^ 16 * 0)) % 2 ^ 64 ≡ offset + 2 + length e.key =
        omega (arith, fits.key_fits) in
      rw (key_len_read, place, value_len_read, tranc_id_read) refl

  value_inside : offset + 2 + length e.key < length b.bytes
  value_inside =
      rw
        (
          here,
          length-append front (entry_bytes e ++ back),
          length-append (entry_bytes e) back,
          length-entry_bytes e,
        )
        (omega arith)

  -- Otherwise the read of a block of at most 64 KiB leaves the block's memory.
  pub get_tranc_id_at_stale :
      (stale : ℕ)
      → 0 < stale
      → stale < 2 ^ 48
      → length b.bytes ≤ 2 ^ 16
      → get_tranc_id_at stale b offset ≡ err out_of_bounds
  unfolding get_tranc_id_at
  get_tranc_id_at_stale stale pos small short =
      rw
        (
          key_len_read,
          load_int_beyond 2 b.bytes ((offset + 2 + (length e.key + 2 ^ 16 * stale)) % 2 ^ 64)
              (omega (arith, value_inside)),
        )
        refl

-- Where the entry at an index begins; `before` stands in front of the entries.
starts_place :
    (es : List Entry) (start i : ℕ) (e : Entry) (before : List ℕ)
    → start ≡ length before
    → get_elem? es i ≡ some e
    → (front back : List ℕ) × (offset : ℕ) × (get_elem? (starts start es) i ≡ some offset)
      × (before ++ entries_bytes es ≡ front ++ (entry_bytes e ++ back))
      × (offset ≡ length front)
unfolding starts entries_bytes
starts_place [] start i e before hs h = cc
starts_place (x ∷ es) start zero e before hs h =
    let same : x ≡ e = some-injective _ _ h in (before, entries_bytes es, start, refl, rw same, hs)
starts_place (x ∷ es) start (suc i) e before hs h =
    let (front, back, offset, listed, here, at) =
      starts_place es (start + length (entry_bytes x)) i e (before ++ entry_bytes x)
        (rw (length-append before (entry_bytes x)) (omega arith)) h in
    (
      front,
      back,
      offset,
      listed,
      rw (append_assoc before (entry_bytes x) (entries_bytes es)) at here,
      at,
    )

length-starts : (start : ℕ) (es : List Entry) → length (starts start es) ≡ length es
unfolding starts
length-starts start [] = refl
length-starts start (e ∷ es) = ap suc (length-starts (start + length (entry_bytes e)) es)

pub length-offsets : {b : Block} {es : List Entry} → Holds b es → length b.offsets ≡ length es
length-offsets {b} {es} holds = rw holds.offsets_eq (length-starts 0 es)

-- An entry that a block holds is read back at the offset listed for it.
pub record Reads (b : Block) (i : ℕ) (e : Entry) : Type 0 where
  pub offset : ℕ
  pub listed : get_elem? b.offsets i ≡ some offset
  pub key_eq : get_key_at b offset ≡ ok e.key
  pub value_eq : get_value_at b offset ≡ ok e.value
  pub id_eq : get_tranc_id_at 0 b offset ≡ ok e.tranc_id
  pub id_stale :
      (stale : ℕ) → 0 < stale → stale < 2 ^ 48 → get_tranc_id_at stale b offset ≡ err out_of_bounds

pub Holds-Reads :
    {b : Block} {es : List Entry} (i : ℕ) (e : Entry)
    → Holds b es
    → length b.bytes ≤ 2 ^ 16
    → get_elem? es i ≡ some e
    → Reads b i e
Holds-Reads {b} {es} i e holds small h =
    let (front, back, offset, listed, here, at) = starts_place es 0 i e [] refl h in
    let fits : Fits e = All-get_elem? Fits es i e holds.all_fit h in
    let here' : b.bytes ≡ front ++ (entry_bytes e ++ back) = holds.bytes_eq ∙ here in
    let inside : offset < 2 ^ 16 = omega (
      arith,
      ap length here',
      length-append front (entry_bytes e ++ back),
      length-append (entry_bytes e) back,
      length-entry_bytes e,
    ) in
    record {
      offset = offset;
      listed = rw holds.offsets_eq listed;
      key_eq = get_key_at-entry front back e fits b offset here' at;
      value_eq = get_value_at-entry front back e fits b offset here' at;
      id_eq = get_tranc_id_at-entry front back e fits b offset here' at inside;
      id_stale = λ stale pos less.
          get_tranc_id_at_stale front back e fits b offset here' at stale pos less small;
    }
