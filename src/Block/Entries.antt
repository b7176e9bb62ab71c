-- ===== src/Block/Entries.antt =====
-- What a block (src/block/block.cpp) holds, as a list of entries, and that the writes of
-- `Block::add_entry` append to it.
use lsm_tree_engine.Prelude.{
  ℕ, ◌+◌, ◌-◌, ◌*◌, ◌^◌, ◌<◌, ◌≡◌, refl, sym, ◌∙◌, ap, List, [], ◌∷◌, ◌++◌, length, All, All-append,
  ok, arith, length-append, append_assoc, append-nil, take_all,
}
use native.Mathlib.Nat.{zero-add}
use lsm_tree_engine.Bytes.{to_bytes, u16}
use lsm_tree_engine.Bytes.Layout.{store_fill, store_last, length-to_bytes}
use lsm_tree_engine.Block.{Block, Entry, new_block, append_entry}

-- The stored form of an entry: length and key, length and value, transaction id.
unfoldable pub entry_bytes : Entry → List ℕ
entry_bytes e =
    to_bytes 2 (length e.key)
    ++ (e.key ++ (to_bytes 2 (length e.value) ++ (e.value ++ to_bytes 8 e.tranc_id)))

-- The lengths fit `uint16_t` and the id `uint64_t`.
pub record Fits (e : Entry) : Type 0 where
  pub key_fits : length e.key < 2 ^ 16
  pub value_fits : length e.value < 2 ^ 16
  pub id_fits : e.tranc_id < 2 ^ 64

unfoldable pub entries_bytes : List Entry → List ℕ
entries_bytes [] = []
entries_bytes (e ∷ es) = entry_bytes e ++ entries_bytes es

-- Where the entries begin, the first at `start`.
unfoldable pub starts : ℕ → List Entry → List ℕ
starts start [] = []
starts start (e ∷ es) = start ∷ starts (start + length (entry_bytes e)) es

-- The block stores these entries, in this order.
pub record Holds (b : Block) (es : List Entry) : Type 0 where
  pub bytes_eq : b.bytes ≡ entries_bytes es
  pub offsets_eq : b.offsets ≡ starts 0 es
  pub all_fit : All Fits es

pub length-entry_bytes : (e : Entry) → length (entry_bytes e) ≡ length e.key + length e.value + 12
unfolding entry_bytes
length-entry_bytes e =
    rw
      (
        length-append (to_bytes 2 (length e.key))
            (e.key ++ (to_bytes 2 (length e.value) ++ (e.value ++ to_bytes 8 e.tranc_id))),
        length-append e.key (to_bytes 2 (length e.value) ++ (e.value ++ to_bytes 8 e.tranc_id)),
        length-append (to_bytes 2 (length e.value)) (e.value ++ to_bytes 8 e.tranc_id),
        length-append e.value (to_bytes 8 e.tranc_id),
        length-to_bytes 2 (length e.key),
        length-to_bytes 2 (length e.value),
        length-to_bytes 8 e.tranc_id,
      )
      (omega arith)

-- The block with an entry behind the others.
abbrev pub appended : Block → Entry → Block
appended b e = record b {
  bytes = b.bytes ++ entry_bytes e;
  offsets = b.offsets ++ (u16 (length b.bytes) ∷ []);
}

-- The writes of `add_entry` fill the new part of `data` with the stored form, and stay inside it.
pub append_entry-entry_bytes :
    (b : Block) (e : Entry) → Fits e → append_entry b e.key e.value e.tranc_id ≡ ok (appended b e)
unfolding append_entry entry_bytes
append_entry-entry_bytes b e fits =
    let kl : u16 (length e.key) ≡ length e.key = omega arith in
    let vl : u16 (length e.value) ≡ length e.value = omega arith in
    let k : List ℕ = to_bytes 2 (length e.key) in
    let v : List ℕ = to_bytes 2 (length e.value) in
    let kk : length k ≡ 2 = length-to_bytes 2 (length e.key) in
    let vv : length v ≡ 2 = length-to_bytes 2 (length e.value) in
    let n : ℕ = length e.key + length e.value + 2 * 2 + 8 in
    rw
      (
        kl,
        vl,
        take_all e.key (length e.key) (omega arith),
        take_all e.value (length e.value) (omega arith),
        store_fill b.bytes k (length b.bytes) n refl (omega arith),
        store_fill (b.bytes ++ k) e.key (length b.bytes + 2) (n - length k)
            (rw (length-append b.bytes k) (omega arith)) (omega arith),
        store_fill ((b.bytes ++ k) ++ e.key) v (length b.bytes + 2 + length e.key)
            (n - length k - length e.key)
            (rw (length-append (b.bytes ++ k) e.key, length-append b.bytes k) (omega arith))
            (omega arith),
        store_fill (((b.bytes ++ k) ++ e.key) ++ v) e.value (length b.bytes + 2 + length e.key + 2)
            (n - length k - length e.key - length v)
            (rw
              (
                length-append ((b.bytes ++ k) ++ e.key) v,
                length-append (b.bytes ++ k) e.key,
                length-append b.bytes k,
              )
              (omega arith))
            (omega arith),
        store_last ((((b.bytes ++ k) ++ e.key) ++ v) ++ e.value) (to_bytes 8 e.tranc_id)
            (length b.bytes + 2 + length e.key + 2 + length e.value)
            (n - length k - length e.key - length v - length e.value)
            (rw
              (
                length-append (((b.bytes ++ k) ++ e.key) ++ v) e.value,
                length-append ((b.bytes ++ k) ++ e.key) v,
                length-append (b.bytes ++ k) e.key,
                length-append b.bytes k,
              )
              (omega arith))
            (omega (arith, length-to_bytes 8 e.tranc_id)),
      )
      (simp append_assoc)

entries_bytes-append :
    (es : List Entry) (e : Entry)
    → entries_bytes (es ++ (e ∷ [])) ≡ entries_bytes es ++ entry_bytes e
unfolding entries_bytes
entries_bytes-append [] e = append-nil (entry_bytes e)
entries_bytes-append (x ∷ es) e =
    rw (entries_bytes-append es e)
      (sym (append_assoc (entry_bytes x) (entries_bytes es) (entry_bytes e)))

starts-append :
    (start : ℕ) (es : List Entry) (e : Entry)
    → starts start (es ++ (e ∷ [])) ≡ starts start es ++ ((start + length (entries_bytes es)) ∷ [])
unfolding starts entries_bytes
starts-append start [] e = ap (λ (n : ℕ). n ∷ []) (omega arith)
starts-append start (x ∷ es) e =
    let place : start + length (entry_bytes x) + length (entries_bytes es)
        ≡ start + length (entry_bytes x ++ entries_bytes es) =
      rw (length-append (entry_bytes x) (entries_bytes es)) (omega arith) in
    ap (◌∷◌ start) (
      starts-append (start + length (entry_bytes x)) es e
      ∙ ap (λ (n : ℕ). starts (start + length (entry_bytes x)) es ++ (n ∷ [])) place)

pub new_block-Holds : (capacity : ℕ) → Holds (new_block capacity) []
unfolding new_block entries_bytes starts
new_block-Holds capacity = record { bytes_eq = refl; offsets_eq = refl; all_fit = tt }

module _ {b : Block} {es : List Entry} (holds : Holds b es) (e : Entry) (fits : Fits e)
    (small : length b.bytes < 2 ^ 16) where
  pub appended-Holds : Holds (appended b e) (es ++ (e ∷ []))
  appended-Holds =
      let kept : u16 (length b.bytes) ≡ length b.bytes = omega arith in
      record {
        bytes_eq = rw (holds.bytes_eq, entries_bytes-append es e) refl;
        offsets_eq =
            rw (kept, holds.offsets_eq, holds.bytes_eq, starts-append 0 es e, zero-add) refl;
        all_fit = All-append Fits es e holds.all_fit fits;
      }
