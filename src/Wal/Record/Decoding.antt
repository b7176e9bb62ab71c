-- ===== src/Wal/Record/Decoding.antt =====
-- `Record::decode` (src/wal/record.cpp): it ends on every input, and reads back records that are laid
-- out as the comment above `Record::encode` says, with nothing between them.
use lsm_tree_engine.Prelude.{
  ℕ, ◌+◌, ◌≤◌, ◌<◌, ◌^◌, ◌≡◌, refl, sym, ◌∙◌, ap, List, [], ◌∷◌, ◌++◌, length, ok, arith,
  length-append, append_assoc,
}
use lsm_tree_engine.Bytes.{to_bytes, load, load_int}
use lsm_tree_engine.Bytes.Layout.{length-to_bytes, load_int-to_bytes, load-append}
use lsm_tree_engine.Wal.Record.{
  OperationType, put, remove, commit, rollback, create, other, Record, op_code, op_of, decode_body,
  decode_one,
}

-- | key_len | key | value_len | value |, as far as the operation has them.
abbrev pub body_layout : Record → OperationType → List ℕ
body_layout r put = to_bytes 2 (length r.key) ++ (r.key ++ (to_bytes 2 (length r.value) ++ r.value))
body_layout r remove = to_bytes 2 (length r.key) ++ r.key
body_layout r commit = []
body_layout r rollback = []
body_layout r create = []
body_layout r (other n) = []

-- | record_len | tranc_id | op_type | body |.
unfoldable pub layout : Record → List ℕ
layout r =
    to_bytes 2 r.record_len
    ++ (to_bytes 8 r.tranc_id ++ (to_bytes 4 (op_code r.op_type) ++ body_layout r r.op_type))

unfoldable pub log_layout : List Record → List ℕ
log_layout [] = []
log_layout (r ∷ rs) = layout r ++ log_layout rs

-- Only what the operation stores, and within the widths of the length fields.
abbrev pub BodyFits : Record → OperationType → Type 0
BodyFits r put = (length r.key < 2 ^ 16) × (length r.value < 2 ^ 16)
BodyFits r remove = (length r.key < 2 ^ 16) × (r.value ≡ [])
BodyFits r commit = (r.key ≡ []) × (r.value ≡ [])
BodyFits r rollback = (r.key ≡ []) × (r.value ≡ [])
BodyFits r create = (r.key ≡ []) × (r.value ≡ [])
BodyFits r (other n) = ⊥

pub record Fits (r : Record) : Type 0 where
  pub len_fits : r.record_len < 2 ^ 16
  pub id_fits : r.tranc_id < 2 ^ 64
  pub body_fits : BodyFits r r.op_type

module _ (xs front back : List ℕ) (r : Record) (pos : ℕ) (at : pos ≡ length front) where
  key_part :
      (value : List ℕ)
      → length r.key < 2 ^ 16
      → xs ≡ front ++ (to_bytes 2 (length r.key) ++ (r.key ++ (value ++ back)))
      → (load_int 2 xs pos ≡ ok (length r.key)) × (load xs (pos + 2) (length r.key) ≡ ok r.key)
  key_part value fits here = (
    rw here (load_int-to_bytes 2 (length r.key) front _ pos at fits),
    rw (here, ← append_assoc front (to_bytes 2 (length r.key)))
        (load-append (front ++ to_bytes 2 (length r.key)) r.key (value ++ back) (pos + 2)
          (length r.key)
          (rw (length-append front (to_bytes 2 (length r.key)))
            (omega (arith, length-to_bytes 2 (length r.key))))
          refl),
  )

  value_part :
      length r.value < 2 ^ 16
      → xs
        ≡ ((front ++ to_bytes 2 (length r.key)) ++ r.key)
          ++ (to_bytes 2 (length r.value) ++ (r.value ++ back))
      → (load_int 2 xs (pos + 2 + length r.key) ≡ ok (length r.value))
        × (load xs (pos + 2 + length r.key + 2) (length r.value) ≡ ok r.value)
  value_part fits here =
      let before : List ℕ = (front ++ to_bytes 2 (length r.key)) ++ r.key in
      let place : length before ≡ pos + 2 + length r.key =
        rw
          (
            length-append (front ++ to_bytes 2 (length r.key)) r.key,
            length-append front (to_bytes 2 (length r.key)),
          )
          (omega (arith, length-to_bytes 2 (length r.key))) in
      (
        rw here (
            load_int-to_bytes 2 (length r.value) before _ (pos + 2 + length r.key) (sym place)
              fits),
        rw (here, ← append_assoc before (to_bytes 2 (length r.value)))
            (load-append (before ++ to_bytes 2 (length r.value)) r.value back
              (pos + 2 + length r.key + 2) (length r.value)
              (rw (length-append before (to_bytes 2 (length r.value)))
                (omega (arith, place, length-to_bytes 2 (length r.value))))
              refl),
      )

  -- The record before its key and value are read.
  abbrev header_only : Record
  header_only = record r { key = []; value = [] }

  decode_body-layout :
      (op : OperationType)
      → BodyFits r op
      → xs ≡ front ++ (body_layout r op ++ back)
      → decode_body xs pos header_only op ≡ ok (r, pos + length (body_layout r op))
  unfolding decode_body
  decode_body-layout put (kf, vf) here =
      let k : List ℕ = to_bytes 2 (length r.key) in
      let v : List ℕ = to_bytes 2 (length r.value) in
      let (kl, kr) = key_part (v ++ r.value) kf (here ∙ simp append_assoc) in
      let (vl, vr) = value_part vf (here ∙ simp append_assoc) in
      let size : length (k ++ (r.key ++ (v ++ r.value))) ≡ 2 + length r.key + 2 + length r.value =
        rw
          (
            length-append k (r.key ++ (v ++ r.value)),
            length-append r.key (v ++ r.value),
            length-append v r.value,
          )
          (omega (arith, length-to_bytes 2 (length r.key), length-to_bytes 2 (length r.value))) in
      rw (kl, kr, vl, vr, size) (ap (λ (n : ℕ). ok (r, n)) (omega arith))
  decode_body-layout remove (kf, none_left) here =
      let k : List ℕ = to_bytes 2 (length r.key) in
      let (kl, kr) = key_part [] kf (here ∙ simp append_assoc) in
      let size : length (k ++ r.key) ≡ 2 + length r.key =
        rw (length-append k r.key) (omega (arith, length-to_bytes 2 (length r.key))) in
      rw (kl, kr, size) (ground (arith, none_left))
  decode_body-layout commit (no_key, no_value) here = ground (arith, no_key, no_value)
  decode_body-layout rollback (no_key, no_value) here = ground (arith, no_key, no_value)
  decode_body-layout create (no_key, no_value) here = ground (arith, no_key, no_value)
  decode_body-layout (other n) h here = elim h [ ]

op_of-op_code :
    (r : Record) (op : OperationType)
    → BodyFits r op
    → (op_of (op_code op) ≡ op) × (op_code op < 256 ^ 4)
unfolding op_of op_code
op_of-op_code r put h = (refl, omega arith)
op_of-op_code r remove h = (refl, omega arith)
op_of-op_code r commit h = (refl, omega arith)
op_of-op_code r rollback h = (refl, omega arith)
op_of-op_code r create h = (refl, omega arith)
op_of-op_code r (other n) h = elim h [ ]

-- A record that stands in the log is read, and the place behind it is found.
pub decode_one-layout :
    (front back : List ℕ) (r : Record) (pos : ℕ)
    → pos ≡ length front
    → Fits r
    → decode_one (front ++ (layout r ++ back)) pos ≡ ok (r, pos + length (layout r))
unfolding decode_one layout
decode_one-layout front back r pos at fits =
    let l : List ℕ = to_bytes 2 r.record_len in
    let t : List ℕ = to_bytes 8 r.tranc_id in
    let o : List ℕ = to_bytes 4 (op_code r.op_type) in
    let b : List ℕ = body_layout r r.op_type in
    let xs : List ℕ = front ++ ((l ++ (t ++ (o ++ b))) ++ back) in
    let ll : length l ≡ 2 = length-to_bytes 2 r.record_len in
    let lt : length t ≡ 8 = length-to_bytes 8 r.tranc_id in
    let lo : length o ≡ 4 = length-to_bytes 4 (op_code r.op_type) in
    let (same, small) = op_of-op_code r r.op_type fits.body_fits in
    let shape₁ : xs ≡ front ++ (l ++ (t ++ (o ++ (b ++ back)))) = simp append_assoc in
    let shape₂ : xs ≡ (front ++ l) ++ (t ++ (o ++ (b ++ back))) = simp append_assoc in
    let shape₃ : xs ≡ ((front ++ l) ++ t) ++ (o ++ (b ++ back)) = simp append_assoc in
    let shape₄ : xs ≡ (((front ++ l) ++ t) ++ o) ++ (b ++ back) = simp append_assoc in
    let len₂ : length (front ++ l) ≡ pos + 2 = rw (length-append front l) (omega arith) in
    let len₃ : length ((front ++ l) ++ t) ≡ pos + 2 + 8 =
      rw (length-append (front ++ l) t) (omega arith) in
    let len₄ : length (((front ++ l) ++ t) ++ o) ≡ pos + 2 + 8 + 4 =
      rw (length-append ((front ++ l) ++ t) o) (omega arith) in
    let read₁ : load_int 2 xs pos ≡ ok r.record_len =
      rw shape₁ (load_int-to_bytes 2 r.record_len front _ pos at fits.len_fits) in
    let read₂ : load_int 8 xs (pos + 2) ≡ ok r.tranc_id =
      rw shape₂ (load_int-to_bytes 8 r.tranc_id (front ++ l) _ (pos + 2) (sym len₂) fits.id_fits) in
    let read₃ : load_int 4 xs (pos + 2 + 8) ≡ ok (op_code r.op_type) = rw shape₃ (
      load_int-to_bytes 4 (op_code r.op_type) ((front ++ l) ++ t) _ (pos + 2 + 8) (sym len₃)
        small) in
    let body =
      decode_body-layout xs (((front ++ l) ++ t) ++ o) back r (pos + 2 + 8 + 4) (sym len₄) r.op_type
        fits.body_fits shape₄ in
    let size : length (l ++ (t ++ (o ++ b))) ≡ 2 + 8 + 4 + length b =
      rw (length-append l (t ++ (o ++ b)), length-append t (o ++ b), length-append o b)
        (omega arith) in
    rw (read₁, read₂, read₃, same, body, size) (ap (λ (n : ℕ). ok (r, n)) (omega arith))

pub length-layout : (r : Record) → 14 ≤ length (layout r)
unfolding layout
length-layout r =
    rw
      (
        length-append (to_bytes 2 r.record_len)
            (to_bytes 8 r.tranc_id ++ (to_bytes 4 (op_code r.op_type) ++ body_layout r r.op_type)),
        length-append (to_bytes 8 r.tranc_id)
            (to_bytes 4 (op_code r.op_type) ++ body_layout r r.op_type),
        length-append (to_bytes 4 (op_code r.op_type)) (body_layout r r.op_type),
      )
      (omega (
        arith,
        length-to_bytes 2 r.record_len,
        length-to_bytes 8 r.tranc_id,
        length-to_bytes 4 (op_code r.op_type),
      ))
