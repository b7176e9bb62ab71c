-- ===== src/Wal/Record/Padding.antt =====
-- `Record::encode` (src/wal/record.cpp) pads a record to `record_len`, which counts `sizeof(Record)` in;
-- `Record::decode` does not skip the padding.
use lsm_tree_engine.Prelude.{
  ℕ, ◌+◌, ◌<◌, ◌^◌, ◌≡◌, refl, sym, ap, ◌∙◌, List, [], ◌∷◌, ◌++◌, All, length, replicate, ok, err,
  out_of_bounds, arith, append_assoc, length-append,
}
use lsm_tree_engine.Bytes.{to_bytes, from_bytes, load, load_int, store}
use lsm_tree_engine.Wal.Record.{
  OperationType, put, commit, rollback, create, Record, op_code, op_of, bare_record, store_body,
  encode, decode_body, decode_one, decode_loop, decode,
}
use lsm_tree_engine.Wal.Record.Decoding.{layout, log_layout, Fits, decode_one-layout}

-- The operations whose records hold no key and no value.
pub data Bare : Type 0 where
  commits rolls_back creates : Bare

abbrev pub operation : Bare → OperationType
operation commits = commit
operation rolls_back = rollback
operation creates = create

-- From a place on, one round of the decoding after the other takes these records, up to an end.
abbrev pub Decodes : List ℕ → ℕ → List Record → ℕ → Type 0
Decodes xs pos [] end = pos ≡ end
Decodes xs pos (r ∷ rs) end =
    (next : ℕ) × (decode_one xs pos ≡ ok (r, next)) × Decodes xs next rs end

-- Eighteen bytes of zeros, as they are decoded.
abbrev pub zeros : Record
zeros = record { tranc_id = 0; op_type = put; key = []; value = []; record_len = 0 }

Decodes-log_layout :
    (xs : List ℕ) (rs : List Record) (front back : List ℕ) (pos end : ℕ)
    → xs ≡ front ++ (log_layout rs ++ back)
    → pos ≡ length front
    → end ≡ pos + length (log_layout rs)
    → All Fits rs
    → Decodes xs pos rs end
unfolding log_layout
Decodes-log_layout xs [] front back pos end here at ends fits = omega (arith, ends)
Decodes-log_layout xs (r ∷ rs) front back pos end here at ends (fits, all_fit) =
    let here' : xs ≡ front ++ (layout r ++ (log_layout rs ++ back)) =
      here ∙ ap (◌++◌ front) (append_assoc (layout r) (log_layout rs) back) in
    (
      pos + length (layout r),
      rw here' (decode_one-layout front (log_layout rs ++ back) r pos at fits),
      Decodes-log_layout xs rs (front ++ layout r) back (pos + length (layout r)) end
          (here' ∙ sym (append_assoc front (layout r) (log_layout rs ++ back)))
          (rw (length-append front (layout r)) (omega arith))
          (omega (arith, ends, length-append (layout r) (log_layout rs))) all_fit,
    )

zeros-Fits : Fits zeros
zeros-Fits = record {
  len_fits = omega arith;
  id_fits = omega arith;
  body_fits = (omega arith, omega arith);
}

bare-Fits :
    (bare : Bare) (tranc_id : ℕ)
    → tranc_id < 2 ^ 64
    → Fits (bare_record 88 (operation bare) tranc_id)
unfolding bare_record
bare-Fits commits tranc_id small = record {
  len_fits = omega arith;
  id_fits = small;
  body_fits = (refl, refl);
}
bare-Fits rolls_back tranc_id small = record {
  len_fits = omega arith;
  id_fits = small;
  body_fits = (refl, refl);
}
bare-Fits creates tranc_id small = record {
  len_fits = omega arith;
  id_fits = small;
  body_fits = (refl, refl);
}

-- What the encoded form holds for the decoding.
abbrev pub taken : Bare → ℕ → List Record
taken bare tranc_id = bare_record 88 (operation bare) tranc_id ∷ zeros ∷ zeros ∷ zeros ∷ zeros ∷ []

encode_bare :
    (object : Record → List ℕ) (bare : Bare) (tranc_id : ℕ)
    → encode object (bare_record 88 (operation bare) tranc_id)
      ≡ ok (log_layout (taken bare tranc_id) ++ replicate 12 0)
unfolding bare_record encode store_body op_code store to_bytes layout log_layout
encode_bare object commits tranc_id = refl
encode_bare object rolls_back tranc_id = refl
encode_bare object creates tranc_id = refl

length-taken : (bare : Bare) (tranc_id : ℕ) → length (log_layout (taken bare tranc_id)) ≡ 86
unfolding bare_record op_code to_bytes layout log_layout
length-taken commits tranc_id = refl
length-taken rolls_back tranc_id = refl
length-taken creates tranc_id = refl

decode-taken :
    (bare : Bare) (tranc_id : ℕ)
    → decode (log_layout (taken bare tranc_id) ++ replicate 12 0) ≡ err out_of_bounds
unfolding bare_record decode decode_loop decode_one decode_body op_code op_of load load_int to_bytes
    from_bytes layout log_layout
decode-taken commits tranc_id = refl
decode-taken rolls_back tranc_id = refl
decode-taken creates tranc_id = refl

-- With `sizeof(Record)` = 88, the encoded form of a commit, rollback or create record, of any
-- transaction id below 2^64, is such that, whatever bytes follow it, decoding takes the record and
-- then the padding behind it for four put records of transaction 0 with an empty key and an empty
-- value, up to its byte 86 of 98, where a fifth begins. Where nothing follows, decoding reads past
-- the end of the log.
pub decode-encode_bare :
    (object : Record → List ℕ) (bare : Bare) (tranc_id : ℕ) (rest : List ℕ)
    → tranc_id < 2 ^ 64
    → (encoded : List ℕ) × (encode object (bare_record 88 (operation bare) tranc_id) ≡ ok encoded)
      × (length encoded ≡ 98)
      × Decodes (encoded ++ rest) 0 (taken bare tranc_id) 86
      × (decode encoded ≡ err out_of_bounds)
decode-encode_bare object bare tranc_id rest small =
    let log : List ℕ = log_layout (taken bare tranc_id) in
    (
      log ++ replicate 12 0,
      encode_bare object bare tranc_id,
      omega (arith, length-append log (replicate 12 0), length-taken bare tranc_id),
      Decodes-log_layout ((log ++ replicate 12 0) ++ rest) (taken bare tranc_id) []
          (replicate 12 0 ++ rest) 0 86 (append_assoc log (replicate 12 0) rest) refl
          (omega (arith, length-taken bare tranc_id))
          (
            bare-Fits bare tranc_id small,
            (zeros-Fits, (zeros-Fits, (zeros-Fits, (zeros-Fits, tt)))),
          ),
      decode-taken bare tranc_id,
    )
