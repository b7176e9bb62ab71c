-- ===== src/Wal/Record/Tests.antt =====
-- The theorems on log records (src/wal/record.cpp) at concrete inputs.
use lsm_tree_engine.Prelude.{
  ◌≡◌, ◌≢◌, refl, List, [], ◌∷◌, All, ok, err, stuck, out_of_bounds, replicate, ℕ, ◌++◌, length,
  arith,
}
use lsm_tree_engine.Bytes.{from_bytes, load, load_int}
use lsm_tree_engine.Wal.Record.{
  put, remove, commit, create, Record, bare_record, encode, decode_body, decode_one, decode_loop,
  decode,
}
use lsm_tree_engine.Wal.Record.Decoding.{log_layout, Fits}
use lsm_tree_engine.Wal.Record.RoundTrip.{decode-log_layout, decode-ne-stuck}
use lsm_tree_engine.Wal.Record.Padding.{commits, Decodes, taken, decode-encode_bare}

-- A transaction that puts one key and removes another.
abbrev pub transaction : List Record
transaction =
    record { tranc_id = 7; op_type = create; key = []; value = []; record_len = 14 }
    ∷ record {
      tranc_id = 7;
      op_type = put;
      key = b'k' ∷ [];
      value = b'v' ∷ b'w' ∷ [];
      record_len = 21;
    }
    ∷ record { tranc_id = 7; op_type = remove; key = b'x' ∷ []; value = []; record_len = 17 }
    ∷ record { tranc_id = 7; op_type = commit; key = []; value = []; record_len = 14 }
    ∷ []

pub transaction-Fits : All Fits transaction
transaction-Fits = (
  record { len_fits = omega arith; id_fits = omega arith; body_fits = (refl, refl) },
  (
    record {
      len_fits = omega arith;
      id_fits = omega arith;
      body_fits = (omega arith, omega arith);
    },
    (
      record { len_fits = omega arith; id_fits = omega arith; body_fits = (omega arith, refl) },
      (record { len_fits = omega arith; id_fits = omega arith; body_fits = (refl, refl) }, tt),
    ),
  ),
)

-- A record cut off behind its transaction id.
cut_off : decode (replicate 12 0) ≡ err out_of_bounds
unfolding decode decode_loop decode_one decode_body load load_int from_bytes
cut_off = refl

decode-log_layout_example : decode (log_layout transaction) ≡ ok transaction
decode-log_layout_example = decode-log_layout transaction transaction-Fits

decode-ne-stuck_example : decode (replicate 12 0) ≢ err stuck
decode-ne-stuck_example = decode-ne-stuck (replicate 12 0)

decode-encode_bare_example :
    (encoded : List ℕ) × (encode (λ _. []) (bare_record 88 commit 7) ≡ ok encoded)
    × (length encoded ≡ 98)
    × Decodes (encoded ++ (5 ∷ [])) 0 (taken commits 7) 86
    × (decode encoded ≡ err out_of_bounds)
decode-encode_bare_example = decode-encode_bare (λ _. []) commits 7 (5 ∷ []) (omega arith)
