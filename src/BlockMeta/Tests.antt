-- ===== src/BlockMeta/Tests.antt =====
-- The theorems on block metadata (src/block/blockmeta.cpp) at concrete inputs.
use lsm_tree_engine.Prelude.{◌≡◌, List, [], ◌∷◌, length, All, ok, ◌>>=◌, arith}
use lsm_tree_engine.BlockMeta.{BlockMeta, encode_meta_to_slice, decode_meta_from_slice}
use lsm_tree_engine.BlockMeta.Layout.{Fits}
use lsm_tree_engine.BlockMeta.RoundTrip.{decode_meta_from_slice-encode_meta_to_slice}

abbrev metas : List BlockMeta
metas =
    record { offset = 0; first_key = b'a' ∷ []; last_key = b'b' ∷ b'c' ∷ [] }
    ∷ record { offset = 4096; first_key = b'd' ∷ []; last_key = b'e' ∷ [] }
    ∷ []

metas-Fits : All Fits metas
metas-Fits = (
  record { offset_fits = omega arith; first_fits = omega arith; last_fits = omega arith },
  (record { offset_fits = omega arith; first_fits = omega arith; last_fits = omega arith }, tt),
)

decode_meta_from_slice-encode_meta_to_slice_example :
    (encode_meta_to_slice length metas (1 ∷ 2 ∷ []) >>= decode_meta_from_slice length) ≡ ok metas
decode_meta_from_slice-encode_meta_to_slice_example =
    decode_meta_from_slice-encode_meta_to_slice length metas (1 ∷ 2 ∷ []) (omega arith) metas-Fits
