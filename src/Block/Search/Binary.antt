-- ===== src/Block/Search/Binary.antt =====
-- `Block::get_idx_binary` and `Block::get_value_binary` (src/block/block.cpp) on a sorted block.
use lsm_tree_engine.Prelude.{
  Bool-cases, ℕ, zero, suc, ◌+◌, ◌-◌, ◌/◌, ◌^◌, ◌≤◌, ◌<◌, ◌≡◌, refl, sym, ◌∙◌, subst, true, List,
  length, inl, inr, Option, none, some, arith, ok, err, Result, ◌>>=◌, ap, Ordering, lt→ltb, le→ltb,
}
use mathlib.Core.Bool.{false≢true}
use native.Mathlib.Decide.{dec_lt}
use lsm_tree_engine.Prelude.Order.{
  compare_bytes, compare_bytes_eq, compare_bytes_self, compare_bytes_trans, Ordering-cases,
}
use lsm_tree_engine.Block.{Block, is_empty, Entry}
use lsm_tree_engine.Block.Entries.{Holds}
use lsm_tree_engine.Block.Reads.{length-offsets}
use lsm_tree_engine.Block.Search.{
  offset_at, compare_key, on_found, binary_loop, adjust_idx_by_tranc_id, get_idx_binary,
  get_value_binary,
}
use lsm_tree_engine.Block.Search.Walks.{reads}
use lsm_tree_engine.Block.Search.Adjust.{adjust_idx_by_tranc_id-Newest}
use lsm_tree_engine.Block.Search.Sorted.{
  nth, IsSorted, visible, Missing, Answers, Searches, Newest, Adjusts,
}

length_of_empty : (b : Block) → is_empty b ≡ true → length b.offsets ≡ 0
unfolding is_empty
length_of_empty b h = ground arith

module _ (stale : ℕ) (bounded : stale < 2 ^ 48) (b : Block) (es : List Entry) (holds : Holds b es)
    (small : length b.bytes ≤ 2 ^ 16) (sorted : IsSorted es) (key : List ℕ) (t : ℕ) where
  answer :
      (mid : ℕ)
      → mid < length es
      → (nth es mid).key ≡ key
      → (found : Option ℕ) → Newest es key t found
      → Answers es key t (on_found mid found)
  unfolding on_found
  answer mid inside same none newest = (inside, same, newest)
  answer mid inside same (some i) newest = inr (i, newest)

  answered :
      (mid : ℕ)
      → mid < length es
      → (nth es mid).key ≡ key
      → (adjusted : Result (Option ℕ)) → Adjusts stale es key t adjusted
      → Searches stale es key t (adjusted >>= λ new_mid. ok (on_found mid new_mid))
  answered mid inside same (ok found) (inl none_left, newest) =
      (inl none_left, answer mid inside same found newest)
  answered mid inside same (ok found) (inr plain, newest) =
      (inr (inl plain), answer mid inside same found newest)
  answered mid inside same (err e) (out, left_over, transaction) =
      (out, left_over, transaction, (mid, inside, same))

  -- What a round of the loop does at an entry, by the comparison of its key.
  round_eq :
      (fuel left hi : ℕ)
      → left < hi
      → (left + hi - 1) / 2 < length es
      → compare_bytes (nth es ((left + hi - 1) / 2)).key key ≡ Ordering.eq
      → binary_loop stale b key t (suc fuel) left hi ≡ (
          adjust_idx_by_tranc_id stale b ((left + hi - 1) / 2) t >>= λ new_mid.
          ok (on_found ((left + hi - 1) / 2) new_mid))
  unfolding binary_loop offset_at compare_key
  round_eq fuel left hi lt inside same =
      let place = reads b es holds small ((left + hi - 1) / 2) inside in
      rw (lt→ltb left hi lt, place.listed, place.key_eq) (ground (arith, same))

  found_at :
      (mid : ℕ)
      → mid < length es
      → compare_bytes (nth es mid).key key ≡ Ordering.eq
      → Searches stale es key t
          (adjust_idx_by_tranc_id stale b mid t >>= λ new_mid. ok (on_found mid new_mid))
  found_at mid inside same =
      let key_same : (nth es mid).key ≡ key = compare_bytes_eq (nth es mid).key key same in
      answered mid inside key_same (adjust_idx_by_tranc_id stale b mid t) (
        subst (λ k. Adjusts stale es k t (adjust_idx_by_tranc_id stale b mid t)) key_same
          (adjust_idx_by_tranc_id-Newest stale b es mid t bounded holds small sorted inside))

  round_lt :
      (fuel left hi : ℕ)
      → left < hi
      → (left + hi - 1) / 2 < length es
      → compare_bytes (nth es ((left + hi - 1) / 2)).key key ≡ Ordering.lt
      → binary_loop stale b key t (suc fuel) left hi
        ≡ binary_loop stale b key t fuel ((left + hi - 1) / 2 + 1) hi
  unfolding binary_loop offset_at compare_key
  round_lt fuel left hi lt inside less =
      let place = reads b es holds small ((left + hi - 1) / 2) inside in
      rw (lt→ltb left hi lt, place.listed, place.key_eq) (ground (arith, less))

  round_gt :
      (fuel left hi : ℕ)
      → left < hi
      → (left + hi - 1) / 2 < length es
      → compare_bytes (nth es ((left + hi - 1) / 2)).key key ≡ Ordering.gt
      → binary_loop stale b key t (suc fuel) left hi
        ≡ binary_loop stale b key t fuel left ((left + hi - 1) / 2)
  unfolding binary_loop offset_at compare_key
  round_gt fuel left hi lt inside greater =
      let place = reads b es holds small ((left + hi - 1) / 2) inside in
      rw (lt→ltb left hi lt, place.listed, place.key_eq) (ground (arith, greater))

  -- Entries at or before a smaller key, and at or behind a larger key, have another key.
  left_out :
      (mid j : ℕ)
      → mid < length es
      → compare_bytes (nth es mid).key key ≡ Ordering.lt
      → j ≤ mid
      → ¬ ((nth es j).key ≡ key)
  left_out mid j inside less p same = elim (dec_lt j mid) [
    | no q ↦
        let at : j ≡ mid = omega arith in
        ground (arith, less, compare_bytes_self key, subst (λ k. (nth es k).key ≡ key) at same)
    | yes q ↦ elim (sorted j mid q inside) [
      | inl smaller ↦ ground (
        arith,
        compare_bytes_trans (nth es j).key (nth es mid).key key smaller less,
        compare_bytes_self key,
      )
      | inr (equal, le) ↦ ground (arith, less, compare_bytes_self key)
    ]
  ]

  right_out :
      (mid j : ℕ)
      → mid ≤ j
      → j < length es
      → compare_bytes (nth es mid).key key ≡ Ordering.gt
      → ¬ ((nth es j).key ≡ key)
  right_out mid j p inside greater same = elim (dec_lt mid j) [
    | no q ↦
        let at : j ≡ mid = omega arith in
        ground (arith, greater, compare_bytes_self key, subst (λ k. (nth es k).key ≡ key) at same)
    | yes q ↦ elim (sorted mid j q inside) [
      | inl smaller ↦ ground (arith, smaller, greater)
      | inr (equal, le) ↦ ground (arith, greater, compare_bytes_self key)
    ]
  ]

  ended : (fuel left hi : ℕ) → hi ≤ left → binary_loop stale b key t (suc fuel) left hi ≡ ok none
  unfolding binary_loop
  ended fuel left hi le = rw (le→ltb left hi le) refl

  binary_loop_lem :
      (fuel left hi : ℕ)
      → hi - left < fuel
      → hi ≤ length es
      → ((j : ℕ) → j < left → ¬ ((nth es j).key ≡ key))
      → ((j : ℕ) → hi ≤ j → j < length es → ¬ ((nth es j).key ≡ key))
      → Searches stale es key t (binary_loop stale b key t fuel left hi)
  binary_loop_lem zero left hi room inside low high = absurd (omega arith)
  binary_loop_lem (suc fuel) left hi room inside low high = elim (dec_lt left hi) [
    | no empty ↦
        let missing : Missing es key =
          λ j h. elim (dec_lt j left) [ yes p ↦ low j p | no p ↦ high j (omega arith) h ] in
        rw (ended fuel left hi (omega arith)) (inr (inr missing), inl missing)
    | yes lt ↦
        let mid : ℕ = (left + hi - 1) / 2 in
        elim (Ordering-cases (compare_bytes (nth es mid).key key)) [
          | inr (inl same) ↦
              rw (round_eq fuel left hi lt (omega arith) same) (found_at mid (omega arith) same)
          | inl less ↦ rw (round_lt fuel left hi lt (omega arith) less) (
              binary_loop_lem fuel (mid + 1) hi (omega arith) inside
                (λ j p. left_out mid j (omega arith) less (omega arith)) high)
          | inr (inr greater) ↦ rw (round_gt fuel left hi lt (omega arith) greater) (
              binary_loop_lem fuel left mid (omega arith) (omega arith) low
                (λ j p h. right_out mid j p h greater))
        ]
  ]

  found : Searches stale es key t (get_idx_binary stale b key t)
  unfolding get_idx_binary
  found = elim (Bool-cases (is_empty b)) [
    | inl empty ↦
        let missing : Missing es key =
          λ j h. absurd (omega (arith, length-offsets holds, length_of_empty b empty)) in
        rw empty (inr (inr missing), inl missing)
    | inr filled ↦ rw filled (
        binary_loop_lem (suc (length b.offsets)) 0 (length b.offsets) (omega arith)
          (omega (arith, length-offsets holds)) (λ j p. absurd (omega arith))
          (λ j p h. absurd (omega (arith, length-offsets holds))))
  ]

-- On a block of at most 64 KiB that holds entries sorted by key, and by falling transaction id within
-- a key, `get_idx_binary` either ends without a fault, if the six bytes of `key_len` that
-- `get_tranc_id_at` leaves uninitialised are zero, the transaction id is 0 or the key is missing, or
-- reads outside the block, if none of these is the case. Where it ends, it answers an index only
-- where the key stands and no version of the key is visible, and `nullopt` exactly where the key is
-- missing or a version of it is visible: the test of the adjusted index against -1 is the wrong way
-- round.
pub get_idx_binary-Answers :
    (stale : ℕ) (b : Block) (es : List Entry) (key : List ℕ) (tranc_id : ℕ)
    → stale < 2 ^ 48
    → Holds b es
    → length b.bytes ≤ 2 ^ 16
    → IsSorted es
    → Searches stale es key tranc_id (get_idx_binary stale b key tranc_id)
get_idx_binary-Answers stale b es key tranc_id bounded holds small sorted =
    found stale bounded b es holds small sorted key tranc_id

answered_none :
    (es : List Entry) (key : List ℕ) (tranc_id i : ℕ)
    → i < length es
    → (nth es i).key ≡ key
    → visible tranc_id (nth es i) ≡ true
    → (r : Option ℕ) → Answers es key tranc_id r
    → r ≡ none
answered_none es key tranc_id i inside same seen none answers = refl
answered_none es key tranc_id i inside same seen (some mid) answers =
    absurd (false≢true (sym (answers.2 i inside same) ∙ seen))

read_none :
    (b : Block) (es : List Entry) (key : List ℕ) (tranc_id i : ℕ)
    → i < length es
    → (nth es i).key ≡ key
    → visible tranc_id (nth es i) ≡ true
    → (r : Result (Option ℕ)) → Searches 0 es key tranc_id r
    → r ≡ ok none
read_none b es key tranc_id i inside same seen (ok answer_found) (ends, answers) =
    ap ok (answered_none es key tranc_id i inside same seen answer_found answers)
read_none b es key tranc_id i inside same seen (err e) (out, left_over, transaction, place) =
    absurd (left_over refl)

-- On such a block, where the uninitialised bytes are zero, a key of which the transaction sees a
-- version is not found: `get_value_binary` answers `nullopt`, whatever the value is.
pub get_value_binary-visible :
    (b : Block) (es : List Entry) (key : List ℕ) (tranc_id i : ℕ)
    → Holds b es
    → length b.bytes ≤ 2 ^ 16
    → IsSorted es
    → i < length es
    → (nth es i).key ≡ key
    → visible tranc_id (nth es i) ≡ true
    → get_value_binary 0 b key tranc_id ≡ ok none
unfolding get_value_binary
get_value_binary-visible b es key tranc_id i holds small sorted inside same seen =
    rw
      (read_none b es key tranc_id i inside same seen (get_idx_binary 0 b key tranc_id)
        (get_idx_binary-Answers 0 b es key tranc_id (omega arith) holds small sorted))
      refl
