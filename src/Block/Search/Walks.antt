-- ===== src/Block/Search/Walks.antt =====
-- The loops of `Block::adjust_idx_by_tranc_id` (src/block/block.cpp) on a sorted block: each ends at
-- the newest visible version of the key, or finds that there is none.
use lsm_tree_engine.Block.{out_of_bounds, err, Block, Entry}
use lsm_tree_engine.Prelude.{
  ℕ, zero, suc, ◌+◌, ◌^◌, ◌≤◌, ◌<◌, ◌≡◌, refl, sym, ◌∙◌, ap, subst, leb, ltb, true, false, List,
  length, inl, inr, Option, none, some, arith, ok, ◌≢◌, Bool-cases, lt→leb,
}
use lsm_tree_engine.Prelude.Order.{eq_bytes, eq_bytes_iff}
use native.Mathlib.Decide.{dec_lt}
use lsm_tree_engine.Block.Entries.{Holds}
use lsm_tree_engine.Block.Reads.{Reads, Holds-Reads, length-offsets}
use lsm_tree_engine.Block.Search.{
  offset_at, key_at, is_same_key, walk_first, tranc_id_at, walk_visible, walk_hidden,
}
use lsm_tree_engine.Block.Search.Sorted.{
  nth, get_elem?-nth, IsSorted, visible, HiddenBefore, Newest, ids_fall, keys_convex,
}

module _ (b : Block) (es : List Entry) (holds : Holds b es) (small : length b.bytes ≤ 2 ^ 16) where
  pub reads : (i : ℕ) → i < length es → Reads b i (nth es i)
  reads i h = Holds-Reads i (nth es i) holds small (get_elem?-nth es i h)

  pub key_at-nth : (i : ℕ) → i < length es → key_at b i ≡ ok (nth es i).key
  unfolding key_at offset_at
  key_at-nth i h = let r = reads i h in rw (r.listed, r.key_eq) refl

  pub tranc_id_at-nth :
      (target : List ℕ) (t i : ℕ)
      → i < length es
      → tranc_id_at 0 b target t i ≡ ok (nth es i).tranc_id
  unfolding tranc_id_at offset_at
  tranc_id_at-nth target t i h = let r = reads i h in rw (r.listed, r.id_eq) refl

  -- Bytes left over in `key_len` send the read of a transaction id out of the block's memory.
  pub tranc_id_at_stale :
      (stale : ℕ) (target : List ℕ) (t i : ℕ)
      → 0 < stale
      → stale < 2 ^ 48
      → i < length es
      → tranc_id_at stale b target t i ≡ err out_of_bounds
  unfolding tranc_id_at offset_at
  tranc_id_at_stale stale target t i pos less h =
      let r = reads i h in rw (r.listed, r.id_stale stale pos less) refl

  is_same_key-nth :
      (target : List ℕ) (i : ℕ)
      → i < length es
      → is_same_key b i target ≡ ok (eq_bytes (nth es i).key target)
  unfolding is_same_key
  is_same_key-nth target i h =
      rw (lt→leb (length b.offsets) i (omega (arith, length-offsets holds)), key_at-nth i h) refl

  module _ (sorted : IsSorted es) (target : List ℕ) where
    differs : (e : Entry) → eq_bytes e.key target ≡ false → e.key ≢ target
    differs e h same = cc ((eq_bytes_iff e.key target).1 same)

    -- Where the entry before one of the run has another key, no entry before has the run's key.
    run_begins :
        (i : ℕ)
        → suc i < length es
        → (nth es (suc i)).key ≡ target
        → eq_bytes (nth es i).key target ≡ false
        → (j : ℕ) → j < suc i
        → (nth es j).key ≢ target
    run_begins i h e other j p same = elim (dec_lt j i) [
      | yes q ↦
          differs (nth es i) other
            (keys_convex es sorted j i (suc i) q (omega arith) h (same ∙ sym e) ∙ e)
      | no q ↦
          let at : j ≡ i = omega arith in
          differs (nth es i) other (ap (λ k. (nth es k).key) (sym at) ∙ same)
    ]

    -- The first entry with the key.
    abbrev pub First : ℕ → Type 0
    First r =
        (r < length es) × ((nth es r).key ≡ target) × ((j : ℕ) → j < r → (nth es j).key ≢ target)

    -- Behind the run no entry has its key.
    run_ends :
        (i j : ℕ)
        → suc i ≤ j
        → j < length es
        → (nth es i).key ≡ target
        → eq_bytes (nth es (suc i)).key target ≡ false
        → (nth es j).key ≢ target
    run_ends i j p h e other same = elim (dec_lt (suc i) j) [
      | yes q ↦
          differs (nth es (suc i)) other
            (keys_convex es sorted i (suc i) j (omega arith) q h (e ∙ sym same) ∙ same)
      | no q ↦
          let at : suc i ≡ j = omega arith in
          differs (nth es (suc i)) other (ap (λ k. (nth es k).key) at ∙ same)
    ]

    pub walk_first_lem :
        (i : ℕ)
        → i < length es
        → (nth es i).key ≡ target
        → (r : ℕ) × (walk_first b target i ≡ ok r) × First r
    unfolding walk_first
    walk_first_lem zero h e = (0, refl, (h, e, λ j p. absurd (omega arith)))
    walk_first_lem (suc i) h e = elim (Bool-cases (eq_bytes (nth es i).key target)) [
      | inl same ↦
          let (r, run, rest) =
            walk_first_lem i (omega arith) ((eq_bytes_iff (nth es i).key target).0 same) in
          (r, rw (is_same_key-nth target i (omega arith), same) run, rest)
      | inr other ↦ (
        suc i,
        rw (is_same_key-nth target i (omega arith), other) refl,
        (h, e, run_begins i h e other),
      )
    ]

    module _ (t : ℕ) (transaction : t ≢ 0) where
      hidden : (e : Entry) → t < e.tranc_id → visible t e ≡ false
      hidden e h = ground arith

      seen : (e : Entry) → e.tranc_id ≤ t → visible t e ≡ true
      seen e h = ground arith

      -- Above a hidden version all versions are hidden.
      pub older_hidden :
          (i : ℕ)
          → i < length es
          → (nth es i).key ≡ target
          → t < (nth es i).tranc_id
          → HiddenBefore es target t (suc i)
      older_hidden i h e later j p same = elim (dec_lt j i) [
        | yes q ↦ hidden (nth es j) (omega (arith, ids_fall es sorted j i q h (same ∙ sym e)))
        | no q ↦
            let at : i ≡ j = omega arith in
            hidden (nth es j) (subst (λ k. t < (nth es k).tranc_id) at later)
      ]

      pub walk_visible_lem :
          (i : ℕ)
          → i < length es
          → (nth es i).key ≡ target
          → visible t (nth es i) ≡ true
          → (r : ℕ) × (walk_visible 0 b target t i ≡ ok r) × Newest es target t (some r)
      unfolding walk_visible
      walk_visible_lem zero h e v = (0, refl, (h, e, v, λ j p. absurd (omega arith)))
      walk_visible_lem (suc i) h e v = elim (Bool-cases (eq_bytes (nth es i).key target)) [
        | inr other ↦ (
          suc i,
          rw (is_same_key-nth target i (omega arith), other) refl,
          (h, e, v, λ j p same. absurd (run_begins i h e other j p same)),
        )
        | inl same ↦ elim (Bool-cases (ltb t (nth es i).tranc_id)) [
          | inl later ↦ (
            suc i,
            rw
                (
                  is_same_key-nth target i (omega arith),
                  same,
                  tranc_id_at-nth target t i (omega arith),
                )
                (ground arith),
            (
              h,
              e,
              v,
              older_hidden i (omega arith) ((eq_bytes_iff (nth es i).key target).0 same)
                  (ground arith),
            ),
          )
          | inr now ↦
              let (r, run, rest) =
                walk_visible_lem i (omega arith) ((eq_bytes_iff (nth es i).key target).0 same)
                  (seen (nth es i) (ground arith)) in
              (
                r,
                rw
                    (
                      is_same_key-nth target i (omega arith),
                      same,
                      tranc_id_at-nth target t i (omega arith),
                    )
                    (ground (arith, run)),
                rest,
              )
        ]
      ]

      pub walk_hidden_lem :
          (n i next : ℕ)
          → next ≡ suc i
          → next + n ≡ length es
          → (nth es i).key ≡ target
          → HiddenBefore es target t next
          → (r : Option ℕ) × (walk_hidden 0 b target t n next ≡ ok r) × Newest es target t r
      unfolding walk_hidden
      walk_hidden_lem zero i next at room e before = (none, refl, λ j p. before j (omega arith))
      walk_hidden_lem (suc n) i next at room e before =
          elim (Bool-cases (eq_bytes (nth es next).key target)) [
            | inr other ↦ (
              none,
              rw (is_same_key-nth target next (omega arith), other) refl,
              λ j p match. elim (dec_lt j next) [
                | yes q ↦ before j q match
                | no q ↦ absurd (
                    run_ends i j (omega arith) p e
                      (subst (λ k. eq_bytes (nth es k).key target ≡ false) at other) match)
              ],
            )
            | inl same ↦ elim (Bool-cases (leb (nth es next).tranc_id t)) [
              | inl now ↦ (
                some next,
                rw
                    (
                      is_same_key-nth target next (omega arith),
                      same,
                      tranc_id_at-nth target t next (omega arith),
                    )
                    (ground arith),
                (
                  omega arith,
                  (eq_bytes_iff (nth es next).key target).0 same,
                  seen (nth es next) (ground arith),
                  before,
                ),
              )
              | inr later ↦
                  let same' : (nth es next).key ≡ target =
                    (eq_bytes_iff (nth es next).key target).0 same in
                  let (r, run, newest) =
                    walk_hidden_lem n next (next + 1) (omega arith) (omega arith) same' (
                      subst (HiddenBefore es target t) (omega arith)
                        (older_hidden next (omega arith) same' (ground arith))) in
                  (
                    r,
                    rw
                        (
                          is_same_key-nth target next (omega arith),
                          same,
                          tranc_id_at-nth target t next (omega arith),
                        )
                        (ground (arith, run)),
                    newest,
                  )
            ]
          ]
