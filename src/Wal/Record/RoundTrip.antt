-- ===== src/Wal/Record/RoundTrip.antt =====
-- `Record::decode` (src/wal/record.cpp) on a whole log: it ends on every input, and reads back records
-- that are laid out one behind the other.
use lsm_tree_engine.Prelude.{
  ◌-◌, err_same, avoids, first_ok, ℕ, zero, suc, ◌+◌, ◌≤◌, ◌<◌, ◌≡◌, ◌≢◌, refl, sym, ◌∙◌, ap, List,
  [], ◌∷◌, ◌++◌, length, All, Result, ok, err, ◌>>=◌, arith, length-append, append_assoc,
  append-nil, stuck, ltb, lt→ltb, le→ltb, Bool-cases, inl, inr,
}
use lsm_tree_engine.Bytes.Layout.{load-ne-stuck, load_int-ne-stuck}
use lsm_tree_engine.Bytes.{load_int}
use lsm_tree_engine.Wal.Record.{
  OperationType, put, remove, Record, op_of, decode_body, decode_one, decode_loop, decode,
}
use lsm_tree_engine.Wal.Record.Decoding.{layout, log_layout, Fits, decode_one-layout, length-layout}

decode_loop_step :
    (fuel : ℕ) (xs : List ℕ) (pos : ℕ) (acc : List Record) (r : Record) (next : ℕ)
    → pos < length xs
    → decode_one xs pos ≡ ok (r, next)
    → decode_loop (suc fuel) xs pos acc ≡ decode_loop fuel xs next (acc ++ (r ∷ []))
unfolding decode_loop
decode_loop_step fuel xs pos acc r next inside e = rw (lt→ltb pos (length xs) inside, e) refl

decode_loop-log_layout :
    (rs : List Record) (fuel : ℕ) (front : List ℕ) (pos : ℕ) (acc : List Record)
    → pos ≡ length front
    → length (log_layout rs) < fuel
    → All Fits rs
    → decode_loop fuel (front ++ log_layout rs) pos acc ≡ ok (acc ++ rs)
unfolding log_layout
decode_loop-log_layout rs zero front pos acc at room fits = elim room [ ]
decode_loop-log_layout [] (suc fuel) front pos acc at room fits =
    unfold decode_loop in rw (append-nil, append-nil, le→ltb pos (length front) (omega arith)) refl
decode_loop-log_layout (r ∷ rs) (suc fuel) front pos acc at room (fits, all_fit) =
    let long : length (layout r ++ log_layout rs) ≡ length (layout r) + length (log_layout rs) =
      length-append (layout r) (log_layout rs) in
    let inside : pos < length (front ++ (layout r ++ log_layout rs)) =
      rw (length-append front (layout r ++ log_layout rs)) (omega (arith, long, length-layout r)) in
    decode_loop_step fuel (front ++ (layout r ++ log_layout rs)) pos acc r (pos + length (layout r))
      inside (decode_one-layout front (log_layout rs) r pos at fits)
    ∙ ap (λ (xs : List ℕ). decode_loop fuel xs (pos + length (layout r)) (acc ++ (r ∷ [])))
        (sym (append_assoc front (layout r) (log_layout rs)))
    ∙ decode_loop-log_layout rs fuel (front ++ layout r) (pos + length (layout r)) (acc ++ (r ∷ []))
        (rw (length-append front (layout r)) (omega arith)) (omega (arith, long, length-layout r))
        all_fit
    ∙ ap ok (append_assoc acc (r ∷ []) rs)

-- Decoding a log whose records are laid out one behind the other, as the comment above
-- `Record::encode` describes them, gives back the records.
pub decode-log_layout : (rs : List Record) → All Fits rs → decode (log_layout rs) ≡ ok rs
unfolding decode
decode-log_layout [] fits = unfold log_layout in refl
decode-log_layout (r ∷ rs) fits =
    rw
      (le→ltb (length (log_layout (r ∷ rs))) 11 (
        unfold log_layout in
        rw (length-append (layout r) (log_layout rs)) (omega (arith, length-layout r))))
      (decode_loop-log_layout (r ∷ rs) (suc (length (log_layout (r ∷ rs)))) [] 0 [] refl
        (omega arith) fits)

decode_body_progress :
    (xs : List ℕ) (pos : ℕ) (r : Record) (op : OperationType) {r' : Record} {next : ℕ}
    → decode_body xs pos r op ≡ ok (r', next)
    → pos ≤ next
unfolding decode_body
decode_body_progress xs pos r put h = ground arith
decode_body_progress xs pos r remove h = ground arith
decode_body_progress xs pos r op h = ground arith

decode_one_progress :
    (xs : List ℕ) (pos : ℕ) (r : Record) (next : ℕ)
    → decode_one xs pos ≡ ok (r, next)
    → pos + 14 ≤ next
unfolding decode_one
decode_one_progress xs pos r next h =
    let (len, _, h₁) = first_ok (load_int 2 xs pos) _ h in
    let (tranc_id, _, h₂) = first_ok (load_int 8 xs (pos + 2)) _ h₁ in
    let (op, _, h₃) = first_ok (load_int 4 xs (pos + 2 + 8)) _ h₂ in
    omega (arith, decode_body_progress xs (pos + 2 + 8 + 4) _ (op_of op) h₃)

decode_body-ne-stuck :
    (xs : List ℕ) (pos : ℕ) (r : Record) (op : OperationType) → decode_body xs pos r op ≢ err stuck
unfolding decode_body
decode_body-ne-stuck xs pos r put = avoids stuck _ _ (load_int-ne-stuck 2 xs pos) λ k.
    avoids stuck _ _ (load-ne-stuck xs (pos + 2) k) λ key.
      avoids stuck _ _ (load_int-ne-stuck 2 xs (pos + 2 + k))
        λ v. avoids stuck _ _ (load-ne-stuck xs (pos + 2 + k + 2) v) λ value e. cc
decode_body-ne-stuck xs pos r remove =
    avoids stuck _ _ (load_int-ne-stuck 2 xs pos)
      λ k. avoids stuck _ _ (load-ne-stuck xs (pos + 2) k) λ key e. cc
decode_body-ne-stuck xs pos r op = λ e. cc

decode_one-ne-stuck : (xs : List ℕ) (pos : ℕ) → decode_one xs pos ≢ err stuck
unfolding decode_one
decode_one-ne-stuck xs pos = avoids stuck _ _ (load_int-ne-stuck 2 xs pos) λ len.
    avoids stuck _ _ (load_int-ne-stuck 8 xs (pos + 2)) λ t.
      avoids stuck _ _ (load_int-ne-stuck 4 xs (pos + 2 + 8))
        λ op. decode_body-ne-stuck xs (pos + 2 + 8 + 4) _ (op_of op)

-- The rest of a round cannot be stuck if the rounds behind it cannot.
round-ne-stuck :
    (fuel : ℕ) (xs : List ℕ) (pos : ℕ) (acc : List Record) (one : Result (Record × ℕ))
    → decode_one xs pos ≡ one
    → ((next : ℕ) (acc' : List Record)
        → pos + 14 ≤ next
        → decode_loop fuel xs next acc' ≢ err stuck)
    → (one >>= λ (r, next). decode_loop fuel xs next (acc ++ (r ∷ []))) ≢ err stuck
round-ne-stuck fuel xs pos acc (ok (r, next)) e again =
    again next (acc ++ (r ∷ [])) (decode_one_progress xs pos r next e)
round-ne-stuck fuel xs pos acc (err x) e again =
    λ same. decode_one-ne-stuck xs pos (e ∙ ap err (err_same x stuck same))

decode_loop-ne-stuck :
    (fuel : ℕ) (xs : List ℕ) (pos : ℕ) (acc : List Record)
    → length xs - pos < fuel
    → decode_loop fuel xs pos acc ≢ err stuck
unfolding decode_loop
decode_loop-ne-stuck zero xs pos acc room = elim room [ ]
decode_loop-ne-stuck (suc fuel) xs pos acc room = elim (Bool-cases (ltb pos (length xs))) [
  | inr done ↦ rw done (λ e. cc)
  | inl more ↦ rw more (
      round-ne-stuck fuel xs pos acc (decode_one xs pos) refl
        λ next acc' far. decode_loop-ne-stuck fuel xs next acc' (ground arith))
]

-- Decoding ends on every input, well formed or not.
pub decode-ne-stuck : (xs : List ℕ) → decode xs ≢ err stuck
unfolding decode
decode-ne-stuck xs = elim (Bool-cases (ltb (length xs) 11)) [
  | inl short ↦ rw short (λ e. cc)
  | inr long ↦ rw long (decode_loop-ne-stuck (suc (length xs)) xs 0 [] (omega arith))
]
