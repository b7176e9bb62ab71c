-- ===== src/Files/Numbers.antt =====
-- Numbers written to a file (src/utils/file.cpp) behind a prefix, and read back.
use lsm_tree_engine.Prelude.{
  ℕ, ◌+◌, ◌-◌, ◌<◌, ◌^◌, ◌≡◌, refl, ◌∙◌, ap, List, ◌++◌, length, drop, replicate, ok, arith,
  length-append, take-append, drop-append_add, append_assoc, le→ltb,
}
use lsm_tree_engine.Bytes.{to_bytes}
use lsm_tree_engine.Bytes.Layout.{length-to_bytes, load_int-to_bytes}
use lsm_tree_engine.Files.{write_at, write_uint64, read_uint64}

write_at-append :
    (front rest bytes : List ℕ) (offset : ℕ)
    → offset ≡ length front
    → write_at (front ++ rest) offset bytes ≡ front ++ (bytes ++ drop (length bytes) rest)
unfolding write_at
write_at-append front rest bytes offset at =
    rw
      (
        append_assoc front rest (replicate (offset - length (front ++ rest)) 0),
        take-append front (rest ++ replicate (offset - length (front ++ rest)) 0) offset at,
        drop-append_add front rest (offset + length bytes) (length bytes) (omega arith),
      )
      refl

pub write_uint64-append :
    (front rest : List ℕ) (offset val : ℕ)
    → offset ≡ length front
    → write_uint64 (front ++ rest) offset val ≡ front ++ (to_bytes 8 val ++ drop 8 rest)
unfolding write_uint64
write_uint64-append front rest offset val at =
    write_at-append front rest (to_bytes 8 val) offset at
    ∙ ap (λ (n : ℕ). front ++ (to_bytes 8 val ++ drop n rest)) (length-to_bytes 8 val)

pub read_uint64-append :
    (front back : List ℕ) (offset val : ℕ)
    → offset ≡ length front
    → val < 2 ^ 64
    → read_uint64 (front ++ (to_bytes 8 val ++ back)) offset ≡ ok val
unfolding read_uint64
read_uint64-append front back offset val at small =
    rw
      (
        length-append front (to_bytes 8 val ++ back),
        length-append (to_bytes 8 val) back,
        length-to_bytes 8 val,
        le→ltb (length front + (8 + length back)) (offset + 8) (omega arith),
      )
      (load_int-to_bytes 8 val front back offset at small)
