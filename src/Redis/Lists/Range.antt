-- ===== src/Redis/Lists/Range.antt =====
-- What `lrange` (src/redis_wrapper/redis_wrapper.cpp) replies.
use lsm_tree_engine.Prelude.Int.{pos_part, ℤ, pos, ◌+ℤ◌, ◌-ℤ◌, as_int, add_pos, sub_pos}
use lsm_tree_engine.Prelude.{
  from_option, out_of_bounds, ℕ, zero, suc, ◌+◌, ◌-◌, ◌^◌, ◌<◌, ◌≤◌, ◌≡◌, refl, sym, ap, ◌∙◌, min,
  false, Bool-cases, inl, inr, ltb, leb, List, [], ◌∷◌, ◌++◌, length, take, drop, get_elem?, some,
  ok, arith,
}
use lsm_tree_engine.Redis.Lists.{
  element_at, rows, write_range, stop_of, range_reply, lrange, expire_list_clean,
}
use lsm_tree_engine.Redis.{Text, KeyValue}
use lsm_tree_engine.Redis.Numbers.{stoi}
use lsm_tree_engine.Redis.Keys.{array_header, bulk}
use lsm_tree_engine.Redis.Laws.{Alive}
use lsm_tree_engine.Redis.Sets.{bulks}
use lsm_tree_engine.Redis.Lists.Machine.{split-stored}
use lsm_tree_engine.Redis.Lists.Refinement.{Represents}

drop_next :
    (xs : List Text) (i : ℕ)
    → i < length xs
    → (x : Text) × (get_elem? xs i ≡ some x) × (drop i xs ≡ x ∷ drop (i + 1) xs)
drop_next [] i h = elim h [ ]
drop_next (x ∷ xs) zero h = (x, refl, refl)
drop_next (x ∷ xs) (suc i) h =
    let (y, at, rest) = drop_next xs i (omega arith) in
    let e : suc i + 1 ≡ suc (i + 1) = omega arith in (y, at, rw e rest)

rows_step :
    (xs : List Text) (n : ℕ) (i : ℤ) (x rest : Text)
    → element_at xs i ≡ ok x
    → rows xs n (i +ℤ pos 1) ≡ ok rest
    → rows xs (suc n) i ≡ ok (bulk x ++ rest)
unfolding rows
rows_step xs n i x rest at more = rw (at, rows, more) refl

rows-take :
    (xs : List Text) (n i : ℕ)
    → i + n ≤ length xs
    → rows xs n (pos i) ≡ ok (bulks (take n (drop i xs)))
unfolding rows bulks
rows-take xs zero i h = refl
rows-take xs (suc n) i h =
    let (x, at, rest) = drop_next xs i (omega arith) in
    rows_step xs n (pos i) x _ (ap (from_option out_of_bounds) at)
      (ap (rows xs n) (add_pos i 1) ∙ rows-take xs n (i + 1) (omega arith))
    ∙ ap (λ ys. ok (bulks (take (suc n) ys))) (sym rest)

write_range_by :
    (xs : List Text) (start stop : ℤ) (count : ℕ) (rest : Text)
    → stop -ℤ start +ℤ pos 1 ≡ pos count
    → rows xs count start ≡ ok rest
    → write_range xs start stop ≡ ok (array_header count ++ rest)
unfolding write_range
write_range_by xs start stop count rest counted written =
    rw (counted, write_range, written) (ap (λ z. ok (array_header (pos_part z) ++ rest)) counted)

write_range-take :
    (xs : List Text) (last : ℕ)
    → last < length xs
    → write_range xs (pos 0) (pos last) ≡ ok (array_header (last + 1) ++ bulks (take (last + 1) xs))
unfolding write_range
write_range-take xs last h =
    let whole : last - 0 ≡ last = omega arith in
    let count : pos last -ℤ pos 0 +ℤ pos 1 ≡ pos (last + 1) =
      ap (λ z. z +ℤ pos 1) (sub_pos last 0 (omega arith) ∙ ap pos whole) ∙ add_pos last 1 in
    write_range_by xs (pos 0) (pos last) (last + 1) _ count
      (rows-take xs (last + 1) 0 (omega arith))

as_int_small : (n : ℕ) → n < 2 ^ 31 → as_int (pos n) ≡ pos n
as_int_small n h = ground arith

stop_of-min :
    (size j : ℕ) → 0 < size → size < 2 ^ 31 → stop_of size (pos j) ≡ pos (min (j + 1) size - 1)
stop_of-min size j some_there small = elim (Bool-cases (leb (size - 1) j)) [
  | inl far ↦
      rw (far, sub_pos size 1 (omega arith), as_int_small (size - 1) (omega arith))
        (ap pos (ground arith))
  | inr near ↦ rw near (ap pos (ground arith))
]

module _ (K : KeyValue) (now : ℕ) where
  range_reply-take :
      (e : Text) (elements : List Text) (i j : ℕ)
      → length (e ∷ elements) < 2 ^ 31
      → range_reply K now (e ∷ elements) (pos i) (pos j)
        ≡ ok (
            array_header (min (j + 1) (length (e ∷ elements)))
            ++ bulks (take (min (j + 1) (length (e ∷ elements))) (e ∷ elements)))
  range_reply-take e elements i j small =
      let size = length (e ∷ elements) in
      let last = min (j + 1) size - 1 in
      let next : last + 1 ≡ min (j + 1) size = ground arith in
      let order : ltb (last + 0) (0 + 0) ≡ false = ground arith in
      rw (stop_of-min size j (omega arith) small, order)
        (write_range-take (e ∷ elements) last (ground arith)
          ∙ ap (λ n. ok (array_header n ++ bulks (take n (e ∷ elements)))) next)

  -- `lrange` with a start and a stop that are not negative replies the elements from the first one to the stop,
  -- whatever the start is: on a list that is not empty and has fewer than 2^31 elements, none of them empty or with a
  -- `#` in it, under a key with a time to live that has not passed.
  pub lrange-take :
      (name key a b e : Text) (elements : List Text) (i j : ℕ) (s : K.Store)
      → stoi a ≡ ok (pos i)
      → stoi b ≡ ok (pos j)
      → length (e ∷ elements) < 2 ^ 31
      → Represents K now key (e ∷ elements) s
      → Alive K now key s
      → lrange K now (name ∷ key ∷ a ∷ b ∷ []) s ≡ (
        ok (
            array_header (min (j + 1) (length (e ∷ elements)))
            ++ bulks (take (min (j + 1) (length (e ∷ elements))) (e ∷ elements))),
        s,
      )
  unfolding lrange expire_list_clean
  lrange-take name key a b e elements i j s first second small (all, holds) (time, at, fresh) =
      rw
        (
          first,
          second,
          at,
          fresh,
          holds,
          split-stored e elements all,
          range_reply-take e elements i j small,
        )
        refl
