-- ===== src/SkipList/Iterator.antt =====
-- `SkipListIterator`, `SkipList::begin` and `SkipList::end` (src/skiplist/skiplist.cpp,
-- include/skiplist/skiplist.h). An iterator is the pointer `current`; the store it points into is an argument.
use lsm_tree_engine.Prelude.{
  inr, inl, if◌then◌else◌, ap, ℕ, zero, suc, ◌≡◌, refl, ◌==◌, Bool, true, false, List, [], ◌∷◌,
  Option, none, some, Result, ok, err, ◌>>=◌, stuck, out_of_bounds, dereference_null, not,
}
use lsm_tree_engine.Prelude.Results.{Result-cases}
use lsm_tree_engine.SkipList.{SkipList, Version, forward_at, flush, flush_loop}

abbrev pub SkipListIterator : Type 0
SkipListIterator = Option ℕ

pub begin : SkipList → Result SkipListIterator
begin s = forward_at s 0 s.head

pub end : SkipListIterator
end = none

-- `operator++`: the end stays the end.
unfoldable pub advance : SkipList → SkipListIterator → Result SkipListIterator
advance s none = ok none
advance s (some a) = forward_at s 0 a

-- `operator==` with another iterator of skip lists.
unfoldable pub equal : SkipListIterator → SkipListIterator → Bool
equal none none = true
equal none (some b) = false
equal (some a) none = false
equal (some a) (some b) = a == b

pub differ : SkipListIterator → SkipListIterator → Bool
differ i j = not (equal i j)

pub is_valid : SkipListIterator → Bool
is_valid none = false
is_valid (some a) = true

pub is_end : SkipListIterator → Bool
is_end none = true
is_end (some a) = false

-- `operator*`.
pub deref : SkipList → SkipListIterator → Result (List ℕ × List ℕ)
deref s none = err dereference_null
deref s (some a) = ok ((s.nodes a).key, (s.nodes a).value)

pub get_key : SkipList → SkipListIterator → Result (List ℕ)
get_key s none = err out_of_bounds
get_key s (some a) = ok (s.nodes a).key

pub get_value : SkipList → SkipListIterator → Result (List ℕ)
get_value s none = err out_of_bounds
get_value s (some a) = ok (s.nodes a).value

pub get_tranc_id : SkipList → SkipListIterator → Result ℕ
get_tranc_id s none = err out_of_bounds
get_tranc_id s (some a) = ok (s.nodes a).tranc_id

-- What a loop `for (auto iter = …; iter != last; ++iter)` reads from an iterator on, on fuel.
pub read_until : SkipList → SkipListIterator → ℕ → SkipListIterator → Result (List Version)
read_until s last zero iter = err stuck
read_until s last (suc fuel) iter =
    let step = (do
      key ← get_key s iter
      value ← get_value s iter
      tranc_id ← get_tranc_id s iter
      iter' ← advance s iter
      rest ← read_until s last fuel iter'
      ok ((key, value, tranc_id) ∷ rest)) in
    if differ iter last then step else ok []

-- `for (auto iter = begin(); iter != end(); ++iter)`: one round for each address given out and one more
-- are enough.
pub read_all : SkipList → Result (List Version)
read_all s = do iter ← begin s; read_until s end (suc s.fresh) iter

read_until-flush_loop :
    (s : SkipList) (fuel : ℕ) (iter : SkipListIterator)
    → read_until s end fuel iter ≡ flush_loop s fuel iter
unfolding read_until flush_loop end differ equal get_key get_value get_tranc_id advance
read_until-flush_loop s zero iter = refl
read_until-flush_loop s (suc fuel) none = refl
read_until-flush_loop s (suc fuel) (some a) = elim (Result-cases (forward_at s 0 a)) [
  | inl (next, e) ↦ rw (e, read_until-flush_loop s fuel next) refl
  | inr (fault, e) ↦ rw e refl
]

-- The iterators from `begin` to `end` read what `flush` returns, or end in the same fault.
pub read_all-flush : (s : SkipList) → read_all s ≡ flush s
unfolding read_all flush begin
read_all-flush s =
    ap (λ (run : SkipListIterator → Result (List Version)). forward_at s 0 s.head >>= run)
      (λ i x. read_until-flush_loop s (suc s.fresh) x i)
