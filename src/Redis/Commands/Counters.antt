-- ===== src/Redis/Commands/Counters.antt =====
-- `incr` and `decr` (src/redis_wrapper/redis_wrapper.cpp) on a number that is stored.
use lsm_tree_engine.Prelude.{ℕ, ◌≡◌, refl, true, List, [], ◌∷◌, none, some, ok, err}
use lsm_tree_engine.Prelude.Results.{bad_optional_access}
use lsm_tree_engine.Prelude.Int.{ℤ, pos, ◌+ℤ◌, ◌-ℤ◌, fits_bits}
use lsm_tree_engine.Redis.{Text, KeyValue, Command, codes, return, ◌>>=◌}
use lsm_tree_engine.Redis.Numbers.{to_string}
use lsm_tree_engine.Redis.Numbers.RoundTrip.{stoll-to_string, is_empty_text-to_string}
use lsm_tree_engine.Redis.Laws.{IsMap}
use lsm_tree_engine.Redis.Commands.{incr, decr}

pub data Change : Type 0 where
  up down : Change

abbrev pub changed : Change → ℤ → ℤ
changed Change.up z = z +ℤ pos 1
changed Change.down z = z -ℤ pos 1

-- No number on the way leaves the range of a `long long`.
abbrev pub Fits : List Change → ℤ → Type 0
Fits [] z = fits_bits 63 z ≡ true
Fits (c ∷ changes) z = (fits_bits 63 z ≡ true) × Fits changes (changed c z)

-- The numbers that the changes lead through, printed, and the last one.
unfoldable pub numbers : List Change → ℤ → List Text × ℤ
numbers [] z = ([], z)
numbers (c ∷ changes) z =
    let (replies, last) = numbers changes (changed c z) in (to_string (changed c z) ∷ replies, last)

first-Fits : (changes : List Change) (z : ℤ) → Fits changes z → fits_bits 63 z ≡ true
first-Fits [] z fits = fits
first-Fits (c ∷ changes) z (fits, _) = fits

module _ (K : KeyValue) (now : ℕ) (key : Text) where
  unfoldable pub change : Change → Command K.Store Text
  change Change.up = incr K now (codes "incr" ∷ key ∷ [])
  change Change.down = decr K now (codes "decr" ∷ key ∷ [])

  unfoldable pub change_all : List Change → Command K.Store (List Text)
  change_all [] = return []
  change_all (c ∷ changes) = do
    reply ← change c
    replies ← change_all changes
    return (reply ∷ replies)

module _ (K : KeyValue) (laws : IsMap K) (now : ℕ) (key : Text) where
  change_lem :
      (c : Change) (z : ℤ) (s : K.Store)
      → fits_bits 63 z ≡ true
      → fits_bits 63 (changed c z) ≡ true
      → K.get s key ≡ some (to_string z)
      → change K now key c s ≡ (ok (to_string (changed c z)), K.put s key (to_string (changed c z)))
  unfolding change incr decr
  change_lem Change.up z s fits fits' holds = rw (holds, stoll-to_string z fits, fits') refl
  change_lem Change.down z s fits fits' holds = rw (holds, stoll-to_string z fits, fits') refl

  -- On a key that holds a number, any sequence of `incr` and `decr` replies the numbers that it leads through, and the
  -- last one is what the key holds then, when the store is a map and none of the numbers leaves the range of a
  -- `long long`.
  pub change_all-numbers :
      (changes : List Change) (z : ℤ) (s : K.Store)
      → Fits changes z
      → K.get s key ≡ some (to_string z)
      → ((change_all K now key changes s).0 ≡ ok (numbers changes z).0)
        × (K.get (change_all K now key changes s).1 key ≡ some (to_string (numbers changes z).1))
  unfolding change_all numbers
  change_all-numbers [] z s fits holds = (refl, holds)
  change_all-numbers (c ∷ changes) z s (fits, rest) holds =
      let (replies, last) =
        change_all-numbers changes (changed c z) (K.put s key (to_string (changed c z))) rest
          (laws.get_put s key _ (is_empty_text-to_string (changed c z))) in
      rw (change_lem c z s fits (first-Fits changes (changed c z) rest) holds, replies) (refl, last)

  -- The first `incr` of a key makes it 1; the first `decr` stores -1 and then throws, since it reads the value that was
  -- not there.
  pub change_missing :
      (s : K.Store)
      → K.get s key ≡ none
      → (change K now key Change.up s ≡ (ok (codes "1"), K.put s key (codes "1")))
        × (change K now key Change.down s ≡ (err bad_optional_access, K.put s key (codes "-1")))
  unfolding change incr decr
  change_missing s missing = (rw missing refl, rw missing refl)
