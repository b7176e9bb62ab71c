-- ===== src/Redis.antt =====
-- src/redis_wrapper/redis_wrapper.cpp, include/redis_wrapper/redis_wrapper.h: the Redis commands over a key-value
-- store. `KeyValue` is what the commands use of the engine, always as transaction 0: `get` is the value that
-- `LSMEngine::get` finds, `iter` the pairs between the iterators of `iter_monotony_predicate`. A command that throws
-- leaves the store as it is then. Locks are left out; `now` is the time that the clock shows, and an argument that is
-- not there is an access outside the vector.
pub mod Keys
pub mod Numbers
pub mod Texts
pub mod Commands
pub mod Hashes
pub mod SortedSets
pub mod Sets
pub mod Lists
pub mod Laws
pub mod Faults
mod LogStore
mod Tests
use lsm_tree_engine.Prelude.{
  true, false, ℕ, List, Option, none, some, Result, ok, err, get_elem?, Ordering, from_option,
  out_of_bounds, Bool,
}
use Prim.Native.Char.{code}
use Prim.Native.String.{String}

abbrev pub Text : Type 0
Text = List ℕ

abbrev pub is_empty_text : Text → Bool
is_empty_text List.[] = true
is_empty_text (List.◌∷◌ c s) = false

-- The bytes of an ASCII literal.
abbrev pub codes : String → Text
codes String.[] = List.[]
codes (String.◌∷◌ c s) = List.◌∷◌ (code c) (codes s)

pub record KeyValue : Type 1 where
  pub Store : Type 0
  pub get : Store → Text → Option Text
  pub put : Store → Text → Text → Store
  pub remove : Store → Text → Store
  pub put_batch : Store → List (Text × Text) → Store
  pub remove_batch : Store → List Text → Store
  pub iter : Store → (Text → Ordering) → Option (List (Text × Text))
  pub clear : Store → Store

-- An action on the store, which may throw; what it did to the store before remains.
abbrev pub Command : Type 0 → Type 0 → Type 0
Command Store A = Store → Result A × Store

module _ {Store : Type 0} {A : Type 0} where
  abbrev pub return : A → Command Store A
  return a s = (ok a, s)

  abbrev pub lift : Result A → Command Store A
  lift r s = (r, s)

module _ {Store : Type 0} {A B : Type 0} where
  -- What follows an action that has ended.
  abbrev pub then_run : Result A × Store → (A → Command Store B) → Result B × Store
  then_run (ok a, s) rest = rest a s
  then_run (err e, s) rest = (err e, s)

  infixl 5 ◌>>=◌
  abbrev pub ◌>>=◌ : Command Store A → (A → Command Store B) → Command Store B
  ◌>>=◌ m rest s = then_run (m s) rest

module _ (K : KeyValue) where
  abbrev pub read_value : Text → Command K.Store (Option Text)
  read_value key s = (ok (K.get s key), s)

  abbrev pub write_value : Text → Text → Command K.Store (Unit {0})
  write_value key value s = (ok tt, K.put s key value)

  abbrev pub remove_value : Text → Command K.Store (Unit {0})
  remove_value key s = (ok tt, K.remove s key)

  abbrev pub put_values : List (Text × Text) → Command K.Store (Unit {0})
  put_values kvs s = (ok tt, K.put_batch s kvs)

  abbrev pub remove_values : List Text → Command K.Store (Unit {0})
  remove_values keys s = (ok tt, K.remove_batch s keys)

  abbrev pub iter_values : (Text → Ordering) → Command K.Store (Option (List (Text × Text)))
  iter_values predicate s = (ok (K.iter s predicate), s)

-- `args[i]`.
abbrev pub arg : List Text → ℕ → Result Text
arg args i = from_option out_of_bounds (get_elem? args i)
