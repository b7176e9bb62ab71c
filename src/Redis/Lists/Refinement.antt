-- ===== src/Redis/Lists/Refinement.antt =====
-- The commands on lists (src/redis_wrapper/redis_wrapper.cpp) implement lists of texts.
use lsm_tree_engine.Redis.Lists.Machine.{
  Element, stored, ListCommand, IsElement, count, apply, split-stored, full-append, full-join,
  join-append, reverse-rest, without_last-Element,
}
use lsm_tree_engine.Redis.Numbers.{digits, to_string_ℕ}
use lsm_tree_engine.Prelude.{
  All-append, Result, ok, sym, ℕ, ◌≡◌, refl, ap, List, [], ◌∷◌, ◌++◌, length, append-nil, All,
}
use lsm_tree_engine.Redis.{KeyValue, Command, codes, return, ◌>>=◌, Text}
use lsm_tree_engine.Redis.Laws.{IsMap, Alive, put-Alive, remove-Alive}
use lsm_tree_engine.Redis.Lists.{
  lpush, rpush, lpop, rpop, llen, without_last, count_reply, store_list, expire_list_clean,
}
use lsm_tree_engine.Redis.Keys.{bulk, integer}
use lsm_tree_engine.Redis.Texts.{join, joined_rest, list_separator}

module _ (K : KeyValue) (now : ℕ) (key : Text) where
  -- The list under a key.
  abbrev pub Represents : List Text → K.Store → Type 0
  Represents elements s = All Element elements × (K.get s key ≡ stored elements)

  -- A reply and the store behind it, as the list machine has them.
  abbrev pub Simulates : Text × List Text → Result Text × K.Store → Type 0
  Simulates (reply, elements) (r, s) = (r ≡ ok reply) × Represents elements s × Alive K now key s

  unfoldable pub run : ListCommand → Command K.Store Text
  run (ListCommand.push_front v) = lpush K now (codes "lpush" ∷ key ∷ v ∷ [])
  run (ListCommand.push_back v) = rpush K now (codes "rpush" ∷ key ∷ v ∷ [])
  run ListCommand.pop_first = lpop K now (codes "lpop" ∷ key ∷ [])
  run ListCommand.pop_last = rpop K now (codes "rpop" ∷ key ∷ [])
  run ListCommand.size = llen K now (codes "llen" ∷ key ∷ [])

module _ (K : KeyValue) (laws : IsMap K) (now : ℕ) (key : Text) where
  put_list :
      (e : Text) (elements : List Text) (s : K.Store)
      → All Element (e ∷ elements)
      → Represents K now key (e ∷ elements) (K.put s key (join (e ∷ elements) list_separator))
  unfolding join
  put_list e elements s ((lacks, full), rest) =
      (((lacks, full), rest), laws.get_put s key _ (full-append e _ full))

  -- A list is stored behind a push: the reply counts it.
  pushed :
      (e : Text) (elements : List Text) (s : K.Store) (value : Text)
      → value ≡ join (e ∷ elements) list_separator
      → All Element (e ∷ elements)
      → Alive K now key s
      → Simulates K now key
          (count (e ∷ elements), e ∷ elements)
          (ok (count_reply K now value), K.put s key value)
  pushed e elements s value same all alive = rw same (
    ap (λ xs. ok (integer (to_string_ℕ (length xs)))) (split-stored e elements all),
    put_list e elements s all,
    put-Alive K laws now key s alive _,
  )

  -- A list is stored behind a pop.
  popped :
      (elements : List Text) (s : K.Store) (reply : Text)
      → All Element elements
      → Alive K now key s
      → Simulates K now key
          (reply, elements)
          ((store_list K now key elements >>= λ u. return reply) s)
  popped [] s reply all alive =
      (refl, (tt, laws.get_remove s key), remove-Alive K laws now key s alive)
  popped (e ∷ elements) s reply all alive =
      (refl, put_list e elements s all, put-Alive K laws now key s alive _)

  lpush-Simulates :
      (v : Text) (elements : List Text) (s : K.Store)
      → Element v
      → Represents K now key elements s
      → Alive K now key s
      → Simulates K now key
          (apply (ListCommand.push_front v) elements)
          (run K now key (ListCommand.push_front v) s)
  unfolding apply run lpush expire_list_clean
  lpush-Simulates v [] s element (all, holds) (time, at, fresh) =
      rw (at, fresh, holds)
        (pushed v [] s v (unfold join joined_rest in sym (append-nil v)) (element, tt)
          (time, at, fresh))
  lpush-Simulates v (e ∷ elements) s element (((lacks, full), rest), holds) (time, at, fresh) =
      rw (at, fresh, holds, full-join e elements full)
        (pushed v (e ∷ elements) s _ (unfold join joined_rest in refl)
          (element, ((lacks, full), rest)) (time, at, fresh))

  rpush-Simulates :
      (v : Text) (elements : List Text) (s : K.Store)
      → Element v
      → Represents K now key elements s
      → Alive K now key s
      → Simulates K now key
          (apply (ListCommand.push_back v) elements)
          (run K now key (ListCommand.push_back v) s)
  unfolding apply run rpush expire_list_clean
  rpush-Simulates v [] s element (all, holds) (time, at, fresh) =
      rw (at, fresh, holds)
        (pushed v [] s v (unfold join joined_rest in sym (append-nil v)) (element, tt)
          (time, at, fresh))
  rpush-Simulates v (e ∷ elements) s element (((lacks, full), rest), holds) (time, at, fresh) =
      rw (at, fresh, holds, full-join e elements full)
        (pushed e (elements ++ (v ∷ [])) s _ (join-append e elements v)
          ((lacks, full), All-append Element elements v rest element) (time, at, fresh))

  lpop-Simulates :
      (elements : List Text) (s : K.Store)
      → Represents K now key elements s
      → Alive K now key s
      → Simulates K now key
          (apply ListCommand.pop_first elements)
          (run K now key ListCommand.pop_first s)
  unfolding apply run lpop expire_list_clean
  lpop-Simulates [] s (all, holds) (time, at, fresh) =
      rw (at, fresh, holds) (refl, (tt, holds), (time, at, fresh))
  lpop-Simulates (e ∷ elements) s (all, holds) (time, at, fresh) =
      rw (at, fresh, holds, split-stored e elements all)
        (popped elements s (bulk e) all.1 (time, at, fresh))

  rpop-Simulates :
      (elements : List Text) (s : K.Store)
      → Represents K now key elements s
      → Alive K now key s
      → Simulates K now key
          (apply ListCommand.pop_last elements)
          (run K now key ListCommand.pop_last s)
  unfolding apply run rpop expire_list_clean
  rpop-Simulates [] s (all, holds) (time, at, fresh) =
      rw (at, fresh, holds) (refl, (tt, holds), (time, at, fresh))
  rpop-Simulates (e ∷ elements) s (all, holds) (time, at, fresh) =
      rw (reverse-rest e elements, at, fresh, holds, split-stored e elements all)
        (popped (without_last e elements).0 s (bulk (without_last e elements).1)
          (without_last-Element e elements all) (time, at, fresh))

  llen-Simulates :
      (elements : List Text) (s : K.Store)
      → Represents K now key elements s
      → Alive K now key s
      → Simulates K now key (apply ListCommand.size elements) (run K now key ListCommand.size s)
  unfolding apply run llen expire_list_clean
  llen-Simulates [] s (all, holds) (time, at, fresh) =
      rw (at, fresh, holds) (unfold to_string_ℕ digits in refl, (tt, holds), (time, at, fresh))
  llen-Simulates (e ∷ elements) s (all, holds) (time, at, fresh) =
      rw (at, fresh, holds, split-stored e elements all) (refl, (all, holds), (time, at, fresh))

  run-Simulates :
      (c : ListCommand) (elements : List Text) (s : K.Store)
      → IsElement c
      → Represents K now key elements s
      → Alive K now key s
      → Simulates K now key (apply c elements) (run K now key c s)
  run-Simulates (ListCommand.push_front v) elements s fits = lpush-Simulates v elements s fits
  run-Simulates (ListCommand.push_back v) elements s fits = rpush-Simulates v elements s fits
  run-Simulates ListCommand.pop_first elements s fits = lpop-Simulates elements s
  run-Simulates ListCommand.pop_last elements s fits = rpop-Simulates elements s
  run-Simulates ListCommand.size elements s fits = llen-Simulates elements s

-- The list machine on a sequence of commands.
unfoldable pub apply_all : List ListCommand → List Text → List Text × List Text
apply_all [] elements = ([], elements)
apply_all (c ∷ commands) elements =
    let (reply, elements') = apply c elements in
    let (replies, elements'') = apply_all commands elements' in (reply ∷ replies, elements'')

module _ (K : KeyValue) (now : ℕ) (key : Text) where
  unfoldable pub run_all : List ListCommand → Command K.Store (List Text)
  run_all [] = return []
  run_all (c ∷ commands) = do
    reply ← run K now key c
    replies ← run_all commands
    return (reply ∷ replies)

module _ (K : KeyValue) (laws : IsMap K) (now : ℕ) (key : Text) where
  -- Any sequence of `lpush`, `rpush`, `lpop`, `rpop` and `llen` on one key replies what a list of texts would, when the
  -- store is a map, the key has a time to live that has not passed, and the elements are not empty and have no `#` in
  -- them; behind it the store holds the list that is left, still with its time to live.
  pub run_all-apply_all :
      (commands : List ListCommand) (elements : List Text) (s : K.Store)
      → All IsElement commands
      → Represents K now key elements s
      → Alive K now key s
      → ((run_all K now key commands s).0 ≡ ok (apply_all commands elements).0)
        × Represents K now key (apply_all commands elements).1 (run_all K now key commands s).1
        × Alive K now key (run_all K now key commands s).1
  unfolding run_all apply_all
  run_all-apply_all [] elements s _ holds alive = (refl, holds, alive)
  run_all-apply_all (c ∷ commands) elements s (fits, rest) holds alive =
      let (reply, holds', alive') = run-Simulates K laws now key c elements s fits holds alive in
      let (replies, holds'', alive'') =
        run_all-apply_all commands (apply c elements).1 (run K now key c s).1 rest holds' alive' in
      rw (reply, replies) (refl, holds'', alive'')
