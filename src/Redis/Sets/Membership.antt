-- ===== src/Redis/Sets/Membership.antt =====
-- What `sadd` and `srem` (src/redis_wrapper/redis_wrapper.cpp) do to the members of a set and to its size.
use lsm_tree_engine.Prelude.{
  Bool-cases, inl, inr, sym, ap, ◌∙◌, refl, Option, ℕ, suc, ◌+◌, ◌^◌, ◌<◌, ◌≡◌, Bool, true, false,
  if◌then◌else◌, [], ◌∷◌, none, some, Result, ok,
}
use lsm_tree_engine.Redis.Sets.Laws.{
  observe, put_size, put_member, sismember_lem, expire-other, key-other, sadd_member, sadd_new,
  srem_member, srem_new,
}
use lsm_tree_engine.Prelude.Order.{eq_bytes_iff, eq_bytes}
use lsm_tree_engine.Redis.Keys.{get_expire_key, get_set_elem_key, integer}
use lsm_tree_engine.Prelude.Int.{pos}
use lsm_tree_engine.Redis.{Text, KeyValue, codes}
use lsm_tree_engine.Redis.Numbers.{to_string, to_string_ℕ}
use lsm_tree_engine.Redis.Commands.{has_value}
use lsm_tree_engine.Redis.Laws.{IsMap, Alive}
use lsm_tree_engine.Redis.Sets.{sadd, srem, sismember, scard}

-- Whether an element is in a set, as 0 or 1.
abbrev pub yes_no : Bool → Text
yes_no b = integer (if b then codes "1" else codes "0")

choose_reply :
    (b there : Bool)
    → ◌≡◌ {A = Result Text}
        (ok (yes_no (if b then true else there)))
        (if b then ok (yes_no true) else ok (yes_no there))
choose_reply true there = refl
choose_reply false there = refl

module _ (K : KeyValue) (laws : IsMap K) (now : ℕ) (name key elem : Text) (s s' : K.Store)
    (n : ℕ) where
  was_member :
      (v elem' : Text)
      → K.get s (get_set_elem_key key elem) ≡ some v
      → has_value (K.get s (get_set_elem_key key elem'))
        ≡ (if eq_bytes elem elem' then true else has_value (K.get s (get_set_elem_key key elem')))
  was_member v elem' member = elim (Bool-cases (eq_bytes elem elem')) [
    | inl same ↦ rw (same, ← ((eq_bytes_iff elem elem').0 same), member) refl
    | inr differ ↦ rw differ refl
  ]

  -- What a store shows that has the elements of the other one and perhaps one more.
  shows :
      (elem' size : Text)
      → Alive K now key s
      → K.get s' (get_expire_key key) ≡ K.get s (get_expire_key key)
      → K.get s' key ≡ some size
      → has_value (K.get s' (get_set_elem_key key elem'))
        ≡ (if eq_bytes elem elem' then true else has_value (K.get s (get_set_elem_key key elem')))
      → ((sismember K now (name ∷ key ∷ elem' ∷ []) s').0 ≡ (
          if eq_bytes elem elem'
          then ok (yes_no true)
          else (sismember K now (name ∷ key ∷ elem' ∷ []) s).0))
        × ((scard K now (name ∷ key ∷ []) s').0 ≡ ok (integer size))
  shows elem' size alive kept sized member =
      let (found, counted) =
        observe K laws now name key s s' size elem' _ alive kept sized member in
      (
        rw (sismember_lem K now name key s elem' alive) (
            found
            ∙ choose_reply (eq_bytes elem elem')
                (has_value (K.get s (get_set_elem_key key elem')))),
        counted,
      )

  sadd-sismember_by :
      (found : Option Text) (elem' : Text)
      → n + 1 < 2 ^ 31
      → Alive K now key s
      → K.get s key ≡ some (to_string (pos n))
      → K.get s (get_set_elem_key key elem) ≡ found
      → (sadd K now (name ∷ key ∷ elem ∷ []) s).1 ≡ s'
      → ((sadd K now (name ∷ key ∷ elem ∷ []) s).0
          ≡ ok (integer (to_string_ℕ (if has_value found then 0 else 1))))
        × ((sismember K now (name ∷ key ∷ elem' ∷ []) s').0 ≡ (
            if eq_bytes elem elem'
            then ok (yes_no true)
            else (sismember K now (name ∷ key ∷ elem' ∷ []) s).0))
        × ((scard K now (name ∷ key ∷ []) s').0
            ≡ ok (integer (to_string (pos (if has_value found then n else 1 + n)))))
  sadd-sismember_by (some v) elem' small alive sized member after =
      let run = sadd_member K laws now name key elem s n small alive sized v member in
      let e : K.put_batch s ((key, to_string (pos n)) ∷ []) ≡ s' =
        ap (λ (p : Result Text × K.Store). p.1) (sym run) ∙ after in
      let (sized', kept, elements) = put_size K laws key s (pos n) elem' in
      let in_batch = laws.get_put_batch s ((key, to_string (pos n)) ∷ []) in
      let (found, counted) =
        shows elem' (to_string (pos n)) alive (rw (← e) (in_batch _ ∙ kept))
          (rw (← e) (in_batch key ∙ sized'))
          (rw (← e) (ap has_value (in_batch _ ∙ elements) ∙ was_member v elem' member)) in
      (rw run refl, found, counted)
  sadd-sismember_by none elem' small alive sized new after =
      let run = sadd_new K laws now name key elem s n small alive sized new in
      let s₁ = K.put s (get_set_elem_key key elem) (codes "1") in
      let kvs = (get_set_elem_key key elem, codes "1") ∷ (key, to_string (pos (1 + n))) ∷ [] in
      let e : K.put_batch s kvs ≡ s' = ap (λ (p : Result Text × K.Store). p.1) (sym run) ∙ after in
      let (sized', kept, elements) = put_size K laws key s₁ (pos (1 + n)) elem' in
      let in_batch = laws.get_put_batch s kvs in
      let kept' = kept ∙ laws.get_put_other s _ _ (codes "1") (expire-other K laws key elem) in
      let (found, counted) =
        shows elem' (to_string (pos (1 + n))) alive (rw (← e) (in_batch _ ∙ kept'))
          (rw (← e) (in_batch key ∙ sized'))
          (rw (← e) (ap has_value (in_batch _ ∙ elements) ∙ put_member K laws key s elem elem')) in
      (rw run refl, found, counted)

  srem-sismember_by :
      (found : Option Text) (m : ℕ)
      → n ≡ suc m
      → n + 1 < 2 ^ 31
      → Alive K now key s
      → K.get s key ≡ some (to_string (pos n))
      → K.get s (get_set_elem_key key elem) ≡ found
      → (srem K now (name ∷ key ∷ elem ∷ []) s).1 ≡ s'
      → ((srem K now (name ∷ key ∷ elem ∷ []) s).0
          ≡ ok (integer (to_string_ℕ (if has_value found then 0 else 1))))
        × ((sismember K now (name ∷ key ∷ elem ∷ []) s').0
            ≡ (sismember K now (name ∷ key ∷ elem ∷ []) s).0)
        × ((scard K now (name ∷ key ∷ []) s').0
            ≡ ok (integer (to_string (pos (if has_value found then n else m)))))
  srem-sismember_by (some v) m more small alive sized member after =
      let run = srem_member K laws now name key elem s n small alive sized v member in
      let e : K.remove_batch (K.put s key (to_string (pos n))) [] ≡ s' =
        ap (λ (p : Result Text × K.Store). p.1) (sym run) ∙ after in
      let (sized', kept, elements) = put_size K laws key s (pos n) elem in
      let in_batch = laws.get_remove_batch (K.put s key (to_string (pos n))) [] in
      let (found, counted) =
        observe K laws now name key s s' (to_string (pos n)) elem _ alive
          (rw (← e) (in_batch _ ∙ kept)) (rw (← e) (in_batch key ∙ sized'))
          (rw (← e) (ap has_value (in_batch _ ∙ elements))) in
      (
        rw run refl,
        found
            ∙ sym (
                ap (λ (p : Result Text × K.Store). p.0)
                  (sismember_lem K now name key s elem alive)),
        counted,
      )
  srem-sismember_by none m more small alive sized new after =
      let run = srem_new K laws now name key elem s n small alive sized m more new in
      let s₁ = K.put s key (to_string (pos m)) in
      let e : K.remove_batch s₁ (get_set_elem_key key elem ∷ []) ≡ s' =
        ap (λ (p : Result Text × K.Store). p.1) (sym run) ∙ after in
      let (sized', kept, elements) = put_size K laws key s (pos m) elem in
      let in_batch = laws.get_remove_batch s₁ (get_set_elem_key key elem ∷ []) in
      let (found, counted) =
        observe K laws now name key s s' (to_string (pos m)) elem _ alive
          (rw (← e)
            (in_batch _ ∙ laws.get_remove_other s₁ _ _ (expire-other K laws key elem) ∙ kept))
          (rw (← e)
            (in_batch key ∙ laws.get_remove_other s₁ _ _ (key-other K laws key elem) ∙ sized'))
          (rw (← e) (ap has_value (in_batch _ ∙ laws.get_remove s₁ _ ∙ sym new))) in
      (
        rw run refl,
        found
            ∙ sym (
                ap (λ (p : Result Text × K.Store). p.0)
                  (sismember_lem K now name key s elem alive)),
        counted,
      )

  -- Behind `sadd` of one element the set has that element and every element that it had, and no other; the reply and the
  -- size that `scard` replies count it if it was not there. For a store that is a map, a key with a time to live that
  -- has not passed, and a size that stays below 2^31.
  pub sadd-sismember :
      (elem' : Text)
      → n + 1 < 2 ^ 31
      → Alive K now key s
      → K.get s key ≡ some (to_string (pos n))
      → (sadd K now (name ∷ key ∷ elem ∷ []) s).1 ≡ s'
      → ((sadd K now (name ∷ key ∷ elem ∷ []) s).0
          ≡ ok (
              integer
                (to_string_ℕ (if has_value (K.get s (get_set_elem_key key elem)) then 0 else 1))))
        × ((sismember K now (name ∷ key ∷ elem' ∷ []) s').0 ≡ (
            if eq_bytes elem elem'
            then ok (yes_no true)
            else (sismember K now (name ∷ key ∷ elem' ∷ []) s).0))
        × ((scard K now (name ∷ key ∷ []) s').0
            ≡ ok (
                integer (
                  to_string
                    (pos (if has_value (K.get s (get_set_elem_key key elem)) then n else 1 + n)))))
  sadd-sismember elem' small alive sized after =
      sadd-sismember_by (K.get s (get_set_elem_key key elem)) elem' small alive sized refl after

  -- `srem` of one element never changes whether the element is in the set: one that is in it stays and is not counted,
  -- and one that is not in it is counted, and taken off the size that `scard` replies. For a store that is a map, a key
  -- with a time to live that has not passed, and a size between 1 and 2^31 - 2.
  pub srem-sismember :
      (m : ℕ)
      → n ≡ suc m
      → n + 1 < 2 ^ 31
      → Alive K now key s
      → K.get s key ≡ some (to_string (pos n))
      → (srem K now (name ∷ key ∷ elem ∷ []) s).1 ≡ s'
      → ((srem K now (name ∷ key ∷ elem ∷ []) s).0
          ≡ ok (
              integer
                (to_string_ℕ (if has_value (K.get s (get_set_elem_key key elem)) then 0 else 1))))
        × ((sismember K now (name ∷ key ∷ elem ∷ []) s').0
            ≡ (sismember K now (name ∷ key ∷ elem ∷ []) s).0)
        × ((scard K now (name ∷ key ∷ []) s').0
            ≡ ok (
                integer (
                  to_string
                    (pos (if has_value (K.get s (get_set_elem_key key elem)) then n else m)))))
  srem-sismember m more small alive sized after =
      srem-sismember_by (K.get s (get_set_elem_key key elem)) m more small alive sized refl after
