-- ===== src/Redis/Commands/Lifetime.antt =====
-- The time to live of a key (src/redis_wrapper/redis_wrapper.cpp).
use lsm_tree_engine.Prelude.Int.{sub_pos, add_pos, pos}
use lsm_tree_engine.Prelude.{
  Bool-cases, inl, inr, ◌-◌, if◌then◌else◌, ltb, ap, sym, ◌∙◌, ℕ, ◌+◌, ◌<◌, ◌^◌, ◌≡◌, refl, false,
  lt→ltb, [], ◌∷◌, Option, none, some, Result, ok, arith,
}
use lsm_tree_engine.Redis.{codes, is_empty_text, Text, KeyValue}
use lsm_tree_engine.Redis.Keys.{integer, bulk, null_reply, get_expire_key}
use lsm_tree_engine.Redis.Numbers.RoundTrip.{is_empty_text-to_string, stoll-to_string}
use lsm_tree_engine.Redis.Laws.{key-ne-get_expire_key, IsMap}
use lsm_tree_engine.Redis.Commands.{ttl, set, get, expire, is_expired, get_expire_time}
use lsm_tree_engine.Redis.Numbers.{to_string, to_string_ℕ, stoll}

read_ℕ : (n : ℕ) → n < 2 ^ 63 → stoll (to_string_ℕ n) ≡ ok (pos n)
unfolding to_string
read_ℕ n fits = stoll-to_string (pos n) (lt→ltb n (2 ^ 63) fits)

deadline-is_expired :
    (time now : ℕ) → time < 2 ^ 63 → is_expired now (to_string_ℕ time) ≡ ok (ltb time now)
unfolding is_expired
deadline-is_expired time now fits = rw (read_ℕ time fits, is_expired) (ap ok (ground arith))

module _ (K : KeyValue) (laws : IsMap K) (name key : Text) where
  expire-deadline :
      (start seconds : ℕ) (s : K.Store)
      → start + seconds < 2 ^ 63
      → expire K start (name ∷ key ∷ to_string_ℕ seconds ∷ []) s
        ≡ (ok (integer (codes "1")), K.put s (get_expire_key key) (to_string_ℕ (start + seconds)))
  unfolding expire get_expire_time to_string
  expire-deadline start seconds s fits =
      rw
        (
          read_ℕ seconds (omega arith),
          add_pos start seconds,
          lt→ltb (start + seconds) (2 ^ 63) fits,
        )
        refl

  module _ (time now : ℕ) (value : Text) (s : K.Store) (fits : time < 2 ^ 63)
      (holds : K.get s key ≡ some value)
      (limit : K.get s (get_expire_key key) ≡ some (to_string_ℕ time)) where
    get-deadline : get K now (name ∷ key ∷ []) s ≡ (
        if ltb time now
        then (ok null_reply, K.remove (K.remove s key) (get_expire_key key))
        else (ok (bulk value), s))
    unfolding get
    get-deadline = elim (Bool-cases (ltb time now)) [
      | inl late ↦ rw (holds, limit, deadline-is_expired time now fits, late) refl
      | inr early ↦ rw (holds, limit, deadline-is_expired time now fits, early) refl
    ]

    ttl-deadline :
        ttl K now (name ∷ key ∷ []) s
        ≡ (ok (integer (if ltb time now then codes "-2" else to_string_ℕ (time - now))), s)
    unfolding ttl to_string
    ttl-deadline = elim (Bool-cases (ltb time now)) [
      | inl late ↦ rw (holds, limit, deadline-is_expired time now fits, late) refl
      | inr early ↦
          rw
            (
              holds,
              limit,
              deadline-is_expired time now fits,
              early,
              read_ℕ time fits,
              sub_pos time now (ground arith),
              lt→ltb (time - now) (2 ^ 63) (omega arith),
            )
            refl
    ]

  -- A key that `expire` gives a number of seconds is found until they have passed: a `get` at the time `now` behind an
  -- `expire` at the time `start` replies the value up to and including the time `start + seconds`, and after it nothing,
  -- and removes the key and its time to live; `ttl` replies the seconds that are left, or -2. For a store that is a map,
  -- a key with a value, and a deadline that is a `long long`.
  pub expire-get-ttl :
      (start seconds now : ℕ) (value : Text) (s s' : K.Store)
      → start + seconds < 2 ^ 63
      → K.get s key ≡ some value
      → (expire K start (name ∷ key ∷ to_string_ℕ seconds ∷ []) s).1 ≡ s'
      → (get K now (name ∷ key ∷ []) s' ≡ (
          if ltb (start + seconds) now
          then (ok null_reply, K.remove (K.remove s' key) (get_expire_key key))
          else (ok (bulk value), s')))
        × (ttl K now (name ∷ key ∷ []) s' ≡ (
          ok (
              integer (
                if ltb (start + seconds) now
                then codes "-2"
                else to_string_ℕ (start + seconds - now))),
          s',
        ))
  expire-get-ttl start seconds now value s s' fits holds after =
      let e : K.put s (get_expire_key key) (to_string_ℕ (start + seconds)) ≡ s' =
        ap (λ (p : Result Text × K.Store). p.1) (sym (expire-deadline start seconds s fits))
        ∙ after in
      let holds' : K.get s' key ≡ some value =
        rw (← e)
          (laws.get_put_other s _ key _ (λ same. key-ne-get_expire_key key (sym same)) ∙ holds) in
      let limit : K.get s' (get_expire_key key) ≡ some (to_string_ℕ (start + seconds)) = rw (← e) (
        laws.get_put s _ _ (unfold to_string in is_empty_text-to_string (pos (start + seconds)))) in
      (
        get-deadline (start + seconds) now value s' fits holds' limit,
        ttl-deadline (start + seconds) now value s' fits holds' limit,
      )

  get_unlimited :
      (now : ℕ) (value : Text) (s : K.Store)
      → K.get s key ≡ some value
      → K.get s (get_expire_key key) ≡ none
      → get K now (name ∷ key ∷ []) s ≡ (ok (bulk value), s)
  unfolding get
  get_unlimited now value s holds limit = rw (holds, limit) refl

  -- The key that `set` has put, with what stood for its time to live.
  set_limit :
      (before : ℕ) (value : Text) (s : K.Store) (limit : Option Text)
      → is_empty_text value ≡ false
      → K.get (K.put s key value) (get_expire_key key) ≡ limit
      → (K.get (set K before (name ∷ key ∷ value ∷ []) s).1 key ≡ some value)
        × (K.get (set K before (name ∷ key ∷ value ∷ []) s).1 (get_expire_key key) ≡ none)
  unfolding set
  set_limit before value s none full limit = rw limit (laws.get_put s key value full, limit)
  set_limit before value s (some time) full limit = rw limit (
    laws.get_remove_other _ _ key (λ same. key-ne-get_expire_key key (sym same))
        ∙ laws.get_put s key value full,
    laws.get_remove _ _,
  )

  -- Behind a `set` the key is found at every time, whatever time to live it had: when the store is a map and the value
  -- is not empty.
  pub set-get :
      (before now : ℕ) (value : Text) (s s' : K.Store)
      → is_empty_text value ≡ false
      → (set K before (name ∷ key ∷ value ∷ []) s).1 ≡ s'
      → get K now (name ∷ key ∷ []) s' ≡ (ok (bulk value), s')
  set-get before now value s s' full after =
      let (holds, limit) = set_limit before value s _ full refl in
      rw (← after) (get_unlimited now value _ holds limit)
