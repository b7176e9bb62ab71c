-- ===== src/Bytes/Layout.antt =====
-- How reads and writes of byte vectors meet: integers read back, and a vector that is filled from
-- the left by consecutive writes.
use lsm_tree_engine.Prelude.{
  avoids, stuck, ◌≢◌, ℕ, zero, suc, ◌+◌, ◌-◌, ◌*◌, ◌/◌, ◌^◌, ◌≤◌, ◌<◌, ◌≡◌, refl, sym, ap, le→leb,
  lt→leb, List, [], ◌∷◌, ◌++◌, length, replicate, All, ok, err, out_of_bounds, arith, length-append,
  length-replicate, take-append, drop-append, drop-append_add, drop-replicate, append-nil,
  append_assoc,
}
use native.Mathlib.Nat.{pow-suc}
use lsm_tree_engine.Bytes.{
  IsByte, to_bytes, from_bytes, load, load_int, store, ints_to_bytes, ints_from_bytes,
}

pub length-to_bytes : (w v : ℕ) → length (to_bytes w v) ≡ w
unfolding to_bytes
length-to_bytes zero v = refl
length-to_bytes (suc w) v = ap suc (length-to_bytes w (v / 256))

pub to_bytes-IsByte : (w v : ℕ) → All IsByte (to_bytes w v)
unfolding to_bytes
to_bytes-IsByte zero v = tt
to_bytes-IsByte (suc w) v = (omega arith, to_bytes-IsByte w (v / 256))

pub from_bytes-to_bytes : (w v : ℕ) → v < 256 ^ w → from_bytes (to_bytes w v) ≡ v
unfolding to_bytes from_bytes
from_bytes-to_bytes zero v h = omega arith
from_bytes-to_bytes (suc w) v h =
    let small : v / 256 < 256 ^ w = omega (arith, pow-suc 256 w) in
    omega (arith, from_bytes-to_bytes w (v / 256) small)

-- A read of exactly the middle part.
pub load-append :
    (front mid back : List ℕ) (pos n : ℕ)
    → pos ≡ length front
    → n ≡ length mid
    → load (front ++ (mid ++ back)) pos n ≡ ok mid
unfolding load
load-append front mid back pos n hp hn =
    rw
      (
        drop-append front (mid ++ back) pos hp,
        take-append mid back n hn,
        le→leb (pos + n) (length (front ++ (mid ++ back)))
            (rw (length-append front (mid ++ back), length-append mid back) (omega arith)),
      )
      refl

pub load_beyond :
    (xs : List ℕ) (pos n : ℕ) → length xs < pos + n → load xs pos n ≡ err out_of_bounds
unfolding load
load_beyond xs pos n h = rw (lt→leb (pos + n) (length xs) h)

pub load_int_beyond :
    (w : ℕ) (xs : List ℕ) (pos : ℕ) → length xs < pos + w → load_int w xs pos ≡ err out_of_bounds
unfolding load_int
load_int_beyond w xs pos h = rw (load_beyond xs pos w h) refl

pub load_int-to_bytes :
    (w v : ℕ) (front back : List ℕ) (pos : ℕ)
    → pos ≡ length front
    → v < 256 ^ w
    → load_int w (front ++ (to_bytes w v ++ back)) pos ≡ ok v
unfolding load_int
load_int-to_bytes w v front back pos hp hv =
    rw
      (
        load-append front (to_bytes w v) back pos w hp (sym (length-to_bytes w v)),
        from_bytes-to_bytes w v hv,
      )
      refl

-- A write that fills a vector from the left: it turns the next zeros into what is written.
pub store_fill :
    (front bytes : List ℕ) (pos n : ℕ)
    → pos ≡ length front
    → length bytes ≤ n
    → store (front ++ replicate n 0) pos bytes
      ≡ ok ((front ++ bytes) ++ replicate (n - length bytes) 0)
unfolding store
store_fill front bytes pos n hp hn =
    rw
      (
        take-append front (replicate n 0) pos hp,
        drop-append_add front (replicate n 0) (pos + length bytes) (length bytes) (omega arith),
        drop-replicate {A = ℕ} n (length bytes) 0,
        le→leb (pos + length bytes) (length (front ++ replicate n 0))
            (rw (length-append front (replicate n 0), length-replicate {A = ℕ} n 0) (omega arith)),
        append_assoc,
      )
      refl

-- The last such write leaves no zeros.
pub store_last :
    (front bytes : List ℕ) (pos n : ℕ)
    → pos ≡ length front
    → length bytes ≡ n
    → store (front ++ replicate n 0) pos bytes ≡ ok (front ++ bytes)
store_last front bytes pos n hp hn =
    let none_left : n - length bytes ≡ 0 = omega arith in
    rw (store_fill front bytes pos n hp (omega arith), none_left, append-nil) refl

pub store_beyond :
    (xs bytes : List ℕ) (pos : ℕ)
    → length xs < pos + length bytes
    → store xs pos bytes ≡ err out_of_bounds
unfolding store
store_beyond xs bytes pos h = rw (lt→leb (pos + length bytes) (length xs) h)

pub length-ints_to_bytes : (w : ℕ) (vs : List ℕ) → length (ints_to_bytes w vs) ≡ w * length vs
unfolding ints_to_bytes
length-ints_to_bytes w [] = omega arith
length-ints_to_bytes w (v ∷ vs) =
    rw (length-append (to_bytes w v) (ints_to_bytes w vs))
      (omega (arith, length-to_bytes w v, length-ints_to_bytes w vs))

pub ints_from_bytes-ints_to_bytes :
    (w : ℕ) (vs : List ℕ) (n : ℕ)
    → n ≡ length vs
    → All (λ v. v < 256 ^ w) vs
    → ints_from_bytes w n (ints_to_bytes w vs) ≡ vs
unfolding ints_to_bytes ints_from_bytes
ints_from_bytes-ints_to_bytes w [] zero e h = refl
ints_from_bytes-ints_to_bytes w [] (suc n) e h = absurd (omega arith)
ints_from_bytes-ints_to_bytes w (v ∷ vs) zero e h = absurd (omega arith)
ints_from_bytes-ints_to_bytes w (v ∷ vs) (suc n) e (hv, hvs) =
    rw
      (
        take-append (to_bytes w v) (ints_to_bytes w vs) w (sym (length-to_bytes w v)),
        drop-append (to_bytes w v) (ints_to_bytes w vs) w (sym (length-to_bytes w v)),
        from_bytes-to_bytes w v hv,
        ints_from_bytes-ints_to_bytes w vs n (omega arith) hvs,
      )
      refl

-- A read faults or succeeds.
pub load-ne-stuck : (xs : List ℕ) (pos n : ℕ) → load xs pos n ≢ err stuck
unfolding load
load-ne-stuck xs pos n e = ground arith

pub load_int-ne-stuck : (w : ℕ) (xs : List ℕ) (pos : ℕ) → load_int w xs pos ≢ err stuck
unfolding load_int
load_int-ne-stuck w xs pos = avoids stuck _ _ (load-ne-stuck xs pos w) λ bytes e. cc
