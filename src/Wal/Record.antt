-- ===== src/Wal/Record.antt =====
-- src/wal/record.cpp, include/wal/record.h: a record of the write-ahead log, its encoded form and the
-- decoding of a log. `sizeof_record` is `sizeof(Record)`, which the record length counts in (88 with
-- the standard library that the build uses); `sizeof(op_type_)` is that of an `int`.
pub mod Decoding
pub mod RoundTrip
pub mod Padding
mod Tests
use lsm_tree_engine.Prelude.{
  ℕ, zero, suc, ◌+◌, ltb, if◌then◌else◌, List, [], ◌∷◌, ◌++◌, length, take, replicate, Option, none,
  some, Result, ok, err, ◌>>=◌, stuck,
}
use lsm_tree_engine.Bytes.{u16, to_bytes, load, load_int, store}

pub data OperationType : Type 0 where
  put remove commit rollback create : OperationType
  -- an `int` that names no enumerator
  other : ℕ → OperationType

pub record Record : Type 0 where
  pub tranc_id : ℕ
  pub op_type : OperationType
  pub key : List ℕ
  pub value : List ℕ
  pub record_len : ℕ

-- The enumerators as `int`s, in the order of `enum class OperationType`.
pub op_code : OperationType → ℕ
op_code put = 0
op_code remove = 1
op_code commit = 2
op_code rollback = 3
op_code create = 4
op_code (other n) = n

pub op_of : ℕ → OperationType
op_of zero = put
op_of (suc zero) = remove
op_of (suc (suc zero)) = commit
op_of (suc (suc (suc zero))) = rollback
op_of (suc (suc (suc (suc zero)))) = create
op_of n = other n

module _ (sizeof_record : ℕ) where
  -- `createRecord`, `rollbackRecord` and `commitRecord`.
  pub bare_record : OperationType → ℕ → Record
  bare_record op_type tranc_id = record {
    tranc_id = tranc_id;
    op_type = op_type;
    key = [];
    value = [];
    record_len = u16 (2 + 8 + sizeof_record);
  }

  pub create_record : ℕ → Record
  create_record = bare_record create

  pub rollback_record : ℕ → Record
  rollback_record = bare_record rollback

  pub commit_record : ℕ → Record
  commit_record = bare_record commit

  -- `putRecord` ends without a `return`: `no_return` is what the caller gets instead of the local
  -- record.
  pub put_record : (Record → Record) → ℕ → List ℕ → List ℕ → Record
  put_record no_return tranc_id key value = no_return (record {
    tranc_id = tranc_id;
    op_type = put;
    key = key;
    value = value;
    record_len = u16 (2 + 8 + sizeof_record + 2 + length key + 2 + length value);
  })

  pub delete_record : ℕ → List ℕ → Record
  delete_record tranc_id key = record {
    tranc_id = tranc_id;
    op_type = remove;
    key = key;
    value = [];
    record_len = u16 (2 + 8 + sizeof_record + 2 + length key);
  }

-- The key part that `encode` writes for a put and for a delete.
pub store_key : List ℕ → Record → Result (List ℕ)
store_key e r = do
  e₁ ← store e 14 (to_bytes 2 (u16 (length r.key)))
  store e₁ 16 (take (u16 (length r.key)) r.key)

-- `memcpy(…, &value_, value_len)` copies from the address of the `std::string` object: `object` is
-- what memory holds from there on.
pub store_value : (Record → List ℕ) → List ℕ → Record → Result (List ℕ)
store_value object e r = do
  let key_len = u16 (length r.key)
  let value_len = u16 (length r.value)
  e₁ ← store e (14 + 2 + key_len) (to_bytes 2 value_len)
  raw ← load (object r) 0 value_len
  store e₁ (14 + 2 + key_len + 2) raw

pub store_body : (Record → List ℕ) → List ℕ → Record → OperationType → Result (List ℕ)
store_body object e r put = do e₁ ← store_key e r; store_value object e₁ r
store_body object e r remove = store_key e r
store_body object e r commit = ok e
store_body object e r rollback = ok e
store_body object e r create = ok e
store_body object e r (other n) = ok e

pub encode : (Record → List ℕ) → Record → Result (List ℕ)
encode object r = do
  e₁ ← store (replicate r.record_len 0) 0 (to_bytes 2 r.record_len)
  e₂ ← store e₁ 2 (to_bytes 8 r.tranc_id)
  e₃ ← store e₂ 10 (to_bytes 4 (op_code r.op_type))
  store_body object e₃ r r.op_type

-- One round of `decode`: the record at `pos`, and where it ends.
pub decode_body : List ℕ → ℕ → Record → OperationType → Result (Record × ℕ)
decode_body xs pos r put = do
  key_len ← load_int 2 xs pos
  key ← load xs (pos + 2) key_len
  value_len ← load_int 2 xs (pos + 2 + key_len)
  value ← load xs (pos + 2 + key_len + 2) value_len
  ok (record r { key = key; value = value }, pos + 2 + key_len + 2 + value_len)
decode_body xs pos r remove = do
  key_len ← load_int 2 xs pos
  key ← load xs (pos + 2) key_len
  ok (record r { key = key }, pos + 2 + key_len)
decode_body xs pos r commit = ok (r, pos)
decode_body xs pos r rollback = ok (r, pos)
decode_body xs pos r create = ok (r, pos)
decode_body xs pos r (other n) = ok (r, pos)

pub decode_one : List ℕ → ℕ → Result (Record × ℕ)
decode_one xs pos = do
  record_len ← load_int 2 xs pos
  tranc_id ← load_int 8 xs (pos + 2)
  op ← load_int 4 xs (pos + 2 + 8)
  decode_body xs (pos + 2 + 8 + 4)
      (record {
        tranc_id = tranc_id;
        op_type = op_of op;
        key = [];
        value = [];
        record_len = record_len;
      })
      (op_of op)

-- `while (pos < data.size())`, on fuel.
pub decode_loop : ℕ → List ℕ → ℕ → List Record → Result (List Record)
decode_loop zero xs pos records = err stuck
decode_loop (suc fuel) xs pos records =
    let round = (do
      (r, next) ← decode_one xs pos
      decode_loop fuel xs next (records ++ (r ∷ []))) in
    if ltb pos (length xs) then round else ok records

-- A round takes 14 bytes at least, so a round for each byte and one more are enough.
pub decode : List ℕ → Result (List Record)
decode xs = if ltb (length xs) 11 then ok [] else decode_loop (suc (length xs)) xs 0 []
