-- ===== src/Serialization/Codec.antt =====
-- Each writer of utils/src/connection/serialization.c appends the encoding of its value, and each
-- reader takes that encoding back.
use tp_sistemas_operativos.Base.{
  ℕ, ◌+◌, ◌%◌, ◌^◌, ◌≤◌, ◌<◌, ◌≡◌, refl, ap, ◌∙◌, Bool, true, false, Option, some, List, [], ◌∷◌,
  ◌++◌, arith, length, take, take_all, ◌==◌,
}
use tp_sistemas_operativos.Serialization.Buffer.{
  Buffer, M, pure, ◌>>=◌, max_string_length, max_data_size, wrap64,
}
use tp_sistemas_operativos.Serialization.Capacity.{IsValid}
use tp_sistemas_operativos.Serialization.Fields.{
  be16, be32, from_be, as_number, read_bytes, buffer_read_uint8, buffer_read_int8,
  buffer_read_uint16, buffer_read_uint32, buffer_read_string, buffer_read_data, buffer_write_string,
  buffer_write_data,
}
use tp_sistemas_operativos.Serialization.Writes.{Appends, write_counted-Appends}
use tp_sistemas_operativos.Serialization.Reads.{
  Reads, pending, read_bytes-Reads, string_body-Reads, data_body-Reads,
}

-- The length of a string, truncated to a uint32_t, is its length.
module _ (alloc : ℕ → Bool) (b : Buffer) (v : IsValid b) where
  pub write_string-Appends :
      (s : List ℕ)
      → length s < 2 ^ 32
      → Appends (alloc 0) (be32 (length s) ++ s) b (buffer_write_string alloc s b)
  unfolding buffer_write_string
  write_string-Appends s small =
      let e : length s % 2 ^ 32 ≡ length s = omega arith in
      let t : take (length s) s ≡ s = take_all (length s) s (omega arith) in
      rw (e, t) (write_counted-Appends alloc b v (4 + length s) s (omega arith) (omega arith))

  pub write_data-Appends :
      (s : List ℕ)
      → 0 < length s
      → length s < 2 ^ 32
      → Appends (alloc 0) (be32 (length s) ++ s) b (buffer_write_data alloc s b)
  unfolding buffer_write_data
  write_data-Appends s some_bytes small =
      let e : length s % 2 ^ 32 ≡ length s = omega arith in
      let w : wrap64 (4 + length s) ≡ 4 + length s = omega arith in
      let z : (length s == 0) ≡ false = ground arith in
      rw (z, w, e) (write_counted-Appends alloc b v (4 + length s) s (omega arith) (omega arith))

module _ {A B : Type 0} {x : A} {y : B} {rest rest' : List ℕ} (b : Buffer) (m : M (Option A))
    (k : Option A → M (Option B)) where
  pub Reads-bind :
      (r : Reads x rest b (m b))
      → Reads y rest' r.after (k (some x) r.after)
      → Reads y rest' b ((m >>= k) b)
  Reads-bind r s =
      rw (r.returns, ◌>>=◌)
        (record {
          after = s.after;
          returns = s.returns;
          valid = s.valid;
          remains = s.remains;
          keeps = (s.keeps.0 ∙ r.keeps.0, s.keeps.1 ∙ r.keeps.1);
        })

from_be-be32 : (value : ℕ) → value < 2 ^ 32 → from_be 0 (be32 value) ≡ value
from_be-be32 value small = omega arith

module _ (b : Buffer) (v : IsValid b) (rest : List ℕ) where
  -- A number whose bytes are next.
  read_number-Reads :
      (bytes : List ℕ) (value : ℕ)
      → from_be 0 bytes ≡ value
      → pending b ≡ bytes ++ rest
      → Reads value rest b ((do x ← read_bytes (length bytes); pure (as_number x)) b)
  read_number-Reads bytes value decoded e =
      let r : Reads bytes rest b (read_bytes (length bytes) b) =
        read_bytes-Reads b v bytes rest e in
      Reads-bind b (read_bytes (length bytes)) (λ x. pure (as_number x)) r
        (record {
          after = r.after;
          returns = ap (λ (n : ℕ). some (some n, r.after)) decoded;
          valid = r.valid;
          remains = r.remains;
          keeps = (refl, refl);
        })

  pub read_uint8-Reads :
      (value : ℕ)
      → value < 2 ^ 8
      → pending b ≡ value ∷ rest
      → Reads value rest b (buffer_read_uint8 b)
  unfolding buffer_read_uint8
  read_uint8-Reads value small e = read_number-Reads (value ∷ []) value (omega arith) e

  pub read_int8-Reads :
      (value : ℕ)
      → value < 2 ^ 8
      → pending b ≡ value ∷ rest
      → Reads value rest b (buffer_read_int8 b)
  unfolding buffer_read_int8
  read_int8-Reads value small e = read_number-Reads (value ∷ []) value (omega arith) e

  pub read_uint16-Reads :
      (value : ℕ)
      → value < 2 ^ 16
      → pending b ≡ be16 value ++ rest
      → Reads value rest b (buffer_read_uint16 b)
  unfolding buffer_read_uint16
  read_uint16-Reads value small e = read_number-Reads (be16 value) value (omega arith) e

  pub read_uint32-Reads :
      (value : ℕ)
      → value < 2 ^ 32
      → pending b ≡ be32 value ++ rest
      → Reads value rest b (buffer_read_uint32 b)
  unfolding buffer_read_uint32
  read_uint32-Reads value small e =
      read_number-Reads (be32 value) value (from_be-be32 value small) e

module _ (b : Buffer) (v : IsValid b) (rest : List ℕ) where
  pub read_string-Reads :
      (alloc : ℕ → Bool) (s : List ℕ)
      → alloc 0 ≡ true
      → length s ≤ max_string_length
      → pending b ≡ be32 (length s) ++ (s ++ rest)
      → Reads s rest b (buffer_read_string alloc b)
  unfolding buffer_read_string
  read_string-Reads alloc s granted small e =
      let r : Reads (length s) (s ++ rest) b (buffer_read_uint32 b) =
        read_uint32-Reads b v (s ++ rest) (length s) (omega arith) e in
      Reads-bind b buffer_read_uint32 _ r
        (string_body-Reads r.after r.valid s rest r.remains alloc granted small)

  pub read_data-Reads :
      (alloc : ℕ → Bool) (s : List ℕ)
      → alloc 1 ≡ true
      → length s ≤ max_data_size
      → pending b ≡ be32 (length s) ++ (s ++ rest)
      → Reads s rest b (buffer_read_data alloc b)
  unfolding buffer_read_data
  read_data-Reads alloc s granted small e =
      let r : Reads (length s) (s ++ rest) b (buffer_read_uint32 b) =
        read_uint32-Reads b v (s ++ rest) (length s) (omega arith) e in
      Reads-bind b buffer_read_uint32 _ r
        (data_body-Reads r.after r.valid s rest r.remains alloc granted small)
