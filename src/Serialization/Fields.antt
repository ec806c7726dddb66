-- ===== src/Serialization/Fields.antt =====
-- utils/src/connection/serialization.c: the writers and readers of fields. A number of w bits is a
-- natural number below 2 ^ w (an int8_t is its bit pattern), a C string is the list of its bytes
-- before the terminator, and a value that is read is `none` where the C function returns false or
-- a null pointer.
use tp_sistemas_operativos.Base.{
  ℕ, ◌+◌, ◌-◌, ◌*◌, ◌/◌, ◌%◌, ◌^◌, Bool, false, not, ◌&&◌, ◌||◌, Option, none, some, List, [], ◌∷◌,
  ltb, ◌==◌, if◌then◌else◌, length, take,
}
use tp_sistemas_operativos.Serialization.Buffer.{
  M, pure, ◌>>=◌, max_string_length, max_data_size, buffer_check_capacity, buffer_has_capacity, put,
  fetch, wrap64,
}

-- Network byte order: htons, htonl, ntohs and ntohl with the memcpy beside them.
abbrev pub be16 : ℕ → List ℕ
be16 v = v / 256 % 256 ∷ v % 256 ∷ []

abbrev pub be32 : ℕ → List ℕ
be32 v = v / 2 ^ 24 % 256 ∷ v / 2 ^ 16 % 256 ∷ v / 2 ^ 8 % 256 ∷ v % 256 ∷ []

-- The number that big-endian bytes stand for.
abbrev pub from_be : ℕ → List ℕ → ℕ
from_be acc [] = acc
from_be acc (x ∷ xs) = from_be (acc * 256 + x) xs

-- A writer of bytes: the test of the capacity, the copy, the advance of the offset.
unfoldable pub write_bytes : (ℕ → Bool) → List ℕ → M Bool
unfolding put
write_bytes alloc bytes = do
  granted ← buffer_has_capacity alloc (length bytes)
  if not granted then pure false else put bytes

unfoldable pub buffer_write_uint8 : (ℕ → Bool) → ℕ → M Bool
unfolding write_bytes
buffer_write_uint8 alloc value = write_bytes alloc (value ∷ [])

unfoldable pub buffer_write_int8 : (ℕ → Bool) → ℕ → M Bool
unfolding write_bytes
buffer_write_int8 alloc value = write_bytes alloc (value ∷ [])

unfoldable pub buffer_write_uint16 : (ℕ → Bool) → ℕ → M Bool
unfolding write_bytes
buffer_write_uint16 alloc value = write_bytes alloc (be16 value)

unfoldable pub buffer_write_uint32 : (ℕ → Bool) → ℕ → M Bool
unfolding write_bytes
buffer_write_uint32 alloc value = write_bytes alloc (be32 value)

-- The length first, then the bytes, both or none.
unfoldable pub buffer_write_string : (ℕ → Bool) → List ℕ → M Bool
unfolding put
buffer_write_string alloc value = do
  let str_length = length value % 2 ^ 32
  granted ← buffer_has_capacity alloc (4 + str_length)
  if not granted then pure false else do
    written ← buffer_write_uint32 (λ k. alloc (1 + k)) str_length
    if not written then pure false else put (take str_length value)

unfoldable pub buffer_write_data : (ℕ → Bool) → List ℕ → M Bool
unfolding put
buffer_write_data alloc bytes = if length bytes == 0 then pure false else do
  granted ← buffer_has_capacity alloc (wrap64 (4 + length bytes))
  if not granted then pure false else do
    written ← buffer_write_uint32 (λ k. alloc (1 + k)) (length bytes % 2 ^ 32)
    if not written then pure false else put bytes

-- A reader of n bytes: the test, the copy, the advance of the offset.
unfoldable pub read_bytes : ℕ → M (Option (List ℕ))
unfolding fetch
read_bytes n b =
    if not (buffer_check_capacity b n)
    then some (none, b)
    else (do bytes ← fetch n; pure (some bytes)) b

abbrev pub as_number : Option (List ℕ) → Option ℕ
as_number none = none
as_number (some bytes) = some (from_be 0 bytes)

unfoldable pub buffer_read_uint8 : M (Option ℕ)
buffer_read_uint8 = do bytes ← read_bytes 1; pure (as_number bytes)

unfoldable pub buffer_read_int8 : M (Option ℕ)
buffer_read_int8 = do bytes ← read_bytes 1; pure (as_number bytes)

unfoldable pub buffer_read_uint16 : M (Option ℕ)
buffer_read_uint16 = do bytes ← read_bytes 2; pure (as_number bytes)

unfoldable pub buffer_read_uint32 : M (Option ℕ)
buffer_read_uint32 = do bytes ← read_bytes 4; pure (as_number bytes)

-- buffer->offset -= sizeof(uint32_t), where four bytes have just been read.
unfoldable pub rewind : M (Option (List ℕ))
rewind b = some (none, record b { offset = b.offset - 4 })

-- The bytes of a string whose length has been read.
unfoldable pub string_body : (ℕ → Bool) → ℕ → M (Option (List ℕ))
unfolding fetch rewind
string_body alloc len b =
    if ltb max_string_length len || not (buffer_check_capacity b len)
    then rewind b
    else if not (alloc 0)
    then rewind b
    else (do bytes ← fetch len; pure (some bytes)) b

unfoldable pub buffer_read_string : (ℕ → Bool) → M (Option (List ℕ))
unfolding string_body
buffer_read_string alloc = do
  len ← buffer_read_uint32
  elim len [ none ↦ pure none | some n ↦ string_body alloc n ]

-- The bytes of a datum whose size has been read. The test is the writers' one, which may grow the
-- buffer.
unfoldable pub data_body : (ℕ → Bool) → ℕ → M (Option (List ℕ))
unfolding fetch rewind
data_body alloc size = if ltb max_data_size size then rewind else do
  granted ← buffer_has_capacity alloc size
  if not (granted && alloc 1) then rewind else do bytes ← fetch size; pure (some bytes)

unfoldable pub buffer_read_data : (ℕ → Bool) → M (Option (List ℕ))
unfolding data_body
buffer_read_data alloc = do
  size ← buffer_read_uint32
  elim size [ none ↦ pure none | some n ↦ data_body alloc n ]
