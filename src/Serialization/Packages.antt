-- ===== src/Serialization/Packages.antt =====
-- utils/src/connection/serialization.c: packages, their fields, and the wire. A package's buffer is
-- never null. A socket enters as what its calls give: `send` says how many bytes one call of send
-- takes (`none` for -1), and a list of segments says what each call of recv finds, an empty one
-- standing for a closed connection or an error. On a negative socket both fail.
use tp_sistemas_operativos.Base.{
  ℕ, ◌+◌, ◌-◌, ◌%◌, ◌^◌, Bool, false, not, Option, none, some, List, [], ◌∷◌, ◌++◌, ltb, leb, ◌==◌,
  if◌then◌else◌, length, take, drop,
}
use tp_sistemas_operativos.Serialization.Buffer.{
  Buffer, M, max_buffer_size, buffer_create, buffer_create_dynamic, buffer_reset_offset,
  buffer_used_size,
}
use tp_sistemas_operativos.Serialization.Fields.{
  be32, from_be, buffer_write_uint8, buffer_write_int8, buffer_write_uint16, buffer_write_uint32,
  buffer_write_string, buffer_write_data, buffer_read_uint8, buffer_read_int8, buffer_read_uint16,
  buffer_read_uint32, buffer_read_string, buffer_read_data,
}

pub record Package : Type 0 where
  pub operation_code : ℕ
  pub buffer : Buffer

-- `none` for the buffer is the null pointer.
unfoldable pub package_create : (ℕ → Bool) → ℕ → Option Buffer → Option Package
package_create alloc operation_code buffer = if not (alloc 0) then none else elim buffer [
  | none ↦ none
  | some b ↦ some (record { operation_code = operation_code; buffer = b })
]

unfoldable pub package_create_empty : (ℕ → Bool) → ℕ → Option Package
unfolding buffer_create_dynamic
package_create_empty alloc operation_code =
    if not (alloc 0) then none else elim (buffer_create_dynamic (λ k. alloc (1 + k))) [
      | none ↦ none
      | some b ↦ some (record { operation_code = operation_code; buffer = b })
    ]

abbrev pub PackageM : Type 0 → Type 0
PackageM A = Package → Option (A × Package)

-- The package functions hand their buffer on.
abbrev pub on_buffer : {A : Type 0} → M A → PackageM A
on_buffer m p = elim (m p.buffer) [ none ↦ none | some (a, b) ↦ some (a, record p { buffer = b }) ]

unfoldable pub package_add_uint8 : (ℕ → Bool) → ℕ → PackageM Bool
package_add_uint8 alloc value = on_buffer (buffer_write_uint8 alloc value)

unfoldable pub package_add_int8 : (ℕ → Bool) → ℕ → PackageM Bool
package_add_int8 alloc value = on_buffer (buffer_write_int8 alloc value)

unfoldable pub package_add_uint16 : (ℕ → Bool) → ℕ → PackageM Bool
package_add_uint16 alloc value = on_buffer (buffer_write_uint16 alloc value)

unfoldable pub package_add_uint32 : (ℕ → Bool) → ℕ → PackageM Bool
package_add_uint32 alloc value = on_buffer (buffer_write_uint32 alloc value)

unfoldable pub package_add_string : (ℕ → Bool) → List ℕ → PackageM Bool
package_add_string alloc value = on_buffer (buffer_write_string alloc value)

unfoldable pub package_add_data : (ℕ → Bool) → List ℕ → PackageM Bool
package_add_data alloc bytes p =
    if length bytes == 0 then some (false, p) else on_buffer (buffer_write_data alloc bytes) p

unfoldable pub package_read_uint8 : PackageM (Option ℕ)
package_read_uint8 = on_buffer buffer_read_uint8

unfoldable pub package_read_int8 : PackageM (Option ℕ)
package_read_int8 = on_buffer buffer_read_int8

unfoldable pub package_read_uint16 : PackageM (Option ℕ)
package_read_uint16 = on_buffer buffer_read_uint16

unfoldable pub package_read_uint32 : PackageM (Option ℕ)
package_read_uint32 = on_buffer buffer_read_uint32

unfoldable pub package_read_string : (ℕ → Bool) → PackageM (Option (List ℕ))
package_read_string alloc = on_buffer (buffer_read_string alloc)

unfoldable pub package_read_data : (ℕ → Bool) → PackageM (Option (List ℕ))
package_read_data alloc = on_buffer (buffer_read_data alloc)

unfoldable pub package_reset_read_offset : Package → Package
package_reset_read_offset p = record p { buffer = buffer_reset_offset p.buffer }

unfoldable pub package_get_data_size : Package → ℕ
unfolding buffer_used_size
package_get_data_size p = buffer_used_size p.buffer

-- The operation code, the size of the buffer, and the whole buffer, whatever its offset.
unfoldable pub serialized_package : Package → List ℕ
serialized_package p =
    let buffer_size = p.buffer.size % 2 ^ 32 in
    p.operation_code ∷ (be32 buffer_size ++ take buffer_size p.buffer.stream)

-- The one call of send takes everything, or the package counts as not sent.
unfoldable pub package_send : (ℕ → Bool) → (List ℕ → Option ℕ) → Package → Bool
package_send alloc send p =
    let total_size = (1 + 4 + p.buffer.size % 2 ^ 32) % 2 ^ 32 in
    if not (alloc 0) then false else elim (send (take total_size (serialized_package p))) [
      | none ↦ false
      | some bytes_sent ↦ bytes_sent == total_size
    ]

-- What the calls of recv on a socket give, one after the other: bytes, or none where a call returns 0
-- or less. Where the list ends the peer has closed the connection, and recv returns 0.
abbrev pub Segments : Type 0
Segments = List (List ℕ)

abbrev pub prepend : List ℕ → Option (List ℕ × Segments) → Option (List ℕ × Segments)
prepend s none = none
prepend s (some (bytes, rest)) = some (s ++ bytes, rest)

-- while (total_received < length): each call of recv takes at most what is still missing.
unfoldable pub recv_all : ℕ → Segments → Option (List ℕ × Segments)
recv_all n [] = if n == 0 then some ([], []) else none
recv_all n (s ∷ segments) =
    if n == 0
    then some ([], s ∷ segments)
    else if length s == 0
    then none
    else if leb (length s) n
    then prepend s (recv_all (n - length s) segments)
    else some (take n s, drop n s ∷ segments)

infixl 5 ◌>>=◌
abbrev pub ◌>>=◌ {ℓ κ} : {A : Type ℓ} {B : Type κ} → Option A → (A → Option B) → Option B
none >>= f = none
some a >>= f = f a

-- The buffer of a package whose size has arrived.
unfoldable pub receive_buffer : (ℕ → Bool) → ℕ → Segments → Option (Buffer × Segments)
receive_buffer alloc buffer_size segments = if ltb max_buffer_size buffer_size then none else do
  b ← buffer_create alloc buffer_size
  if ltb 0 buffer_size
      then (do
        (bytes, rest) ← recv_all buffer_size segments
        some (record b { stream = bytes }, rest))
      else some (b, segments)

unfoldable pub package_receive : (ℕ → Bool) → Segments → Option (Package × Segments)
package_receive alloc segments = if not (alloc 0) then none else do
  (code, after_code) ← recv_all 1 segments
  (net_size, after_size) ← recv_all 4 after_code
  (b, rest) ← receive_buffer (λ k. alloc (1 + k)) (from_be 0 net_size) after_size
  some (record { operation_code = from_be 0 code; buffer = b }, rest)
