-- ===== src/Serialization/Buffer.antt =====
-- utils/src/connection/serialization.c: t_buffer, its creation, its growth and the tests of its
-- capacity. An operation is a function of the buffer that returns its result with the buffer after
-- it; `none` stands for a loop that has not ended after 64 rounds. Allocation is outside the
-- program: `alloc k` says whether the k-th allocation that a call makes (from 0) is granted.
-- Pointers to buffers are never null here, and a byte is a number below 256.
use tp_sistemas_operativos.Base.{
  ℕ, zero, suc, ◌+◌, ◌-◌, ◌*◌, ◌%◌, ◌^◌, Bool, true, false, not, Option, none, some, List, ◌++◌,
  ltb, leb, ◌==◌, if◌then◌else◌, length, take, drop, replicate,
}

pub record Buffer : Type 0 where
  pub size : ℕ
  pub stream : List ℕ
  pub offset : ℕ
  pub is_dynamic : Bool

abbrev pub max_string_length : ℕ
max_string_length = 1024 * 1024

abbrev pub max_data_size : ℕ
max_data_size = 10 * 1024 * 1024

abbrev pub max_buffer_size : ℕ
max_buffer_size = 100 * 1024 * 1024

-- size_t arithmetic wraps at 2 ^ 64.
abbrev pub wrap64 : ℕ → ℕ
wrap64 n = n % 2 ^ 64

abbrev pub M : Type 0 → Type 0
M A = Buffer → Option (A × Buffer)

abbrev pub pure : {A : Type 0} → A → M A
pure a b = some (a, b)

infixl 5 ◌>>=◌ ◌>>◌
abbrev pub ◌>>=◌ : {A B : Type 0} → M A → (A → M B) → M B
◌>>=◌ m f b = elim (m b) [ none ↦ none | some (a, b') ↦ f a b' ]

abbrev pub ◌>>◌ : {B : Type 0} → M (Unit {0}) → M B → M B
m >> k = m >>= λ _. k

unfoldable pub buffer_create : (ℕ → Bool) → ℕ → Option Buffer
buffer_create alloc size =
    if size == 0
    then none
    else if not (alloc 0)
    then none
    else if not (alloc 1)
    then none
    else some (record { size = size; stream = replicate size 0; offset = 0; is_dynamic = false })

abbrev pub initial_size : ℕ
initial_size = 256

-- A dynamic buffer, whose bytes are all zero.
abbrev pub empty_dynamic : Buffer
empty_dynamic = record {
  size = initial_size;
  stream = replicate initial_size 0;
  offset = 0;
  is_dynamic = true;
}

unfoldable pub buffer_create_dynamic : (ℕ → Bool) → Option Buffer
buffer_create_dynamic alloc =
    if not (alloc 0) then none else if not (alloc 1) then none else some empty_dynamic

-- while (new_size < target) new_size *= 2;
unfoldable pub grow : ℕ → ℕ → ℕ → Option ℕ
grow zero new_size target = none
grow (suc fuel) new_size target =
    let rest = grow fuel (wrap64 (new_size * 2)) target in
    if ltb new_size target then rest else some new_size

-- What follows the loop of `buffer_expand`.
unfoldable pub resize_to : Bool → ℕ → M Bool
resize_to granted new_size b =
    if ltb max_buffer_size new_size
    then some (false, b)
    else if not granted
    then some (false, b)
    else some
        (true, record b { size = new_size; stream = b.stream ++ replicate (new_size - b.size) 0 })

unfoldable pub buffer_expand : (ℕ → Bool) → ℕ → M Bool
unfolding resize_to
buffer_expand alloc required_size b =
    if not b.is_dynamic
    then some (false, b)
    else elim (grow 64 b.size (wrap64 (b.offset + required_size))) [
      | none ↦ none
      | some new_size ↦ resize_to (alloc 0) new_size b
    ]

unfoldable pub buffer_reset_offset : Buffer → Buffer
buffer_reset_offset b = record b { offset = 0 }

-- size - offset, as size_t.
unfoldable pub buffer_remaining_capacity : Buffer → ℕ
buffer_remaining_capacity b = wrap64 (b.size + 2 ^ 64 - b.offset)

unfoldable pub buffer_used_size : Buffer → ℕ
buffer_used_size b = b.offset

-- The test that reads make.
unfoldable pub buffer_check_capacity : Buffer → ℕ → Bool
unfolding buffer_remaining_capacity
buffer_check_capacity b required_size = leb required_size (buffer_remaining_capacity b)

-- The test that writes make: a dynamic buffer without room tries to grow.
unfoldable pub buffer_has_capacity : (ℕ → Bool) → ℕ → M Bool
unfolding buffer_remaining_capacity
buffer_has_capacity alloc required_size b =
    if b.is_dynamic
    then (if ltb (buffer_remaining_capacity b) required_size
        then buffer_expand alloc required_size b
        else some (leb required_size (buffer_remaining_capacity b), b))
    else some (leb required_size (buffer_remaining_capacity b), b)

-- memcpy to the current position, and the advance of the offset.
unfoldable pub put : List ℕ → M Bool
put bytes b = some (
  true,
  record b {
    stream = take b.offset b.stream ++ (bytes ++ drop (b.offset + length bytes) b.stream);
    offset = b.offset + length bytes;
  },
)

-- memcpy of n bytes from the current position, and the advance of the offset.
unfoldable pub fetch : ℕ → M (List ℕ)
fetch n b = some (take n (drop b.offset b.stream), record b { offset = b.offset + n })
