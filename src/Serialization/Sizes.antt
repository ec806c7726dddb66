-- ===== src/Serialization/Sizes.antt =====
-- utils/src/connection/serialization.c: the functions that announce the sizes of fields. A size_t
-- is a number modulo 2 ^ 64.
use tp_sistemas_operativos.Base.{ℕ, ◌+◌, ◌^◌, ◌<◌, ◌≡◌, List, length, arith}
use tp_sistemas_operativos.Serialization.Buffer.{wrap64}
use tp_sistemas_operativos.Serialization.Message.{Field, encode}

unfoldable pub calculate_string_size : List ℕ → ℕ
calculate_string_size str = wrap64 (4 + length str)

unfoldable pub calculate_data_size : ℕ → ℕ
calculate_data_size data_length = wrap64 (4 + data_length)

-- For a string or data of fewer than 2 ^ 32 bytes, calculate_string_size and calculate_data_size
-- give the number of bytes of its encoding on the wire.
pub calculate_size_lem :
    (s : List ℕ)
    → length s < 2 ^ 32
    → (calculate_string_size s ≡ length (encode (Field.string s)))
      × (calculate_data_size (length s) ≡ length (encode (Field.bytes s)))
unfolding calculate_string_size calculate_data_size
calculate_size_lem s h = (omega arith, omega arith)
