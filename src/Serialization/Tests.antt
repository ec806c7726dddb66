-- ===== src/Serialization/Tests.antt =====
-- Runs of the model of utils/src/connection/serialization.c on a short message.
use tp_sistemas_operativos.Base.{
  ℕ, ◌≡◌, refl, Bool, true, false, Option, none, some, List, [], ◌∷◌, ◌++◌, arith, length, take,
  drop, replicate, ◌-◌, ◌↔◌,
}
use tp_sistemas_operativos.Serialization.Buffer.{
  Buffer, buffer_has_capacity, buffer_remaining_capacity, put, buffer_create_dynamic, initial_size,
  max_string_length,
}
use tp_sistemas_operativos.Serialization.Capacity.{IsValid, HasRoom, buffer_has_capacity_lem}
use tp_sistemas_operativos.Serialization.Fields.{
  buffer_read_string, buffer_write_uint32, buffer_write_string, write_bytes,
}
use tp_sistemas_operativos.Serialization.Packages.{
  Package, Segments, package_create_empty, package_add_uint32, package_add_string, recv_all,
  package_send, package_receive, serialized_package,
}
use tp_sistemas_operativos.Serialization.Sizes.{
  calculate_string_size, calculate_data_size, calculate_size_lem,
}
use tp_sistemas_operativos.Serialization.Message.{encode, Field, build, add_all, add_field}
use tp_sistemas_operativos.Serialization.Wire.{
  flatten, IsOpen, Receives, recv_all-Receives, recv_all_short, Arrives, package_receive-Arrives,
}
use tp_sistemas_operativos.Serialization.RoundTrip.{
  Built, build-Built, Exchanged, message_round_trip, package_send_iff,
}
use tp_sistemas_operativos.Serialization.Safety.{ReadsSafely, buffer_read_string-ReadsSafely}

abbrev alloc : ℕ → Bool
alloc k = true

abbrev granted : (k : ℕ) → alloc k ≡ true
granted k = refl

-- The identifier of a query, its program counter and its path, as the master sends them.
abbrev fields : List Field
fields = Field.uint32 7 ∷ Field.uint32 0 ∷ Field.string (113 ∷ 49 ∷ []) ∷ []

build-Built_example : Built 9 fields (build alloc 9 fields)
build-Built_example =
    build-Built alloc 9 fields granted (omega arith, (omega arith, (omega arith, tt))) (omega arith)

abbrev encoded : List ℕ
encoded = 0 ∷ 0 ∷ 0 ∷ 7 ∷ 0 ∷ 0 ∷ 0 ∷ 0 ∷ 0 ∷ 0 ∷ 0 ∷ 2 ∷ 113 ∷ 49 ∷ []

-- The package of the message, in a buffer of the initial size.
abbrev sent : Package
sent = record {
  operation_code = 9;
  buffer = record {
    size = initial_size;
    stream = encoded ++ replicate (initial_size - 14) 0;
    offset = 14;
    is_dynamic = true;
  };
}

sent_built : build alloc 9 fields ≡ some (true, sent)
unfolding build package_create_empty buffer_create_dynamic add_all add_field package_add_uint32
    package_add_string buffer_write_uint32 buffer_write_string write_bytes put buffer_has_capacity
    buffer_remaining_capacity
sent_built = refl

-- The first piece ends inside of the size.
abbrev pieces : Segments
pieces = (9 ∷ 0 ∷ 0 ∷ []) ∷ (1 ∷ 0 ∷ encoded) ∷ replicate (initial_size - 14) 0 ∷ []

sent-IsValid : IsValid sent.buffer
sent-IsValid = record {
  sized = refl;
  within = omega arith;
  nonempty = omega arith;
  bounded = omega arith;
}

pieces-IsOpen : IsOpen pieces
pieces-IsOpen = (omega arith, (omega arith, (omega arith, tt)))

pieces_whole : flatten pieces ≡ serialized_package sent ++ []
unfolding serialized_package
pieces_whole = refl

message_round_trip_example : Exchanged 9 fields [] alloc (package_receive alloc pieces)
message_round_trip_example =
    message_round_trip alloc 9 fields pieces [] sent granted
      (omega arith, (omega arith, (omega arith, tt))) (omega arith) sent_built pieces-IsOpen
      pieces_whole

package_receive-Arrives_example : Arrives sent [] (package_receive alloc pieces)
package_receive-Arrives_example =
    package_receive-Arrives alloc granted sent pieces [] sent-IsValid pieces-IsOpen pieces_whole

recv_all-Receives_example :
    Receives (take 5 (flatten pieces)) (drop 5 (flatten pieces)) (recv_all 5 pieces)
recv_all-Receives_example = recv_all-Receives 5 pieces pieces-IsOpen (omega arith)

recv_all_short_example : recv_all 3 ((1 ∷ []) ∷ (2 ∷ []) ∷ [] ∷ (3 ∷ []) ∷ []) ≡ none
recv_all_short_example = recv_all_short 3 ((1 ∷ []) ∷ (2 ∷ []) ∷ []) ((3 ∷ []) ∷ []) (omega arith)

-- A socket that takes whatever it is given.
abbrev send : List ℕ → Option ℕ
send bytes = some (length bytes)

package_send_iff_example :
    (package_send alloc send sent ≡ true)
    ↔ (send (serialized_package sent) ≡ some (length (serialized_package sent)))
package_send_iff_example = package_send_iff alloc send sent refl sent-IsValid

buffer_has_capacity_lem_example :
    HasRoom true 300 sent.buffer (buffer_has_capacity alloc 300 sent.buffer)
buffer_has_capacity_lem_example =
    buffer_has_capacity_lem alloc 300 sent.buffer (omega arith) sent-IsValid

-- A buffer whose string claims more bytes than there are.
abbrev cut_short : Buffer
cut_short = record {
  size = 6;
  stream = 0 ∷ 0 ∷ 0 ∷ 9 ∷ 113 ∷ 49 ∷ [];
  offset = 0;
  is_dynamic = false;
}

buffer_read_string-ReadsSafely_example :
    ReadsSafely max_string_length cut_short (buffer_read_string alloc cut_short)
buffer_read_string-ReadsSafely_example =
    buffer_read_string-ReadsSafely alloc cut_short
      (record { sized = refl; within = omega arith; nonempty = omega arith; bounded = omega arith })

calculate_size_lem_example :
    (calculate_string_size (113 ∷ 49 ∷ []) ≡ length (encode (Field.string (113 ∷ 49 ∷ []))))
    × (calculate_data_size 2 ≡ length (encode (Field.bytes (113 ∷ 49 ∷ []))))
calculate_size_lem_example = calculate_size_lem (113 ∷ 49 ∷ []) (omega arith)
