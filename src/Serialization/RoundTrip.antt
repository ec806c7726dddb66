-- ===== src/Serialization/RoundTrip.antt =====
-- Whole messages through utils/src/connection/serialization.c: built, sent, received and read.
use tp_sistemas_operativos.Base.{
  ℕ, ◌+◌, ◌*◌, ◌≤◌, ◌≡◌, ◌↔◌, refl, sym, ap, ◌∙◌, subst, Bool, true, false, Option, none, some,
  List, ◌++◌, arith, length, take-append-drop, drop, map, ◌==◌, take, take_all, ◌%◌, ◌^◌,
}
use tp_sistemas_operativos.Serialization.Buffer.{
  max_buffer_size, empty_dynamic, buffer_create_dynamic,
}
use tp_sistemas_operativos.Serialization.Capacity.{IsValid}
use tp_sistemas_operativos.Serialization.Writes.{written}
use tp_sistemas_operativos.Serialization.Packages.{
  Package, Segments, package_receive, package_send, serialized_package, package_create_empty,
}
use tp_sistemas_operativos.Serialization.Message.{
  Field, kind, encode_all, AllInRange, add_all, read_all, build,
}
use tp_sistemas_operativos.Serialization.Sequence.{Holds, Takes, add_all-Holds, read_all-Takes}
use tp_sistemas_operativos.Serialization.Wire.{
  flatten, IsOpen, Arrives, arrived, package_receive-Arrives, serialized_lem,
}

abbrev empty_package : ℕ → Package
empty_package code = record { operation_code = code; buffer = empty_dynamic }

empty-IsValid : IsValid empty_dynamic
empty-IsValid = record {
  sized = refl;
  within = omega arith;
  nonempty = omega arith;
  bounded = omega arith;
}

-- A package that was built, and what it holds.
pub record Built (code : ℕ) (fs : List Field) (r : Option (Bool × Package)) : Type 0 where
  pub made : Package
  pub returns : r ≡ some (true, made)
  pub same_code : made.operation_code ≡ code
  pub valid : IsValid made.buffer
  pub holds : written made.buffer ≡ encode_all fs

-- Building a message of fields in the readers' ranges, of at most half of the largest buffer,
-- succeeds when memory is granted; the package has the operation code, is valid, and holds the
-- encodings of the fields in order.
pub build-Built :
    (alloc : ℕ → Bool) (code : ℕ) (fs : List Field)
    → ((k : ℕ) → alloc k ≡ true)
    → AllInRange fs
    → 2 * length (encode_all fs) ≤ max_buffer_size
    → Built code fs (build alloc code fs)
unfolding build package_create_empty buffer_create_dynamic
build-Built alloc code fs grants h small =
    rw (build, package_create_empty, buffer_create_dynamic, grants 0, grants 1, grants 2)
      (record {
        made = holds.after;
        returns = holds.returns;
        same_code = holds.same_code;
        valid = holds.valid;
        holds = holds.content_written;
      })
  where
    holds : Holds (encode_all fs) (empty_package code) (add_all alloc fs (empty_package code))
    holds =
        add_all-Holds alloc (grants 0) fs (empty_package code) h empty-IsValid (refl, omega arith)

-- What a receiver gets of a message.
pub record Exchanged (code : ℕ) (fs : List Field) (more : List ℕ) (alloc : ℕ → Bool)
    (r : Option (Package × Segments)) : Type 0 where
  pub made : Package
  pub after : Segments
  pub received : r ≡ some (made, after)
  pub same_code : made.operation_code ≡ code
  pub left : flatten after ≡ more
  pub consumed : Package
  pub fields_read : read_all alloc (map kind fs) made ≡ some (some fs, consumed)

-- With memory granted, a message of fields in the readers' ranges, of at most half of the largest
-- buffer, that was built and whose bytes are next on the wire, cut into any non-empty pieces, is
-- received with its operation code; reading its kinds in order gives back all of its fields, and
-- the bytes that follow it stay on the wire.
pub message_round_trip :
    (alloc : ℕ → Bool) (code : ℕ) (fs : List Field) (segments : Segments) (more : List ℕ)
    → (sent : Package) → ((k : ℕ) → alloc k ≡ true)
    → AllInRange fs
    → 2 * length (encode_all fs) ≤ max_buffer_size
    → build alloc code fs ≡ some (true, sent)
    → IsOpen segments
    → flatten segments ≡ serialized_package sent ++ more
    → Exchanged code fs more alloc (package_receive alloc segments)
message_round_trip alloc code fs segments more sent grants h small built o e = record {
  made = arrived sent;
  after = a.after;
  received = a.returns;
  same_code = ap (λ (p : Package). p.operation_code) same ∙ b.same_code;
  left = a.remains;
  consumed = t.after;
  fields_read = t.returns;
}
  where
    b : Built code fs (build alloc code fs)
    b = build-Built alloc code fs grants h small

    same : sent ≡ b.made
    same = cc (built, b.returns)

    v : IsValid sent.buffer
    v = subst (λ (p : Package). IsValid p.buffer) (sym same) b.valid

    a : Arrives sent more (package_receive alloc segments)
    a = package_receive-Arrives alloc grants sent segments more v o e

    start : sent.buffer.stream ≡ encode_all fs ++ drop sent.buffer.offset sent.buffer.stream
    start =
        sym (take-append-drop sent.buffer.offset sent.buffer.stream)
        ∙ ap (λ (l : List ℕ). l ++ drop sent.buffer.offset sent.buffer.stream)
            (ap (λ (p : Package). written p.buffer) same ∙ b.holds)

    t :
        Takes fs
          (drop sent.buffer.offset sent.buffer.stream)
          (arrived sent)
          (read_all alloc (map kind fs) (arrived sent))
    t =
        read_all-Takes alloc (grants 0, grants 1) fs (arrived sent) _ h
          (record {
            sized = v.sized;
            within = omega arith;
            nonempty = v.nonempty;
            bounded = v.bounded;
          })
          start

accepted_iff :
    (r : Option ℕ) (total : ℕ)
    → ((elim r [ none ↦ false | some n ↦ n == total ]) ≡ true) ↔ (r ≡ some total)
accepted_iff r total = ground arith

-- With memory granted, a valid package counts as sent exactly when the socket takes all of its
-- serialization in one call.
pub package_send_iff :
    (alloc : ℕ → Bool) (send : List ℕ → Option ℕ) (p : Package)
    → alloc 0 ≡ true
    → IsValid p.buffer
    → (package_send alloc send p ≡ true)
      ↔ (send (serialized_package p) ≡ some (length (serialized_package p)))
unfolding package_send
package_send_iff alloc send p granted v =
    rw (package_send, granted, total, whole, len ∙ sym total)
      (accepted_iff (send (serialized_package p)) _)
  where
    len : length (serialized_package p) ≡ 5 + p.buffer.size
    len = omega (arith, ap length (serialized_lem p v), v.sized)

    total : (1 + 4 + p.buffer.size % 2 ^ 32) % 2 ^ 32 ≡ 5 + p.buffer.size
    total = omega (arith, v.bounded)

    whole : take (5 + p.buffer.size) (serialized_package p) ≡ serialized_package p
    whole = take_all _ (serialized_package p) (omega (arith, len))
