-- ===== src/Serialization/Safety.antt =====
-- Readers of utils/src/connection/serialization.c on any contents: no read goes past the buffer.
use tp_sistemas_operativos.Base.{
  ℕ, ◌+◌, ◌-◌, ◌≤◌, ◌≡◌, refl, ◌⊎◌, inl, inr, Bool, true, false, Option, none, some, List, arith,
  length, length-take, take, drop, if_elim, leb→le, Bool-cases, not, ◌||◌, ltb, ltb-false→le,
}
use tp_sistemas_operativos.Serialization.Buffer.{
  Buffer, ◌>>=◌, max_string_length, buffer_check_capacity,
}
use tp_sistemas_operativos.Serialization.Capacity.{IsValid, remaining_lem}
use tp_sistemas_operativos.Serialization.Fields.{
  read_bytes, string_body, buffer_read_uint32, buffer_read_string, rewind, from_be,
}

-- What a reader of bytes may do: take bytes that are there, or fail and change nothing.
pub record ReadsSafely (limit : ℕ) (b : Buffer) (r : Option (Option (List ℕ) × Buffer))
    : Type 0 where
  pub value : Option (List ℕ)
  pub after : Buffer
  pub returns : r ≡ some (value, after)
  pub valid : IsValid after
  pub same_stream : after.stream ≡ b.stream
  pub failure : value ≡ none → after ≡ b
  pub within_limit : (s : List ℕ) → value ≡ some s → length s ≤ limit

checked :
    (b : Buffer) (n : ℕ) → IsValid b → buffer_check_capacity b n ≡ true → b.offset + n ≤ b.size
unfolding buffer_check_capacity
checked b n v h = omega (arith, leb→le _ _ h, remaining_lem b v, v.within)

advance : Buffer → ℕ → Buffer
advance b n = record b { offset = b.offset + n }

advance-IsValid : (b : Buffer) (n : ℕ) → IsValid b → b.offset + n ≤ b.size → IsValid (advance b n)
unfolding advance
advance-IsValid b n v h = record {
  sized = v.sized;
  within = h;
  nonempty = v.nonempty;
  bounded = v.bounded;
}

-- A body of four bytes or more read so far, and the offset that a failure restores.
rewound : (b : Buffer) → rewind (advance b 4) ≡ some (none, b)
unfolding rewind advance
rewound b = let e : b.offset + 4 - 4 ≡ b.offset = omega arith in rw e

read_bytes_cases :
    (n : ℕ) (b : Buffer)
    → (read_bytes n b ≡ some (none, b))
      ⊎ ((read_bytes n b ≡ some (some (take n (drop b.offset b.stream)), advance b n))
          × (buffer_check_capacity b n ≡ true))
unfolding read_bytes advance
read_bytes_cases n b = elim (Bool-cases (buffer_check_capacity b n)) [
  | inl e ↦ inr (rw e refl, e)
  | inr e ↦ inl (rw e refl)
]

read_uint32_cases :
    (b : Buffer)
    → (buffer_read_uint32 b ≡ some (none, b))
      ⊎ ((n : ℕ) × (buffer_read_uint32 b ≡ some (some n, advance b 4))
          × (buffer_check_capacity b 4 ≡ true))
unfolding buffer_read_uint32
read_uint32_cases b = elim (read_bytes_cases 4 b) [
  | inl e ↦ inl (rw (e, ◌>>=◌))
  | inr (e, four) ↦ inr (from_be 0 (take 4 (drop b.offset b.stream)), rw (e, ◌>>=◌), four)
]

-- A body that has been read, or the buffer that `rewind` gives back.
taken :
    (limit n : ℕ) (b : Buffer)
    → IsValid b
    → b.offset + 4 + n ≤ b.size
    → n ≤ limit
    → ReadsSafely limit b
        (some (some (take n (drop (b.offset + 4) b.stream)), advance (advance b 4) n))
unfolding advance
taken limit n b v room small = record {
  value = some (take n (drop (b.offset + 4) b.stream));
  after = advance (advance b 4) n;
  returns = refl;
  valid = advance-IsValid (advance b 4) n (advance-IsValid b 4 v (omega arith)) room;
  same_stream = refl;
  failure = λ e. cc;
  within_limit = λ s e.
      let q : s ≡ take n (drop (b.offset + 4) b.stream) = cc e in
      rw q (omega (arith, length-take n (drop (b.offset + 4) b.stream)));
}

refused :
    (limit : ℕ) (b : Buffer) {r : Option (Option (List ℕ) × Buffer)}
    → IsValid b
    → r ≡ some (none, b)
    → ReadsSafely limit b r
refused limit b v e = record {
  value = none;
  after = b;
  returns = e;
  valid = v;
  same_stream = refl;
  failure = λ _. refl;
  within_limit = λ s h. cc;
}

or_false : {a b : Bool} → a || not b ≡ false → (a ≡ false) × (b ≡ true)
or_false {a} {b} h = ground arith

string_body-ReadsSafely :
    (alloc : ℕ → Bool) (n : ℕ) (b : Buffer)
    → IsValid b
    → buffer_check_capacity b 4 ≡ true
    → ReadsSafely max_string_length b (string_body alloc n (advance b 4))
unfolding string_body advance
string_body-ReadsSafely alloc n b v four =
    let P = ReadsSafely max_string_length b in
    if_elim P (ltb max_string_length n || not (buffer_check_capacity (advance b 4) n))
      (λ _. refused max_string_length b v (rewound b))
      λ fits.
        if_elim P (not (alloc 0)) (λ _. refused max_string_length b v (rewound b))
          λ _.
            taken max_string_length n b v
              (checked (advance b 4) n (advance-IsValid b 4 v (checked b 4 v four))
                (or_false fits).1)
              (ltb-false→le _ _ (or_false fits).0)

-- Whatever a valid buffer holds, reading a string from it returns: either at most 1 MiB of bytes,
-- with the offset still inside the buffer and its bytes unchanged, or nothing, with the buffer as
-- it was.
pub buffer_read_string-ReadsSafely :
    (alloc : ℕ → Bool) (b : Buffer)
    → IsValid b
    → ReadsSafely max_string_length b (buffer_read_string alloc b)
unfolding buffer_read_string
buffer_read_string-ReadsSafely alloc b v = elim (read_uint32_cases b) [
  | inl e ↦ rw (e, ◌>>=◌) (refused max_string_length b v refl)
  | inr (n, e, four) ↦ rw (e, ◌>>=◌) (string_body-ReadsSafely alloc n b v four)
]
