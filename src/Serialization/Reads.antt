-- ===== src/Serialization/Reads.antt =====
-- What the readers of utils/src/connection/serialization.c take from the bytes after the offset.
use tp_sistemas_operativos.Base.{
  ℕ, ◌+◌, ◌-◌, ◌≤◌, ◌≡◌, refl, sym, ap, ◌∙◌, Bool, true, Option, some, List, ◌++◌, arith, length,
  length-append, length-drop, take, drop, take-append, drop-append, drop-drop, le→leb, le→ltb-false,
}
use tp_sistemas_operativos.Serialization.Buffer.{
  Buffer, ◌>>=◌, max_string_length, max_data_size, buffer_check_capacity,
}
use tp_sistemas_operativos.Serialization.Capacity.{IsValid, remaining_lem, has_capacity_fits}
use tp_sistemas_operativos.Serialization.Fields.{read_bytes, string_body, data_body}

-- The bytes that a reader has not consumed.
abbrev pub pending : Buffer → List ℕ
pending b = drop b.offset b.stream

-- The outcome of a reader: a value, and the bytes that are left.
pub record Reads {A : Type 0} (value : A) (rest : List ℕ) (b : Buffer)
    (r : Option (Option A × Buffer)) : Type 0 where
  pub after : Buffer
  pub returns : r ≡ some (some value, after)
  pub valid : IsValid after
  pub remains : pending after ≡ rest
  pub keeps : (after.stream ≡ b.stream) × (after.size ≡ b.size)

module _ (b : Buffer) (v : IsValid b) (bytes rest : List ℕ) (e : pending b ≡ bytes ++ rest) where
  pub available : length bytes ≤ b.size - b.offset
  available = omega (
    arith,
    ap length e,
    length-append bytes rest,
    length-drop b.offset b.stream,
    v.sized,
    v.within,
  )

  pub check_available : buffer_check_capacity b (length bytes) ≡ true
  unfolding buffer_check_capacity
  check_available = le→leb _ _ (omega (arith, available, remaining_lem b v))

  pub fetch-Reads :
      (r : Option (Option (List ℕ) × Buffer))
      → r ≡ some (some bytes, record b { offset = b.offset + length bytes })
      → Reads bytes rest b r
  fetch-Reads r h = record {
    after = record b { offset = b.offset + length bytes };
    returns = h;
    valid = record {
      sized = v.sized;
      within = omega (arith, available, v.within);
      nonempty = v.nonempty;
      bounded = v.bounded;
    };
    remains =
        sym (drop-drop b.offset (length bytes) b.stream)
        ∙ ap (drop (length bytes)) e
        ∙ drop-append (length bytes) bytes rest refl;
    keeps = (refl, refl);
  }

  fetched : take (length bytes) (drop b.offset b.stream) ≡ bytes
  fetched = rw e (take-append (length bytes) bytes rest refl)

  pub read_bytes-Reads : Reads bytes rest b (read_bytes (length bytes) b)
  unfolding read_bytes
  read_bytes-Reads = fetch-Reads _ (rw check_available (rw (fetched, ◌>>=◌)))

  -- The body of a string, with the allocator's consent.
  pub string_body-Reads :
      (alloc : ℕ → Bool)
      → alloc 0 ≡ true
      → length bytes ≤ max_string_length
      → Reads bytes rest b (string_body alloc (length bytes) b)
  unfolding string_body
  string_body-Reads alloc g small =
      fetch-Reads _ (rw (le→ltb-false _ _ small) (rw check_available (rw g (rw (fetched, ◌>>=◌)))))

  pub data_body-Reads :
      (alloc : ℕ → Bool)
      → alloc 1 ≡ true
      → length bytes ≤ max_data_size
      → Reads bytes rest b (data_body alloc (length bytes) b)
  unfolding data_body
  data_body-Reads alloc g small = fetch-Reads _ (
      rw (le→ltb-false _ _ small) (
        rw
          (
            has_capacity_fits alloc (length bytes) b (omega arith) v
                (omega (arith, available, v.within)),
            ◌>>=◌,
            g,
          )
          (rw (fetched, ◌>>=◌))))
