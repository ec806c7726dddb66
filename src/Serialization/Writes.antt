-- ===== src/Serialization/Writes.antt =====
-- What the writers of utils/src/connection/serialization.c do to the bytes before the offset.
use mathlib.Core.Bool.{false≢true}
use tp_sistemas_operativos.Base.{
  ℕ, ◌+◌, ◌*◌, ◌^◌, ◌≤◌, ◌≡◌, refl, sym, ap, ◌∙◌, Bool, true, false, not, Option, some, List, ◌++◌,
  arith, length, length-append, length-take, length-drop, take, drop, take-append, take-append_le,
  append_assoc, inl, inr, Bool-cases, if◌then◌else◌,
}
use tp_sistemas_operativos.Serialization.Buffer.{
  Buffer, M, pure, ◌>>=◌, max_buffer_size, put, buffer_has_capacity,
}
use tp_sistemas_operativos.Serialization.Fields.{write_bytes, buffer_write_uint32, be32}
use tp_sistemas_operativos.Serialization.Capacity.{IsValid, HasRoom, buffer_has_capacity_lem}

-- The bytes that have been written, or read.
abbrev pub written : Buffer → List ℕ
written b = take b.offset b.stream

-- The outcome of a writer that may fail: all of `bytes`, or nothing.
pub record Appends (a : Bool) (bytes : List ℕ) (b : Buffer) (r : Option (Bool × Buffer))
    : Type 0 where
  pub ok : Bool
  pub after : Buffer
  pub returns : r ≡ some (ok, after)
  pub valid : IsValid after
  pub same_kind : after.is_dynamic ≡ b.is_dynamic
  pub appended :
      ok ≡ true → (written after ≡ written b ++ bytes) × (after.offset ≡ b.offset + length bytes)
  pub untouched : ok ≡ false → (written after ≡ written b) × (after.offset ≡ b.offset)
  pub fitting : b.offset + length bytes ≤ b.size → (ok ≡ true) × (after.size ≡ b.size)
  pub succeeds :
      b.is_dynamic ≡ true → a ≡ true → 2 * (b.offset + length bytes) ≤ max_buffer_size → ok ≡ true

module _ (bytes : List ℕ) (b : Buffer) (v : IsValid b)
    (room : b.offset + length bytes ≤ b.size) where
  length-written : length (written b) ≡ b.offset
  length-written = omega (arith, length-take b.offset b.stream, v.sized, v.within)

  overwritten : Buffer
  overwritten = record b {
    stream = take b.offset b.stream ++ (bytes ++ drop (b.offset + length bytes) b.stream);
    offset = b.offset + length bytes;
  }

  overwritten-IsValid : IsValid overwritten
  unfolding overwritten
  overwritten-IsValid = record {
    sized = omega (
      arith,
      length-append (written b) (bytes ++ drop (b.offset + length bytes) b.stream),
      length-append bytes (drop (b.offset + length bytes) b.stream),
      length-drop (b.offset + length bytes) b.stream,
      length-written,
      v.sized,
    );
    within = room;
    nonempty = v.nonempty;
    bounded = v.bounded;
  }

  written-overwritten : written overwritten ≡ written b ++ bytes
  unfolding overwritten
  written-overwritten =
      rw (← append_assoc (written b) bytes (drop (b.offset + length bytes) b.stream)) (
        take-append _ (written b ++ bytes) _
          (omega (arith, length-append (written b) bytes, length-written)))

  -- A copy into room that is there.
  pub put_lem : (a : Bool) → Appends a bytes b (put bytes b)
  unfolding put overwritten
  put_lem a = record {
    ok = true;
    after = overwritten;
    returns = refl;
    valid = overwritten-IsValid;
    same_kind = refl;
    appended = λ _. (written-overwritten, refl);
    untouched = λ h. cc;
    fitting = λ _. (refl, refl);
    succeeds = λ _ _ _. refl;
  }

module _ {a : Bool} {n : ℕ} (b : Buffer) (m : M Bool) (v : IsValid b)
    (h : HasRoom a n b (m b)) where
  written-HasRoom : written h.after ≡ written b
  written-HasRoom =
      rw (h.same_offset, h.extends)
        (take-append_le b.offset b.stream _ (omega (arith, v.sized, v.within)))

  module _ (bytes : List ℕ) (len : length bytes ≡ n) (e : h.granted ≡ true) where
    room_after : h.after.offset + length bytes ≤ h.after.size
    room_after = omega (arith, h.room e, h.same_offset)

    after_growth : {r : Option (Bool × Buffer)} → Appends a bytes h.after r → Appends a bytes b r
    after_growth w = record {
      ok = true;
      after = w.after;
      returns = w.returns ∙ ap (λ x. some (x, w.after)) done;
      valid = w.valid;
      same_kind = w.same_kind ∙ h.same_kind;
      appended = λ _. (
        (w.appended done).0 ∙ ap (λ (l : List ℕ). l ++ bytes) written-HasRoom,
        omega (arith, (w.appended done).1, h.same_offset),
      );
      untouched = λ c. cc;
      fitting = λ fits. (
        refl,
        (w.fitting room_after).1 ∙ ap (λ (c : Buffer). c.size) (h.fitting (omega arith)).1,
      );
      succeeds = λ _ _ _. refl;
    }
      where
        done : w.ok ≡ true
        done = (w.fitting room_after).0

  -- The test of the capacity, and then a writer of that many bytes.
  pub Appends-guarded :
      (bytes : List ℕ) (k : M Bool)
      → length bytes ≡ n
      → (h.after.offset + length bytes ≤ h.after.size → Appends a bytes h.after (k h.after))
      → Appends a bytes b ((m >>= λ granted. if not granted then pure false else k) b)
  Appends-guarded bytes k len w = elim (Bool-cases h.granted) [
    | inl has_room ↦
        rw (h.returns, ◌>>=◌, has_room)
          (after_growth bytes len has_room (w (room_after bytes len has_room)))
    | inr no_room ↦
        rw (h.returns, ◌>>=◌, no_room)
          (record {
            ok = false;
            after = h.after;
            returns = refl;
            valid = h.valid;
            same_kind = h.same_kind;
            appended = λ e. cc;
            untouched = λ _. (written-HasRoom, h.same_offset);
            fitting = λ fits. absurd (false≢true (sym no_room ∙ (h.fitting (omega arith)).0));
            succeeds = λ d g fits. absurd (false≢true (sym no_room ∙ h.succeeds d g (omega arith)));
          })
  ]

-- Two copies into room that is there for both.
Appends-then :
    (a : Bool) {c : Bool} (xs ys : List ℕ) (b : Buffer) (m : M Bool)
    → b.offset + (length xs + length ys) ≤ b.size
    → Appends c xs b (m b)
    → Appends a (xs ++ ys) b ((m >>= λ done. if not done then pure false else put ys) b)
Appends-then a xs ys b m room w =
    rw (w.returns, ◌>>=◌, done)
      (record {
        ok = true;
        after = u.after;
        returns = u.returns ∙ ap (λ x. some (x, u.after)) copied;
        valid = u.valid;
        same_kind = u.same_kind ∙ w.same_kind;
        appended = λ _. (
          (u.appended copied).0
              ∙ ap (λ (l : List ℕ). l ++ ys) (w.appended done).0
              ∙ append_assoc (written b) xs ys,
          omega (arith, (u.appended copied).1, (w.appended done).1, length-append xs ys),
        );
        untouched = λ c. cc;
        fitting = λ fits. (refl, (u.fitting room').1 ∙ (w.fitting first).1);
        succeeds = λ _ _ _. refl;
      })
  where
    first : b.offset + length xs ≤ b.size
    first = omega arith

    done : w.ok ≡ true
    done = (w.fitting first).0

    room' : w.after.offset + length ys ≤ w.after.size
    room' = omega (arith, (w.appended done).1, (w.fitting first).1)

    u : Appends a ys w.after (put ys w.after)
    u = put_lem ys w.after w.valid room' a

    copied : u.ok ≡ true
    copied = (u.fitting room').0

module _ (alloc : ℕ → Bool) (b : Buffer) (v : IsValid b) where
  pub write_bytes-Appends :
      (bytes : List ℕ)
      → length bytes ≤ 2 ^ 62
      → Appends (alloc 0) bytes b (write_bytes alloc bytes b)
  unfolding write_bytes
  write_bytes-Appends bytes small =
      let h : HasRoom (alloc 0) (length bytes) b (buffer_has_capacity alloc (length bytes) b) =
        buffer_has_capacity_lem alloc (length bytes) b small v in
      Appends-guarded b (buffer_has_capacity alloc (length bytes)) v h bytes (put bytes) refl
        (λ room. put_lem bytes h.after h.valid room (alloc 0))

module _ (alloc : ℕ → Bool) (b : Buffer) (v : IsValid b) where
  -- A length, and the bytes that it counts.
  pub write_counted-Appends :
      (total : ℕ) (bytes : List ℕ)
      → length bytes + 4 ≡ total
      → total ≤ 2 ^ 62
      → Appends (alloc 0) (be32 (length bytes) ++ bytes) b (
          (do
            granted ← buffer_has_capacity alloc total
            if not granted then pure false else do
              done ← buffer_write_uint32 (λ k. alloc (1 + k)) (length bytes)
              if not done then pure false else put bytes)
            b)
  write_counted-Appends total bytes e small =
      let h : HasRoom (alloc 0) total b (buffer_has_capacity alloc total b) =
        buffer_has_capacity_lem alloc total b small v in
      Appends-guarded b (buffer_has_capacity alloc total) v h (be32 (length bytes) ++ bytes) _
        (omega arith)
        λ room.
          Appends-then (alloc 0) {c = alloc 1} (be32 (length bytes)) bytes h.after
            (buffer_write_uint32 (λ k. alloc (1 + k)) (length bytes)) (omega arith)
            (unfold buffer_write_uint32 in
              write_bytes-Appends (λ k. alloc (1 + k)) h.after h.valid (be32 (length bytes))
                (omega arith))
