-- ===== src/Serialization/Sequence.antt =====
-- Messages through the package functions of utils/src/connection/serialization.c: what a sender
-- adds is what a receiver reads, however the bytes are cut on the way.
use tp_sistemas_operativos.Base.{
  ℕ, ◌+◌, ◌*◌, ◌≤◌, ◌≡◌, refl, sym, ap, ◌∙◌, Bool, true, false, Option, some, List, [], ◌∷◌, ◌++◌,
  arith, length, length-append, append_assoc, append-nil, ◌==◌, map,
}
use tp_sistemas_operativos.Serialization.Buffer.{Buffer, M, max_buffer_size}
use tp_sistemas_operativos.Serialization.Capacity.{IsValid}
use tp_sistemas_operativos.Serialization.Fields.{be32}
use tp_sistemas_operativos.Serialization.Writes.{Appends, written, write_bytes-Appends}
use tp_sistemas_operativos.Serialization.Reads.{Reads, pending}
use tp_sistemas_operativos.Serialization.Codec.{
  write_string-Appends, write_data-Appends, read_uint8-Reads, read_int8-Reads, read_uint16-Reads,
  read_uint32-Reads, read_string-Reads, read_data-Reads,
}
use tp_sistemas_operativos.Serialization.Packages.{
  Package, on_buffer, package_add_uint8, package_add_int8, package_add_uint16, package_add_uint32,
  package_add_string, package_add_data, package_read_uint8, package_read_int8, package_read_uint16,
  package_read_uint32, package_read_string, package_read_data,
}
use tp_sistemas_operativos.Serialization.Message.{
  Field, uint8, int8, uint16, uint32, string, bytes, kind, encode, encode_all, InRange, AllInRange,
  add_field, read_field, add_all, read_all, as_field, as_text, cons_field,
}
use tp_sistemas_operativos.Serialization.Fields.{
  buffer_write_uint8, buffer_write_int8, buffer_write_uint16, buffer_write_uint32,
  buffer_write_string, buffer_write_data, buffer_read_uint8, buffer_read_int8, buffer_read_uint16,
  buffer_read_uint32, buffer_read_string, buffer_read_data,
}

-- `Appends` and `Reads` for a package, which hands its buffer on.
pub record Adds (a : Bool) (bs : List ℕ) (p : Package) (r : Option (Bool × Package)) : Type 0 where
  pub buffer_result : Option (Bool × Buffer)
  pub appends : Appends a bs p.buffer buffer_result
  pub returns : r ≡ some (appends.ok, record p { buffer = appends.after })

Adds-on_buffer :
    (a : Bool) (bs : List ℕ) (p : Package) (m : Buffer → Option (Bool × Buffer))
    → Appends a bs p.buffer (m p.buffer)
    → Adds a bs p (on_buffer m p)
Adds-on_buffer a bs p m w = record {
  buffer_result = m p.buffer;
  appends = w;
  returns = rw (w.returns, on_buffer);
}

-- Every field is added whole, as its encoding, or not at all.
pub add_field-Adds :
    (alloc : ℕ → Bool) (f : Field) (p : Package)
    → InRange f
    → IsValid p.buffer
    → Adds (alloc 0) (encode f) p (add_field alloc f p)
unfolding add_field package_add_uint8 package_add_int8 package_add_uint16 package_add_uint32
    package_add_string package_add_data buffer_write_uint8 buffer_write_int8 buffer_write_uint16
    buffer_write_uint32
add_field-Adds alloc (uint8 x) p h v =
    Adds-on_buffer _ _ p (buffer_write_uint8 alloc x)
      (write_bytes-Appends alloc p.buffer v (x ∷ []) (omega arith))
add_field-Adds alloc (int8 x) p h v =
    Adds-on_buffer _ _ p (buffer_write_int8 alloc x)
      (write_bytes-Appends alloc p.buffer v (x ∷ []) (omega arith))
add_field-Adds alloc (uint16 x) p h v =
    Adds-on_buffer _ _ p (buffer_write_uint16 alloc x)
      (write_bytes-Appends alloc p.buffer v _ (omega arith))
add_field-Adds alloc (uint32 x) p h v =
    Adds-on_buffer _ _ p (buffer_write_uint32 alloc x)
      (write_bytes-Appends alloc p.buffer v (be32 x) (omega arith))
add_field-Adds alloc (string s) p h v =
    Adds-on_buffer _ _ p (buffer_write_string alloc s)
      (write_string-Appends alloc p.buffer v s (omega arith))
add_field-Adds alloc (bytes s) p h v =
    let z : (length s == 0) ≡ false = ground arith in
    rw z (
      Adds-on_buffer _ _ p (buffer_write_data alloc s)
        (write_data-Appends alloc p.buffer v s h.0 (omega arith)))

-- All of the fields are in the package behind what it held.
pub record Holds (content : List ℕ) (p : Package) (r : Option (Bool × Package)) : Type 0 where
  pub after : Package
  pub returns : r ≡ some (true, after)
  pub same_code : after.operation_code ≡ p.operation_code
  pub valid : IsValid after.buffer
  pub content_written : written after.buffer ≡ content

-- What a dynamic package has room for, if every allocation is granted.
abbrev pub Fits : List Field → Package → Type 0
Fits fs p =
    (p.buffer.is_dynamic ≡ true)
    × (2 * (p.buffer.offset + length (encode_all fs)) ≤ max_buffer_size)

module _ (alloc : ℕ → Bool) (grants : alloc 0 ≡ true) where
  add_cons-Holds :
      (f : Field) (fs : List Field) (p : Package)
      → InRange f
      → IsValid p.buffer
      → Fits (f ∷ fs) p
      → ((q : Package)
          → IsValid q.buffer
          → Fits fs q
          → Holds (written q.buffer ++ encode_all fs) q (add_all alloc fs q))
      → Holds (written p.buffer ++ encode_all (f ∷ fs)) p (add_all alloc (f ∷ fs) p)
  unfolding add_all
  add_cons-Holds f fs p h v fits rest =
      rw (w.returns, add_all, ok)
        (record {
          after = r.after;
          returns = r.returns;
          same_code = r.same_code;
          valid = r.valid;
          content_written =
              r.content_written
              ∙ ap (λ (l : List ℕ). l ++ encode_all fs) (w.appends.appended ok).0
              ∙ append_assoc (written p.buffer) (encode f) (encode_all fs);
        })
    where
      w : Adds (alloc 0) (encode f) p (add_field alloc f p)
      w = add_field-Adds alloc f p h v

      total : length (encode_all (f ∷ fs)) ≡ length (encode f) + length (encode_all fs)
      total = length-append (encode f) (encode_all fs)

      ok : w.appends.ok ≡ true
      ok = w.appends.succeeds fits.0 grants (omega (arith, total, fits.1))

      q : Package
      q = record p { buffer = w.appends.after }

      r : Holds (written q.buffer ++ encode_all fs) q (add_all alloc fs q)
      r =
          rest q w.appends.valid
            (w.appends.same_kind ∙ fits.0, omega (arith, total, fits.1, (w.appends.appended ok).1))

  pub add_all-Holds :
      (fs : List Field) (p : Package)
      → AllInRange fs
      → IsValid p.buffer
      → Fits fs p
      → Holds (written p.buffer ++ encode_all fs) p (add_all alloc fs p)
  unfolding add_all
  add_all-Holds [] p h v fits = record {
    after = p;
    returns = refl;
    same_code = refl;
    valid = v;
    content_written = sym (append-nil (written p.buffer));
  }
  add_all-Holds (f ∷ fs) p h v fits =
      add_cons-Holds f fs p h.0 v fits (λ q v' fits'. add_all-Holds fs q h.1 v' fits')

-- A package from which a value has been taken.
pub record Takes {A : Type 0} (value : A) (rest : List ℕ) (p : Package)
    (r : Option (Option A × Package)) : Type 0 where
  pub after : Package
  pub returns : r ≡ some (some value, after)
  pub same_code : after.operation_code ≡ p.operation_code
  pub valid : IsValid after.buffer
  pub remains : pending after.buffer ≡ rest

module _ (rest : List ℕ) (p : Package) where
  Takes-number :
      (c : ℕ → Field) (x : ℕ) (m : M (Option ℕ))
      → Reads x rest p.buffer (m p.buffer)
      → Takes (c x) rest p (as_field c (on_buffer m p))
  Takes-number c x m r =
      rw (r.returns, on_buffer, as_field)
        (record {
          after = record p { buffer = r.after };
          returns = refl;
          same_code = refl;
          valid = r.valid;
          remains = r.remains;
        })

  Takes-text :
      (c : List ℕ → Field) (s : List ℕ) (m : M (Option (List ℕ)))
      → Reads s rest p.buffer (m p.buffer)
      → Takes (c s) rest p (as_text c (on_buffer m p))
  Takes-text c s m r =
      rw (r.returns, on_buffer, as_text)
        (record {
          after = record p { buffer = r.after };
          returns = refl;
          same_code = refl;
          valid = r.valid;
          remains = r.remains;
        })

module _ (alloc : ℕ → Bool) (grants : (alloc 0 ≡ true) × (alloc 1 ≡ true)) where
  -- A field whose encoding is next is read back.
  pub read_field-Takes :
      (f : Field) (p : Package) (rest : List ℕ)
      → InRange f
      → IsValid p.buffer
      → pending p.buffer ≡ encode f ++ rest
      → Takes f rest p (read_field alloc (kind f) p)
  unfolding read_field package_read_uint8 package_read_int8 package_read_uint16 package_read_uint32
      package_read_string package_read_data
  read_field-Takes (uint8 x) p rest h v e =
      Takes-number rest p uint8 x buffer_read_uint8 (read_uint8-Reads p.buffer v rest x h e)
  read_field-Takes (int8 x) p rest h v e =
      Takes-number rest p int8 x buffer_read_int8 (read_int8-Reads p.buffer v rest x h e)
  read_field-Takes (uint16 x) p rest h v e =
      Takes-number rest p uint16 x buffer_read_uint16 (read_uint16-Reads p.buffer v rest x h e)
  read_field-Takes (uint32 x) p rest h v e =
      Takes-number rest p uint32 x buffer_read_uint32 (read_uint32-Reads p.buffer v rest x h e)
  read_field-Takes (string s) p rest h v e = Takes-text rest p string s (buffer_read_string alloc) (
      read_string-Reads p.buffer v rest alloc s grants.0 h
        (e ∙ append_assoc (be32 (length s)) s rest))
  read_field-Takes (bytes s) p rest h v e = Takes-text rest p bytes s (buffer_read_data alloc) (
      read_data-Reads p.buffer v rest alloc s grants.1 h.1
        (e ∙ append_assoc (be32 (length s)) s rest))

  pub read_all-Takes :
      (fs : List Field) (p : Package) (rest : List ℕ)
      → AllInRange fs
      → IsValid p.buffer
      → pending p.buffer ≡ encode_all fs ++ rest
      → Takes fs rest p (read_all alloc (map kind fs) p)
  unfolding read_all
  read_all-Takes [] p rest h v e = record {
    after = p;
    returns = refl;
    same_code = refl;
    valid = v;
    remains = e;
  }
  read_all-Takes (f ∷ fs) p rest h v e =
      let t : Takes f (encode_all fs ++ rest) p (read_field alloc (kind f) p) =
        read_field-Takes f p (encode_all fs ++ rest) h.0 v
          (e ∙ append_assoc (encode f) (encode_all fs) rest) in
      let u : Takes fs rest t.after (read_all alloc (map kind fs) t.after) =
        read_all-Takes fs t.after rest h.1 t.valid t.remains in
      rw (t.returns, read_all, u.returns, cons_field)
        (record {
          after = u.after;
          returns = refl;
          same_code = u.same_code ∙ t.same_code;
          valid = u.valid;
          remains = u.remains;
        })
