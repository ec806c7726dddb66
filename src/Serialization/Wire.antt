-- ===== src/Serialization/Wire.antt =====
-- The wire of utils/src/connection/serialization.c: the loop of `recv_all` over whatever pieces
-- the socket delivers, and packages that are sent and received whole.
use tp_sistemas_operativos.Base.{
  ℕ, zero, suc, ◌+◌, ◌-◌, ◌≤◌, ◌<◌, ◌≡◌, refl, ap, ◌∙◌, Option, some, none, List, [], ◌∷◌, ◌++◌,
  arith, length, subst, le→ltb-false, lt→ltb, take_all, ◌%◌, ◌^◌, length-append, length-drop, take,
  drop, take-append, drop-append, take-append_le, take-append_ge, drop-append_le, drop-append_ge,
  leb, ◌==◌, if_elim, leb→le, leb-false→lt, Bool, true, false,
}
use tp_sistemas_operativos.Serialization.Packages.{
  Package, Segments, recv_all, prepend, receive_buffer, package_receive, serialized_package, ◌>>=◌,
}
use tp_sistemas_operativos.Serialization.Buffer.{Buffer, buffer_create}
use tp_sistemas_operativos.Serialization.Fields.{be32, from_be}
use tp_sistemas_operativos.Serialization.Capacity.{IsValid}

-- Everything that the socket will deliver.
abbrev pub flatten : Segments → List ℕ
flatten [] = []
flatten (s ∷ segments) = s ++ flatten segments

-- No call of recv meets a closed connection or an error.
abbrev pub IsOpen : Segments → Type 0
IsOpen [] = Unit {0}
IsOpen (s ∷ segments) = (0 < length s) × IsOpen segments

pub record Receives (bytes rest : List ℕ) (r : Option (List ℕ × Segments)) : Type 0 where
  pub after : Segments
  pub returns : r ≡ some (bytes, after)
  pub remains : flatten after ≡ rest
  pub open_after : IsOpen after

module _ (n : ℕ) (s : List ℕ) (segments : Segments) (nonempty : 0 < length s)
    (o : IsOpen segments) where
  -- The segment is used up, and the loop goes on.
  receive_whole :
      length s ≤ n
      → Receives
          (take (n - length s) (flatten segments))
          (drop (n - length s) (flatten segments))
          (recv_all (n - length s) segments)
      → Receives
          (take n (s ++ flatten segments))
          (drop n (s ++ flatten segments))
          (prepend s (recv_all (n - length s) segments))
  receive_whole le r =
      rw (r.returns, prepend)
        (record {
          after = r.after;
          returns = rw (take-append_ge n s (flatten segments) le);
          remains = r.remains ∙ rw (drop-append_ge n s (flatten segments) le);
          open_after = r.open_after;
        })

  -- The last call takes a part of the segment.
  receive_part :
      n < length s
      → Receives
          (take n (s ++ flatten segments))
          (drop n (s ++ flatten segments))
          (some (take n s, drop n s ∷ segments))
  receive_part lt = record {
    after = drop n s ∷ segments;
    returns = rw (take-append_le n s (flatten segments) (omega arith));
    remains = rw (drop-append_le n s (flatten segments) (omega arith));
    open_after = (omega (arith, length-drop n s), o);
  }

-- While the socket is open and delivers at least n bytes, the loop of recv_all returns the next n
-- of them, however they are cut into pieces, and leaves the rest on the wire.
pub recv_all-Receives :
    (n : ℕ) (segments : Segments)
    → IsOpen segments
    → n ≤ length (flatten segments)
    → Receives (take n (flatten segments)) (drop n (flatten segments)) (recv_all n segments)
unfolding recv_all
recv_all-Receives zero [] o h = record {
  after = [];
  returns = refl;
  remains = refl;
  open_after = tt;
}
recv_all-Receives (suc n) [] o h = absurd (omega arith)
recv_all-Receives zero (s ∷ segments) o h = record {
  after = s ∷ segments;
  returns = refl;
  remains = refl;
  open_after = o;
}
recv_all-Receives (suc n) (s ∷ segments) o h =
    let P =
      Receives (take (suc n) (s ++ flatten segments)) (drop (suc n) (s ++ flatten segments)) in
    if_elim P (suc n == 0) (λ e. absurd (ground arith))
      λ _.
        if_elim P (length s == 0) (λ e. absurd (ground arith))
          λ _.
            if_elim P (leb (length s) (suc n))
              (λ fits.
                let le = leb→le (length s) (suc n) fits in
                receive_whole (suc n) s segments o.0 o.1 le (
                  recv_all-Receives (suc n - length s) segments o.1
                    (omega (arith, length-append s (flatten segments)))))
              (λ over.
                receive_part (suc n) s segments o.0 o.1 (leb-false→lt (length s) (suc n) over))

-- When a call of recv gives 0 or less before the bytes that recv_all waits for have arrived, it
-- fails, whatever would follow.
pub recv_all_short :
    (n : ℕ) (before later : Segments)
    → length (flatten before) < n
    → recv_all n (before ++ [] ∷ later) ≡ none
unfolding recv_all
recv_all_short zero before later h = absurd (omega arith)
recv_all_short (suc n) [] later h = ground arith
recv_all_short (suc n) (s ∷ before) later h =
    ground (arith, recv_all_short (suc n - length s) before later, length-append s (flatten before))

-- The bytes that are next on the wire are the ones that the loop returns.
pub recv_exact :
    (bytes rest : List ℕ) (segments : Segments)
    → IsOpen segments
    → flatten segments ≡ bytes ++ rest
    → Receives bytes rest (recv_all (length bytes) segments)
recv_exact bytes rest segments o e = record {
  after = r.after;
  returns = r.returns ∙ ap (λ (l : List ℕ). some (l, r.after)) first;
  remains = r.remains ∙ rw (e, drop-append (length bytes) bytes rest refl);
  open_after = r.open_after;
}
  where
    n : ℕ
    n = length bytes

    r : Receives (take n (flatten segments)) (drop n (flatten segments)) (recv_all n segments)
    r = recv_all-Receives n segments o (omega (arith, ap length e, length-append bytes rest))

    first : take n (flatten segments) ≡ bytes
    first = rw (e, take-append n bytes rest refl)

-- A package as it arrives: the whole buffer of the sender's, to be read from its start.
abbrev pub arrived : Package → Package
arrived p = record p {
  buffer = record {
    size = p.buffer.size;
    stream = p.buffer.stream;
    offset = 0;
    is_dynamic = false;
  };
}

pub record Arrives (p : Package) (more : List ℕ) (r : Option (Package × Segments)) : Type 0 where
  pub after : Segments
  pub returns : r ≡ some (arrived p, after)
  pub remains : flatten after ≡ more
  pub open_after : IsOpen after

module _ (alloc : ℕ → Bool) (grants : (k : ℕ) → alloc k ≡ true) where
  receive_buffer-Receives :
      (b : Buffer) (segments : Segments) (rest : List ℕ)
      → IsValid b
      → IsOpen segments
      → flatten segments ≡ b.stream ++ rest
      → (after : Segments) × (receive_buffer alloc b.size segments
          ≡ some
              (record { size = b.size; stream = b.stream; offset = 0; is_dynamic = false }, after))
        × (flatten after ≡ rest)
        × IsOpen after
  unfolding receive_buffer buffer_create
  receive_buffer-Receives b segments rest v o e = (
    r.after,
    rw (le→ltb-false _ _ v.bounded, z, grants 0, grants 1, ◌>>=◌, lt→ltb _ _ v.nonempty, got),
    r.remains,
    r.open_after,
  )
    where
      r : Receives b.stream rest (recv_all (length b.stream) segments)
      r = recv_exact b.stream rest segments o e

      z : (b.size == 0) ≡ false
      z = ground (arith, v.nonempty)

      got : recv_all b.size segments ≡ some (b.stream, r.after)
      got = subst (λ n. recv_all n segments ≡ some (b.stream, r.after)) v.sized r.returns

-- What is sent of a valid package: the code, the size, the stream.
pub serialized_lem :
    (p : Package)
    → IsValid p.buffer
    → serialized_package p ≡ p.operation_code ∷ (be32 p.buffer.size ++ p.buffer.stream)
unfolding serialized_package
serialized_lem p v =
    let e : p.buffer.size % 2 ^ 32 ≡ p.buffer.size = omega (arith, v.bounded) in
    rw (e, take_all p.buffer.size p.buffer.stream (omega (arith, v.sized)))

-- With memory granted, a valid package whose bytes are next on an open wire is received whole,
-- however they are cut, to be read from its start, and the bytes that follow it stay on the wire.
pub package_receive-Arrives :
    (alloc : ℕ → Bool)
    → ((k : ℕ) → alloc k ≡ true)
    → (p : Package) (segments : Segments) (more : List ℕ) → IsValid p.buffer
    → IsOpen segments
    → flatten segments ≡ serialized_package p ++ more
    → Arrives p more (package_receive alloc segments)
unfolding package_receive
package_receive-Arrives alloc grants p segments more v o e = rw (grants 0) (
    rw (code.returns, ◌>>=◌)
      (rw (net_size.returns, ◌>>=◌)
        (rw (size_lem, buffer.1, ◌>>=◌)
          (record {
            after = buffer.0;
            returns = rw code_lem;
            remains = buffer.2;
            open_after = buffer.3;
          }))))
  where
    size : ℕ
    size = p.buffer.size

    stream : List ℕ
    stream = p.buffer.stream

    code : Receives (p.operation_code ∷ []) (be32 size ++ (stream ++ more)) (recv_all 1 segments)
    code =
        recv_exact (p.operation_code ∷ []) _ segments o
          (e ∙ ap (λ (l : List ℕ). l ++ more) (serialized_lem p v))

    net_size : Receives (be32 size) (stream ++ more) (recv_all 4 code.after)
    net_size = recv_exact (be32 size) (stream ++ more) code.after code.open_after code.remains

    size_lem : from_be 0 (be32 size) ≡ size
    size_lem = omega (arith, v.bounded)

    code_lem : from_be 0 (p.operation_code ∷ []) ≡ p.operation_code
    code_lem = omega arith

    buffer :
        (after : Segments) × (receive_buffer (λ k. alloc (1 + k)) size net_size.after
          ≡ some (record { size = size; stream = stream; offset = 0; is_dynamic = false }, after))
        × (flatten after ≡ more)
        × IsOpen after
    buffer =
        receive_buffer-Receives (λ k. alloc (1 + k)) (λ k. grants (1 + k)) p.buffer net_size.after
          more v net_size.open_after net_size.remains
