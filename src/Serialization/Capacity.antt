-- ===== src/Serialization/Capacity.antt =====
-- The growth of buffers in utils/src/connection/serialization.c: the doubling loop ends, and what
-- `buffer_has_capacity` grants is there.
use native.Mathlib.Nat.{two-pow-succ, pow-zero}
use native.Mathlib.Decide.{dec_lt}
use tp_sistemas_operativos.Base.{
  ℕ, zero, suc, ◌+◌, ◌-◌, ◌*◌, ◌^◌, ◌≤◌, ◌<◌, ◌≡◌, refl, ap, ◌∙◌, ◌⊎◌, inl, inr, Bool, true, false,
  Option, some, List, ◌++◌, arith, lt→ltb, ltb→lt, le→leb, ltb, leb, leb→le, ltb-false→le, if_elim,
  not, length, length-append, length-replicate, replicate, append-nil,
}
use tp_sistemas_operativos.Serialization.Buffer.{
  Buffer, max_buffer_size, wrap64, grow, resize_to, buffer_expand, buffer_remaining_capacity,
  buffer_has_capacity,
}

-- Every byte of the stream is accounted for, and the offset lies within it.
pub record IsValid (b : Buffer) : Type 0 where
  pub sized : length b.stream ≡ b.size
  pub within : b.offset ≤ b.size
  pub nonempty : 0 < b.size
  pub bounded : b.size ≤ max_buffer_size

-- What the doubling loop returns: the start, or the first doubling that reaches the target.
pub record Grown (new_size target : ℕ) (r : Option ℕ) : Type 0 where
  pub final : ℕ
  pub returns : r ≡ some final
  pub grows : new_size ≤ final
  pub reaches : target ≤ final
  pub minimal : (final ≡ new_size) ⊎ (final < 2 * target)

double_pow : (n f t : ℕ) → t ≤ n * 2 ^ suc f → t ≤ n * 2 * 2 ^ f
double_pow n f t h = omega (arith, ap (λ (k : ℕ). n * k) (two-pow-succ f))

grow_stop : (f n t : ℕ) → t ≤ n → Grown n t (grow (suc f) n t)
unfolding grow
grow_stop f n t h = record {
  final = n;
  returns = ground arith;
  grows = omega arith;
  reaches = h;
  minimal = inl refl;
}

grow_more : (f n t : ℕ) → n < t → t ≤ 2 ^ 63 → grow (suc f) n t ≡ grow f (n * 2) t
unfolding grow
grow_more f n t h b = let e : wrap64 (n * 2) ≡ n * 2 = omega arith in rw (lt→ltb n t h, e)

Grown-double : (n t : ℕ) {r : Option ℕ} → n < t → Grown (n * 2) t r → Grown n t r
Grown-double n t h g = record {
  final = g.final;
  returns = g.returns;
  grows = omega (arith, g.grows);
  reaches = g.reaches;
  minimal = inr (omega (arith, g.minimal));
}

pub grow_lem : (f n t : ℕ) → 0 < n → t ≤ 2 ^ 63 → t ≤ n * 2 ^ f → Grown n t (grow (suc f) n t)
grow_lem zero n t p b h = grow_stop zero n t (omega (arith, pow-zero 2))
grow_lem (suc f) n t p b h = elim (dec_lt n t) [
  | no done ↦ grow_stop (suc f) n t (omega arith)
  | yes more ↦
      rw (grow_more (suc f) n t more b)
        (Grown-double n t more (grow_lem f (n * 2) t (omega arith) b (double_pow n f t h)))
]

abbrev zeros : ℕ → List ℕ
zeros n = replicate n 0

-- What a test of a writer's capacity leaves: the buffer may have grown by zero bytes. The
-- allocation's outcome is `a`.
pub record HasRoom (a : Bool) (n : ℕ) (b : Buffer) (r : Option (Bool × Buffer)) : Type 0 where
  pub granted : Bool
  pub after : Buffer
  pub returns : r ≡ some (granted, after)
  pub valid : IsValid after
  pub same_offset : after.offset ≡ b.offset
  pub same_kind : after.is_dynamic ≡ b.is_dynamic
  pub grows : b.size ≤ after.size
  pub extends : after.stream ≡ b.stream ++ zeros (after.size - b.size)
  pub room : granted ≡ true → b.offset + n ≤ after.size
  pub refused : granted ≡ false → after ≡ b
  pub fitting : b.offset + n ≤ b.size → (granted ≡ true) × (after ≡ b)
  pub succeeds :
      b.is_dynamic ≡ true → a ≡ true → 2 * (b.offset + n) ≤ max_buffer_size → granted ≡ true

-- The subtraction of size_t values does not wrap in a valid buffer.
pub remaining_lem : (b : Buffer) → IsValid b → buffer_remaining_capacity b ≡ b.size - b.offset
unfolding buffer_remaining_capacity
remaining_lem b v = omega arith

module _ (a : Bool) (n : ℕ) (b : Buffer) (v : IsValid b) where
  HasRoom-same :
      (g : Bool)
      → (g ≡ true → b.offset + n ≤ b.size)
      → (b.offset + n ≤ b.size → g ≡ true)
      → (b.is_dynamic ≡ true → a ≡ true → 2 * (b.offset + n) ≤ max_buffer_size → g ≡ true)
      → HasRoom a n b (some (g, b))
  HasRoom-same g h k l = record {
    granted = g;
    after = b;
    returns = refl;
    valid = v;
    same_offset = refl;
    same_kind = refl;
    grows = omega arith;
    extends = let e : b.size - b.size ≡ 0 = omega arith in rw e (rw append-nil);
    room = h;
    refused = λ _. refl;
    fitting = λ p. (k p, refl);
    succeeds = l;
  }

  refuses :
      b.size < b.offset + n
      → (b.is_dynamic ≡ true → a ≡ true → 2 * (b.offset + n) ≤ max_buffer_size → false ≡ true)
      → HasRoom a n b (some (false, b))
  refuses over l = HasRoom-same false (λ h. cc) (λ h. absurd (omega arith)) l

  -- The tail of `buffer_expand`, at the size that the loop returned.
  resize_to-HasRoom :
      {r : Option ℕ}
      → b.size < b.offset + n
      → (g : Grown b.size (b.offset + n) r) → HasRoom a n b (resize_to a g.final b)
  unfolding resize_to
  resize_to-HasRoom over g =
      if_elim (HasRoom a n b) (ltb max_buffer_size g.final)
        (λ e. refuses over (λ d al small.
          absurd (omega (arith, ltb→lt max_buffer_size g.final e, g.minimal, v.bounded))))
        λ fits.
          if_elim (HasRoom a n b) (not a) (λ e. refuses over (λ d al small. ground arith))
            λ _. record {
              granted = true;
              after = _;
              returns = refl;
              valid = record {
                sized = enlarged;
                within = omega (arith, v.within, g.grows);
                nonempty = omega (arith, v.nonempty, g.grows);
                bounded = ltb-false→le max_buffer_size g.final fits;
              };
              same_offset = refl;
              same_kind = refl;
              grows = g.grows;
              extends = refl;
              room = λ _. g.reaches;
              refused = λ h. cc;
              fitting = λ h. absurd (omega arith);
              succeeds = λ _ _ _. refl;
            }
    where
      more : ℕ
      more = g.final - b.size

      enlarged : length (b.stream ++ zeros more) ≡ g.final
      enlarged = omega (
        arith,
        v.sized,
        g.grows,
        length-append b.stream (zeros more),
        length-replicate {A = ℕ} more 0,
      )

module _ (alloc : ℕ → Bool) (n : ℕ) (b : Buffer) (small : n ≤ 2 ^ 62) (v : IsValid b) where
  expand-HasRoom : b.size < b.offset + n → HasRoom (alloc 0) n b (buffer_expand alloc n b)
  unfolding buffer_expand
  expand-HasRoom over =
      if_elim (HasRoom (alloc 0) n b) (not b.is_dynamic)
        (λ e. refuses (alloc 0) n b v over (λ d _ _. ground arith))
        λ _.
          let target : wrap64 (b.offset + n) ≡ b.offset + n = omega (arith, v.within, v.bounded) in
          let g : Grown b.size (b.offset + n) (grow 64 b.size (b.offset + n)) =
            grow_lem 63 b.size (b.offset + n) v.nonempty (omega (arith, v.within, v.bounded))
              (omega (arith, v.within, v.bounded, v.nonempty)) in
          rw (target, g.returns) (resize_to-HasRoom (alloc 0) n b v over g)

  -- Without growth: the test alone decides.
  no_growth :
      (b.is_dynamic ≡ true → b.offset + n ≤ b.size)
      → HasRoom (alloc 0) n b (some (leb n (buffer_remaining_capacity b), b))
  no_growth known =
      HasRoom-same (alloc 0) n b v _ (λ h. omega (arith, leb→le n _ h, remaining_lem b v, v.within))
        room_leb (λ d _ _. room_leb (known d))
    where
      room_leb : b.offset + n ≤ b.size → leb n (buffer_remaining_capacity b) ≡ true
      room_leb h = le→leb n _ (omega (arith, remaining_lem b v))

  -- For a request of at most 2 ^ 62 bytes on a valid buffer, buffer_has_capacity returns; the
  -- buffer stays valid and keeps its offset and its bytes; when it grants the bytes they are
  -- there, when it refuses nothing changes, a request that fits is granted with no change, and a
  -- dynamic buffer grants a request within half of the limit when memory is granted.
  pub buffer_has_capacity_lem : HasRoom (alloc 0) n b (buffer_has_capacity alloc n b)
  unfolding buffer_has_capacity
  buffer_has_capacity_lem =
      if_elim (HasRoom (alloc 0) n b) b.is_dynamic
        (λ _.
          if_elim (HasRoom (alloc 0) n b) (ltb (buffer_remaining_capacity b) n)
            (λ over. expand-HasRoom (
              omega
                (arith, ltb→lt (buffer_remaining_capacity b) n over, remaining_lem b v, v.within)))
            (λ fits.
              no_growth λ _. omega (arith, ltb-false→le _ n fits, remaining_lem b v, v.within)))
        (λ e. no_growth (λ d. absurd (ground arith)))

  -- A request that fits changes nothing.
  pub has_capacity_fits : b.offset + n ≤ b.size → buffer_has_capacity alloc n b ≡ some (true, b)
  has_capacity_fits fits =
      let h : HasRoom (alloc 0) n b (buffer_has_capacity alloc n b) = buffer_has_capacity_lem in
      h.returns ∙ cc ((h.fitting fits).0, (h.fitting fits).1)
