-- ===== src/Worker/Memory/Refinement.antt =====
-- What worker/src/memory/memory_manager.c promises to its callers: a flat memory for every file and
-- tag, whatever the replacement of pages does underneath.
use Prim.Native.String.{String}
use native.Mathlib.Nat.{div-add-mod', mod-lt}
use tp_sistemas_operativos.Base.{
  ℕ, ◌+◌, ◌-◌, ◌/◌, ◌%◌, ◌^◌, ◌≡◌, ◌<◌, ◌≤◌, inl, inr, refl, sym, ap, ◌∙◌, Bool, Option, none, some,
  List, [], length, get_elem?, ◌==◌, Bool-cases, arith, if_elim, ltb, ltb→lt, ltb-false→le,
  lookup_ge,
}
use tp_sistemas_operativos.Worker.Memory.State.{Memory, Storage, M, then_do}
use tp_sistemas_operativos.Worker.Memory.View.{name_at}
use tp_sistemas_operativos.Worker.Memory.Access.{
  mm_access_memory, mm_write_to_memory, mm_read_from_memory,
}
use tp_sistemas_operativos.Worker.Memory.Outcomes.{Ensures, refused, weaken, then-Ensures}
use tp_sistemas_operativos.Worker.Memory.Contents.{Serves, Sound, HeldBut}
use tp_sistemas_operativos.Worker.Memory.Bytes.{extensional}
use tp_sistemas_operativos.Worker.Memory.Evict.{Stays, stays}
use tp_sistemas_operativos.Worker.Memory.Written.{byte, at, Written, Abandoned}
use tp_sistemas_operativos.Worker.Memory.Loop.{write_loop_lem}
use tp_sistemas_operativos.Worker.Memory.Reading.{Reads, read_loop_lem}

module _ {R : Type 0} {storage : Storage R} {page_size : ℕ}
    (serves : Serves storage page_size) where
  -- The byte at an address of entry k.
  abbrev pub memory_at : Memory R → ℕ → ℕ → Option ℕ
  memory_at m k address = byte serves m k (address / page_size) (address % page_size)

  -- The invariant of the manager between two calls.
  pub record Consistent (m : Memory R) : Type 0 where
    pub sound : Sound serves m
    pub held : HeldBut m none

  -- The bytes are at the address and after, and no other byte of any file and tag changed.
  pub record Stores (i address : ℕ) (bytes : List ℕ) (m m' : Memory R) : Type 0 where
    pub consistent : Consistent m'
    pub names : (k : ℕ) → name_at m' k ≡ name_at m k
    pub inside : (x : ℕ) → x < length bytes → memory_at m' i (address + x) ≡ get_elem? bytes x
    pub outside :
        (k a : ℕ)
        → (k ≡ i → address ≤ a → ¬ (a < address + length bytes))
        → memory_at m' k a ≡ memory_at m k a

  -- What a failure leaves: no byte before the address of the call changed, nor any of another entry.
  pub record Fails (i address : ℕ) (m m' : Memory R) : Type 0 where
    pub consistent : Consistent m'
    pub names : (k : ℕ) → name_at m' k ≡ name_at m k
    pub others :
        (k a : ℕ)
        → (k ≡ i → a / page_size < address / page_size)
        → memory_at m' k a ≡ memory_at m k a

  -- The result is the bytes at the address and after, and no byte of any file and tag changed.
  pub record Loads (i address size : ℕ) (m : Memory R) (bytes : List ℕ) (m' : Memory R)
      : Type 0 where
    pub consistent : Consistent m'
    pub names : (k : ℕ) → name_at m' k ≡ name_at m k
    pub sized : length bytes ≡ size
    pub result : (x : ℕ) → x < size → get_elem? bytes x ≡ memory_at m i (address + x)
    pub kept : (k a : ℕ) → memory_at m' k a ≡ memory_at m k a

  module _ (m : Memory R) (c : Consistent m) (i address : ℕ) where
    positive : 0 < page_size
    positive = omega (arith, c.sound.valid.positive, c.sound.same_size)

    split : (a : ℕ) → at page_size (a / page_size) (a % page_size) ≡ a
    split a = div-add-mod' a page_size

    below : (a : ℕ) → a % page_size < page_size
    below a = mod-lt a positive

    stored :
        (bytes : List ℕ) (m' : Memory R)
        → Written serves i m (address / page_size) (address % page_size) bytes m'
        → Stores i address bytes m m'
    stored bytes m' w = record {
      consistent = record { sound = w.sound; held = w.held };
      names = w.names;
      inside = λ x h.
          w.inside ((address + x) / page_size) ((address + x) % page_size) (below (address + x))
            (omega (arith, split address, split (address + x)))
            (omega (arith, split address, split (address + x), h))
          ∙ ap (get_elem? bytes) (omega (arith, split address, split (address + x)));
      outside = λ k a away. w.outside k (a / page_size) (a % page_size) (below a) (λ same low high.
          away same (omega (arith, split address, split a, low))
            (omega (arith, split address, split a, high)));
    }

    loaded :
        (size : ℕ) (bytes : List ℕ) (m' : Memory R)
        → Reads serves i m (address / page_size) (address % page_size) size bytes m'
        → Loads i address size m bytes m'
    loaded size bytes m' r = record {
      consistent = record { sound = r.stays.sound; held = r.stays.held };
      names = r.stays.keeps.names;
      sized = r.sized;
      result = λ x h.
          let index : x
              ≡ at page_size ((address + x) / page_size) ((address + x) % page_size)
                - at page_size (address / page_size) (address % page_size) =
            omega (arith, split address, split (address + x)) in
          ap (get_elem? bytes) index
          ∙ r.bytes ((address + x) / page_size) ((address + x) % page_size) (below (address + x))
              (omega (arith, split address, split (address + x)))
              (omega (arith, split address, split (address + x), h));
      kept =
          λ k a. ap (λ c. get_elem? c (a % page_size)) (r.stays.keeps.contents k (a / page_size));
    }

    failed : (m' : Memory R) → Abandoned serves i m (address / page_size) m' → Fails i address m m'
    failed m' a = record {
      consistent = record { sound = a.sound; held = a.held };
      names = a.names;
      others = λ k b h. ap (λ c. get_elem? c (b % page_size)) (a.others k (b / page_size) h);
    }

    failed_idle : (m' : Memory R) → Stays serves m m' → Fails i address m m'
    failed_idle m' st = record {
      consistent = record { sound = st.sound; held = st.held };
      names = st.keeps.names;
      others = λ k b h. ap (λ c. get_elem? c (b % page_size)) (st.keeps.contents k (b / page_size));
    }

    module _ (granted : Bool) (file tag_name : String) (named : name_at m i ≡ some (file, tag_name))
        (limit : address / page_size < 2 ^ 32) where
      -- On a consistent manager, over a storage that keeps its blocks, for an entry of the given
      -- file and tag and an address whose page number is below 2 ^ 32, a write never faults and
      -- ends. When it succeeds, the memory of that entry holds the bytes from the address on, and
      -- no other byte of any entry has changed; when it fails, no byte of a page before that of
      -- the address and of no other entry has changed. The manager stays consistent and its
      -- entries keep their names.
      pub mm_write_to_memory-Stores :
          (bytes : List ℕ)
          → Ensures
              (λ _. Stores i address bytes m)
              (Fails i address m)
              (mm_write_to_memory storage granted i file tag_name address bytes m)
      unfolding mm_write_to_memory mm_access_memory
      mm_write_to_memory-Stores bytes =
          if_elim
            (λ (k : M R (List ℕ)).
              Ensures (λ _. Stores i address bytes m) (Fails i address m) (k m))
            (length bytes == 0) (λ _. refused m (failed_idle m (stays serves m c.sound c.held)))
            (λ _. simp c.sound.same_size (
              weaken
                (write_loop_lem serves i file tag_name granted (length bytes) (address / page_size)
                  (address % page_size) (length bytes) bytes m c.sound c.held named limit
                  (below address) (omega arith) refl)
                (λ _ m' w. stored bytes m' w) failed))

      -- On a consistent manager, over a storage that keeps its blocks, for an entry of the given
      -- file and tag and an address whose page number is below 2 ^ 32, a read never faults and
      -- ends. When it succeeds, its result is as long as was asked for and holds the bytes of the
      -- memory of that entry from the address on; whether it succeeds or fails, no byte of any
      -- entry changes and the manager stays consistent.
      pub mm_read_from_memory-Loads :
          (size : ℕ)
          → Ensures
              (Loads i address size m)
              (Stays serves m)
              (mm_read_from_memory storage granted i file tag_name address size m)
      unfolding mm_read_from_memory mm_access_memory
      mm_read_from_memory-Loads size =
          if_elim (λ (k : M R (List ℕ)). Ensures (Loads i address size m) (Stays serves m) (k m))
            (size == 0) (λ _. refused m (stays serves m c.sound c.held))
            (λ _. simp c.sound.same_size (
              weaken
                (read_loop_lem serves i file tag_name granted size (address / page_size)
                  (address % page_size) size [] m c.sound c.held named limit (below address)
                  (omega arith))
                (loaded size) (λ m' st. st)))

  -- The same bytes come back.
  read_back :
      (m m₁ m₂ : Memory R) (i address : ℕ) (bytes r : List ℕ)
      → Stores i address bytes m m₁
      → Loads i address (length bytes) m₁ r m₂
      → r ≡ bytes
  read_back m m₁ m₂ i address bytes r w l = extensional r bytes λ x.
      elim (Bool-cases (ltb x (length bytes))) [
        | inl b ↦ let h = ltb→lt x (length bytes) b in l.result x h ∙ w.inside x h
        | inr b ↦
            let h = ltb-false→le x (length bytes) b in
            lookup_ge r x (omega (arith, l.sized, h)) ∙ sym (lookup_ge bytes x h)
      ]

  -- On a consistent manager, over a storage that keeps its blocks, for an entry of the given file
  -- and tag and an address whose page number is below 2 ^ 32: writing any bytes at the address
  -- and then reading as many from it never faults and ends; it either gives the very bytes that
  -- were written, however the pages were replaced in between, or fails, and the manager is
  -- consistent after both.
  pub write-read :
      (m : Memory R)
      → Consistent m
      → (i address : ℕ) (granted again : Bool) (file tag_name : String)
      → name_at m i ≡ some (file, tag_name)
      → address / page_size < 2 ^ 32
      → (bytes : List ℕ)
      → Ensures
          (λ r m'. (r ≡ bytes) × Consistent m')
          Consistent
          (then_do
            (mm_write_to_memory storage granted i file tag_name address bytes m)
            (λ _. mm_read_from_memory storage again i file tag_name address (length bytes)))
  write-read m c i address granted again file tag_name named limit bytes =
      then-Ensures
        (weaken (mm_write_to_memory-Stores m c i address granted file tag_name named limit bytes)
          (λ _ m₁ w. w) (λ m₁ f. f.consistent))
        λ _ m₁ w.
          weaken
            (mm_read_from_memory-Loads m₁ w.consistent i address again file tag_name
              (w.names i ∙ named) limit (length bytes))
            (λ r m₂ l. (read_back m m₁ m₂ i address bytes r w l, l.consistent))
            (λ m₂ st. record { sound = st.sound; held = st.held })
