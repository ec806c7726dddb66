-- ===== src/Worker/Memory/Written.antt =====
-- What a write of several pages leaves, in worker/src/memory/memory_manager.c: byte by byte.
use tp_sistemas_operativos.Base.{
  ℕ, ◌+◌, ◌-◌, ◌*◌, ◌≡◌, ◌≢◌, ◌<◌, ◌≤◌, inl, inr, sym, ap, ◌∙◌, subst, Option, none, List, length,
  get_elem?, take, drop, ◌==◌, ==_iff, Bool-cases, arith, length-take, length-drop, lookup-take,
  lookup-drop,
}
use tp_sistemas_operativos.Worker.Memory.State.{Memory, Storage}
use tp_sistemas_operativos.Worker.Memory.View.{name_at}
use tp_sistemas_operativos.Worker.Memory.Contents.{Serves, Sound, HeldBut, content}
use tp_sistemas_operativos.Worker.Memory.Bytes.{lookup-spliced_in, lookup-spliced_out, frames_apart}
use tp_sistemas_operativos.Worker.Memory.Local.{where_is}
use tp_sistemas_operativos.Worker.Memory.Evict.{Stays}
use tp_sistemas_operativos.Worker.Memory.Round.{Splices}

-- The address of byte o of page l.
abbrev pub at : ℕ → ℕ → ℕ → ℕ
at page_size l o = l * page_size + o

module _ {R : Type 0} {storage : Storage R} {page_size : ℕ}
    (serves : Serves storage page_size) where
  -- Byte o of page l of entry k.
  abbrev pub byte : Memory R → ℕ → ℕ → ℕ → Option ℕ
  byte m k l o = get_elem? (content serves m k l) o

module _ {R : Type 0} {storage : Storage R} {page_size : ℕ} (serves : Serves storage page_size)
    (i : ℕ) where
  -- From the address of byte o of page j on, the bytes are those given; all others, in all entries,
  -- are as they were.
  pub record Written (m : Memory R) (j o : ℕ) (bytes : List ℕ) (m' : Memory R) : Type 0 where
    pub sound : Sound serves m'
    pub held : HeldBut m' none
    pub names : (k : ℕ) → name_at m' k ≡ name_at m k
    pub inside :
        (l x : ℕ)
        → x < page_size
        → at page_size j o ≤ at page_size l x
        → at page_size l x < at page_size j o + length bytes
        → byte serves m' i l x ≡ get_elem? bytes (at page_size l x - at page_size j o)
    pub outside :
        (k l x : ℕ)
        → x < page_size
        → (k ≡ i
            → at page_size j o ≤ at page_size l x
            → ¬ (at page_size l x < at page_size j o + length bytes))
        → byte serves m' k l x ≡ byte serves m k l x

  -- After a write that was given up, the pages before page j and the other entries are as they were.
  pub record Abandoned (m : Memory R) (j : ℕ) (m' : Memory R) : Type 0 where
    pub sound : Sound serves m'
    pub held : HeldBut m' none
    pub names : (k : ℕ) → name_at m' k ≡ name_at m k
    pub others : (k l : ℕ) → (k ≡ i → l < j) → content serves m' k l ≡ content serves m k l

  module _ (m m₁ m₂ : Memory R) (j o : ℕ) (bytes : List ℕ) (count : ℕ) (stays : Stays serves m m₁)
      (splices : Splices serves m₁ i j o (take count bytes) m₂)
      (sized : length (content serves m₁ i j) ≡ page_size) (fits : o + count ≤ page_size)
      (part : count ≤ length bytes) (more : length bytes ≢ count → o + count ≡ page_size) where
    taken : length (take count bytes) ≡ count
    taken = omega (arith, length-take count bytes, part)

    room : o + length (take count bytes) ≤ length (content serves m₁ i j)
    room = omega (arith, taken, sized, fits)

    round_inside : (x : ℕ) → x < count → byte serves m₂ i j (o + x) ≡ get_elem? bytes x
    round_inside x h =
        ap (λ c. get_elem? c (o + x)) splices.here
        ∙ lookup-spliced_in o (take count bytes) (content serves m₁ i j) room x
            (omega (arith, h, taken))
        ∙ lookup-take count bytes x h

    round_outside :
        (k l x : ℕ)
        → (k ≡ i → l ≡ j → o ≤ x → ¬ (x < o + count))
        → byte serves m₂ k l x ≡ byte serves m k l x
    round_outside k l x away = elim (where_is i j k l) [
      | inl (a, b) ↦
          ap (λ k. byte serves m₂ k l x) a
          ∙ ap (λ l. byte serves m₂ i l x) b
          ∙ ap (λ c. get_elem? c x) splices.here
          ∙ lookup-spliced_out o (take count bytes) (content serves m₁ i j) x room
              (λ low high. away a b low (omega (arith, high, taken)))
          ∙ ap (λ c. get_elem? c x) (stays.keeps.contents i j)
          ∙ sym (ap (λ l. byte serves m i l x) b)
          ∙ sym (ap (λ k. byte serves m k l x) a)
      | inr other ↦ ap (λ c. get_elem? c x) (splices.elsewhere k l other ∙ stays.keeps.contents k l)
    ]

    abbrev rest_bytes : List ℕ
    rest_bytes = drop count bytes

    left : length rest_bytes ≡ length bytes - count
    left = length-drop count bytes

    module _ (m' : Memory R) (rest : Written m₂ (j + 1) 0 rest_bytes m') where
      -- A byte of another page of the range comes after the round.
      later :
          (l x : ℕ)
          → x < page_size
          → l ≢ j
          → at page_size j o ≤ at page_size l x
          → at page_size l x < at page_size j o + length bytes
          → (at page_size (j + 1) 0 ≤ at page_size l x) × (o + count ≡ page_size)
      later l x h other low high = elim (frames_apart l j page_size other) [
        | inl k ↦ absurd (omega arith)
        | inr k ↦
            let full : o + count ≡ page_size =
              more (λ e. absurd (omega (arith, e, fits, k, high))) in
            (omega (arith, k), full)
      ]

      -- The round wrote all of the range that is in its page.
      reached : (x : ℕ) → x < page_size → x < o + length bytes → x < o + count
      reached x h high = elim (Bool-cases (length bytes == count)) [
        | inl b ↦ omega (arith, high, (==_iff (length bytes) count).0 b)
        | inr b ↦ omega (arith, h, more (λ e. absurd (ground (arith, b, e))))
      ]

      own_inside :
          (x : ℕ)
          → x < page_size
          → at page_size j o ≤ at page_size j x
          → at page_size j x < at page_size j o + length bytes
          → byte serves m' i j x ≡ get_elem? bytes (at page_size j x - at page_size j o)
      own_inside x h low high =
          let from_o : o ≤ x = omega arith in
          let back : o + (x - o) ≡ x = omega arith in
          let index : x - o ≡ at page_size j x - at page_size j o = omega arith in
          rest.outside i j x h (λ _ beyond. absurd (omega arith))
          ∙ sym (ap (byte serves m₂ i j) back)
          ∙ round_inside (x - o) (omega (arith, from_o, reached x h (omega arith)))
          ∙ ap (get_elem? bytes) index

      -- What the rest wrote is in the range.
      in_range :
          (l x : ℕ)
          → at page_size (j + 1) 0 ≤ at page_size l x
          → at page_size l x < at page_size (j + 1) 0 + length rest_bytes
          → at page_size l x < at page_size j o + length bytes
      in_range l x beyond high = elim (Bool-cases (length bytes == count)) [
        | inl b ↦ absurd (omega (arith, beyond, high, left, (==_iff (length bytes) count).0 b))
        | inr b ↦ omega (arith, high, left, part, more (λ e. absurd (ground (arith, b, e))))
      ]

      joined_outside :
          (k l x : ℕ)
          → x < page_size
          → (k ≡ i
              → at page_size j o ≤ at page_size l x
              → ¬ (at page_size l x < at page_size j o + length bytes))
          → byte serves m' k l x ≡ byte serves m k l x
      joined_outside k l x h away =
          rest.outside k l x h
            (λ same beyond high. away same (omega (arith, beyond, fits)) (in_range l x beyond high))
          ∙ round_outside k l x (λ a b low high.
            away a (subst (λ n. at page_size j o ≤ at page_size n x) (sym b) (omega arith)) (
              subst (λ n. at page_size n x < at page_size j o + length bytes) (sym b)
                (omega (arith, high, part))))

      joined_inside :
          (l x : ℕ)
          → x < page_size
          → at page_size j o ≤ at page_size l x
          → at page_size l x < at page_size j o + length bytes
          → byte serves m' i l x ≡ get_elem? bytes (at page_size l x - at page_size j o)
      joined_inside l x h low high = elim (Bool-cases (l == j)) [
        | inl b ↦
            let here : l ≡ j = (==_iff l j).0 b in
            subst
              (λ l.
                at page_size j o ≤ at page_size l x
                → at page_size l x < at page_size j o + length bytes
                → byte serves m' i l x ≡ get_elem? bytes (at page_size l x - at page_size j o))
              (sym here) (own_inside x h) low high
        | inr b ↦
            let (beyond, full) = later l x h (λ e. absurd (ground (arith, b, e))) low high in
            rest.inside l x h beyond (omega (arith, left, full, high, beyond, part))
            ∙ lookup-drop count bytes (at page_size l x - at page_size (j + 1) 0)
            ∙ ap (get_elem? bytes) (omega (arith, full, beyond))
      ]

      pub joined : Written m j o bytes m'
      joined = record {
        sound = rest.sound;
        held = rest.held;
        names = λ k. rest.names k ∙ splices.names k ∙ stays.keeps.names k;
        inside = joined_inside;
        outside = joined_outside;
      }
