-- ===== src/Worker/Memory/Reading.antt =====
-- Reads in worker/src/memory/memory_manager.c: the loop of mm_access_memory when it reads.
use Prim.Native.String.{String}
use native.Mathlib.Nat.{mod-eq_of_lt}
use tp_sistemas_operativos.Base.{
  ℕ, zero, suc, ◌+◌, ◌-◌, ◌^◌, ◌≡◌, ◌≢◌, ◌<◌, ◌≤◌, inl, inr, sym, ap, ◌∙◌, subst, Bool, false, none,
  some, List, [], ◌++◌, length, get_elem?, drop, ◌==◌, ==_iff, Bool-cases, arith, length-append,
  lookup-append_lt, lookup-append_ge, min,
}
use tp_sistemas_operativos.Worker.Memory.State.{Memory, Storage}
use tp_sistemas_operativos.Worker.Memory.View.{name_at}
use tp_sistemas_operativos.Worker.Memory.Access.{access_loop}
use tp_sistemas_operativos.Worker.Memory.Outcomes.{Ensures, returned, weaken, then-Ensures}
use tp_sistemas_operativos.Worker.Memory.Contents.{Serves, Sound, HeldBut, content}
use tp_sistemas_operativos.Worker.Memory.Bytes.{piece, lookup-piece, length-piece, frames_apart}
use tp_sistemas_operativos.Worker.Memory.Evict.{Stays, stays}
use tp_sistemas_operativos.Worker.Memory.Marks.{Stays-trans}
use tp_sistemas_operativos.Worker.Memory.Round.{read_round, then_ready}
use tp_sistemas_operativos.Worker.Memory.Written.{byte, at}
use tp_sistemas_operativos.Worker.Memory.Loop.{copy_bytes-frame, length-content}

module _ {R : Type 0} {storage : Storage R} {page_size : ℕ} (serves : Serves storage page_size)
    (i : ℕ) where
  -- The result has the n bytes from byte o of page j on, and no content changes.
  pub record Reads (m : Memory R) (j o n : ℕ) (r : List ℕ) (m' : Memory R) : Type 0 where
    pub stays : Stays serves m m'
    pub sized : length r ≡ n
    pub bytes :
        (l x : ℕ)
        → x < page_size
        → at page_size j o ≤ at page_size l x
        → at page_size l x < at page_size j o + n
        → get_elem? r (at page_size l x - at page_size j o) ≡ byte serves m i l x

  Reads-none :
      (m : Memory R) → Sound serves m → HeldBut m none → (j o n : ℕ) → n ≡ 0 → Reads m j o n [] m
  Reads-none m s held j o n none_left = record {
    stays = stays serves m s held;
    sized = sym none_left;
    bytes = λ l x h low high. absurd (omega (arith, none_left, low, high));
  }

  module _ (m m₁ m' : Memory R) (j o n count : ℕ) (st : Stays serves m m₁)
      (sized : length (content serves m₁ i j) ≡ page_size) (fits : o + count ≤ page_size)
      (part : count ≤ n) (more : n ≢ count → o + count ≡ page_size) (r : List ℕ)
      (rest : Reads m₁ (j + 1) 0 (n - count) r m') where
    abbrev first : List ℕ
    first = piece o count (content serves m₁ i j)

    length-first : length first ≡ count
    length-first = length-piece o count (content serves m₁ i j) (omega (arith, sized, fits))

    own_bytes :
        (x : ℕ)
        → x < page_size
        → at page_size j o ≤ at page_size j x
        → at page_size j x < at page_size j o + n
        → get_elem? (first ++ r) (at page_size j x - at page_size j o) ≡ byte serves m i j x
    own_bytes x h low high =
        let from_o : o ≤ x = omega arith in
        let index : at page_size j x - at page_size j o ≡ x - o = omega arith in
        let inside : x - o < count = omega (arith, from_o, reached (omega arith)) in
        let back : o + (x - o) ≡ x = omega arith in
        ap (get_elem? (first ++ r)) index
        ∙ lookup-append_lt first r (x - o) (omega (arith, inside, length-first))
        ∙ lookup-piece o count (content serves m₁ i j) (x - o) inside
        ∙ ap (get_elem? (content serves m₁ i j)) back
        ∙ ap (λ c. get_elem? c x) (st.keeps.contents i j)
      where
        reached : x < o + n → x < o + count
        reached high = elim (Bool-cases (n == count)) [
          | inl b ↦ omega (arith, high, (==_iff n count).0 b)
          | inr b ↦ omega (arith, h, more (λ e. absurd (ground (arith, b, e))))
        ]

    later_bytes :
        (l x : ℕ)
        → x < page_size
        → l ≢ j
        → at page_size j o ≤ at page_size l x
        → at page_size l x < at page_size j o + n
        → get_elem? (first ++ r) (at page_size l x - at page_size j o) ≡ byte serves m i l x
    later_bytes l x h other low high = elim (frames_apart l j page_size other) [
      | inl k ↦ absurd (omega arith)
      | inr k ↦
          let full : o + count ≡ page_size = more (λ e. absurd (omega (arith, e, fits, k, high))) in
          let beyond : at page_size (j + 1) 0 ≤ at page_size l x = omega (arith, k) in
          let index : at page_size l x - at page_size j o
              ≡ length first + (at page_size l x - at page_size (j + 1) 0) =
            omega (arith, length-first, full, beyond) in
          ap (get_elem? (first ++ r)) index
          ∙ lookup-append_ge first r (at page_size l x - at page_size (j + 1) 0)
          ∙ rest.bytes l x h beyond (omega (arith, full, high, beyond, part))
          ∙ ap (λ c. get_elem? c x) (st.keeps.contents i l)
    ]

    -- A round and the rest of the read.
    joined_read : Reads m j o n (first ++ r) m'
    joined_read = record {
      stays = Stays-trans serves st.keeps rest.stays;
      sized = omega (arith, length-append first r, length-first, rest.sized, part);
      bytes = λ l x h low high. elim (Bool-cases (l == j)) [
        | inl b ↦
            subst
              (λ l.
                at page_size j o ≤ at page_size l x
                → at page_size l x < at page_size j o + n
                → get_elem? (first ++ r) (at page_size l x - at page_size j o)
                  ≡ byte serves m i l x)
              (sym ((==_iff l j).0 b)) (own_bytes x h) low high
        | inr b ↦ later_bytes l x h (λ e. absurd (ground (arith, b, e))) low high
      ];
    }

  pub read_loop_lem :
      (file tag_name : String) (granted : Bool) (fuel j o remaining : ℕ) (bytes : List ℕ)
      (m : Memory R)
      → Sound serves m
      → HeldBut m none
      → name_at m i ≡ some (file, tag_name)
      → j < 2 ^ 32
      → o < page_size
      → remaining ≤ fuel
      → Ensures
          (Reads m j o remaining)
          (Stays serves m)
          (access_loop storage fuel granted false i file tag_name j o remaining bytes m)
  unfolding access_loop
  read_loop_lem file tag_name granted zero j o remaining bytes m s held named limit inside enough =
      let done : remaining ≡ 0 = omega (arith, enough) in
      rw ((==_iff remaining 0).1 done) (returned [] m (Reads-none m s held j o remaining done))
  read_loop_lem file tag_name granted (suc fuel) j o remaining bytes m s held named limit inside
        enough =
      elim (Bool-cases (remaining == 0)) [
        | inl z ↦
            rw (access_loop, z)
              (returned [] m (Reads-none m s held j o remaining ((==_iff remaining 0).0 z)))
        | inr z ↦
            rw (access_loop, z)
              (then_ready serves granted i j file tag_name _ m s held named limit
                (λ p p' m₁ st h a same next.
                  let ps : m₁.page_size ≡ page_size = st.sound.same_size in
                  let some_left : remaining ≢ 0 = λ e. absurd (ground (arith, z, e)) in
                  let count = min (m₁.page_size - o) remaining in
                  let fits : o + count ≤ m₁.page_size = omega (arith, ps, inside) in
                  let sized = length-content serves i m₁ st.sound j p' h a in
                  rw
                    (
                      copy_bytes-frame storage false i j p p' o count bytes m₁ same,
                      read_round serves m₁ st.sound st.held i j p' h a o count fits bytes,
                      mod-eq_of_lt next,
                    )
                    (then-Ensures
                      (weaken
                        (read_loop_lem file tag_name granted fuel (j + 1) 0 (remaining - count)
                          (drop count bytes) m₁ st.sound st.held (st.keeps.names i ∙ named) next
                          (omega (arith, inside)) (omega (arith, enough, some_left, inside, ps)))
                        (λ r m' x. x) (λ m' x. Stays-trans serves st.keeps x))
                      λ r m' x. returned _ m' (
                        joined_read m m₁ m' j o remaining count st sized (omega (arith, fits, ps))
                          (omega arith) (λ e. omega (arith, e, ps, inside)) r x)))
                (λ m' st. st))
      ]
