-- ===== src/Worker/Memory/Loop.antt =====
-- The loop of mm_access_memory in worker/src/memory/memory_manager.c, and mm_write_to_memory.
use Prim.Native.String.{String}
use native.Mathlib.Nat.{mod-eq_of_lt}
use tp_sistemas_operativos.Base.{
  ℕ, zero, suc, ◌+◌, ◌-◌, ◌^◌, ◌≡◌, ◌≢◌, ◌<◌, ◌≤◌, inl, inr, refl, ap, ◌∙◌, Bool, true, none, some,
  List, [], ◌++◌, length, take, drop, ◌==◌, ==_iff, Bool-cases, arith, length-take, length-drop,
  min,
}
use tp_sistemas_operativos.Worker.PageTable.{Entry}
use tp_sistemas_operativos.Worker.Memory.State.{Memory, Storage, Outcome}
use tp_sistemas_operativos.Worker.Memory.View.{page, name_at}
use tp_sistemas_operativos.Worker.Memory.Access.{access_loop, copy_bytes}
use tp_sistemas_operativos.Worker.Memory.Outcomes.{Ensures, returned, weaken, then-Ensures}
use tp_sistemas_operativos.Worker.Memory.Contents.{Serves, Sound, HeldBut, content}
use tp_sistemas_operativos.Worker.Memory.Steps.{used_bound}
use tp_sistemas_operativos.Worker.Memory.Evict.{Stays, page_content, length-frame_bytes}
use tp_sistemas_operativos.Worker.Memory.Round.{Splices, write_round, then_ready}
use tp_sistemas_operativos.Worker.Memory.Written.{Written, Abandoned, joined}

-- Of the entry only the frame matters.
pub copy_bytes-frame :
    {R : Type 0} (storage : Storage R) (write : Bool) (i j : ℕ) (p p' : Entry) (o count : ℕ)
    (bytes : List ℕ) (m : Memory R)
    → p'.frame ≡ p.frame
    → copy_bytes storage write i j p o count bytes m
      ≡ copy_bytes storage write i j p' o count bytes m
unfolding copy_bytes
copy_bytes-frame storage write i j p p' o count bytes m e = rw e refl

module _ {R : Type 0} {storage : Storage R} {page_size : ℕ} (serves : Serves storage page_size)
    (i : ℕ) where
  -- The content of a page that is present has the size of a page.
  pub length-content :
      (m : Memory R)
      → Sound serves m
      → (j : ℕ) (p : Entry) → page m i j ≡ some p
      → p.present ≡ true
      → length (content serves m i j) ≡ page_size
  length-content m s j p h a =
      ap length (page_content serves m s i j p h a)
      ∙ length-frame_bytes m p.frame s.valid
          (used_bound m s.valid p.frame (s.valid.resident i j p h a))
      ∙ s.same_size

module _ {R : Type 0} {storage : Storage R} {page_size : ℕ} (serves : Serves storage page_size)
    (i : ℕ) (file tag_name : String) (granted : Bool) where
  -- The bytes that a round takes.
  abbrev chunk : Memory R → ℕ → ℕ → ℕ
  chunk m o remaining = min (m.page_size - o) remaining

  Written-none :
      (m : Memory R)
      → Sound serves m
      → HeldBut m none
      → (j o : ℕ) (bytes : List ℕ) → length bytes ≡ 0
      → Written serves i m j o bytes m
  Written-none m s held j o bytes none_left = record {
    sound = s;
    held = held;
    names = λ k. refl;
    inside = λ l x h low high. absurd (omega (arith, none_left, low, high));
    outside = λ k l x h away. refl;
  }

  abandon : (m m' : Memory R) (j : ℕ) → Stays serves m m' → Abandoned serves i m j m'
  abandon m m' j st = record {
    sound = st.sound;
    held = st.held;
    names = st.keeps.names;
    others = λ k l h. st.keeps.contents k l;
  }

  abandon_later :
      (m m₁ m₂ m' : Memory R) (j o : ℕ) (bytes : List ℕ)
      → Stays serves m m₁
      → Splices serves m₁ i j o bytes m₂
      → Abandoned serves i m₂ (j + 1) m'
      → Abandoned serves i m j m'
  abandon_later m m₁ m₂ m' j o bytes st sp a = record {
    sound = a.sound;
    held = a.held;
    names = λ k. a.names k ∙ sp.names k ∙ st.keeps.names k;
    others = λ k l h.
        a.others k l (λ e. omega (arith, h e))
        ∙ sp.elsewhere k l (λ e same. absurd (omega (arith, h e, same)))
        ∙ st.keeps.contents k l;
  }

  abbrev pub Writes : Memory R → ℕ → ℕ → List ℕ → Outcome R (List ℕ) → Type 0
  Writes m j o bytes out =
      Ensures (λ _ m'. Written serves i m j o bytes m') (Abandoned serves i m j) out

  pub write_loop_lem :
      (fuel j o remaining : ℕ) (bytes : List ℕ) (m : Memory R)
      → Sound serves m
      → HeldBut m none
      → name_at m i ≡ some (file, tag_name)
      → j < 2 ^ 32
      → o < page_size
      → remaining ≤ fuel
      → length bytes ≡ remaining
      → Writes m j o bytes
          (access_loop storage fuel granted true i file tag_name j o remaining bytes m)
  unfolding access_loop
  write_loop_lem zero j o remaining bytes m s held named limit inside enough sized =
      let done : remaining ≡ 0 = omega (arith, enough) in
      rw ((==_iff remaining 0).1 done)
        (returned [] m (Written-none m s held j o bytes (sized ∙ done)))
  write_loop_lem (suc fuel) j o remaining bytes m s held named limit inside enough sized =
      elim (Bool-cases (remaining == 0)) [
        | inl z ↦
            rw (access_loop, z)
              (returned [] m (Written-none m s held j o bytes (sized ∙ (==_iff remaining 0).0 z)))
        | inr z ↦
            rw (access_loop, z)
              (then_ready serves granted i j file tag_name _ m s held named limit
                (λ p p' m₁ st h a same next.
                  let ps : m₁.page_size ≡ page_size = st.sound.same_size in
                  let some_left : remaining ≢ 0 = λ e. absurd (ground (arith, z, e)) in
                  let count = chunk m₁ o remaining in
                  let fits : o + count ≤ m₁.page_size = omega (arith, ps, inside) in
                  let taken : length (take count bytes) ≡ count =
                    omega (arith, length-take count bytes, sized) in
                  rw
                    (
                      copy_bytes-frame storage true i j p p' o count bytes m₁ same,
                      mod-eq_of_lt next,
                    )
                    (then-Ensures
                      (weaken
                        (write_round serves m₁ st.sound st.held i j p' h a o count fits bytes taken)
                        (λ part m₂ x. x) (λ m₂ n. absurd n))
                      λ part m₂ (_, sp).
                        then-Ensures
                          (weaken
                            (write_loop_lem fuel (j + 1) 0 (remaining - count) (drop count bytes) m₂
                              sp.sound sp.held (sp.names i ∙ st.keeps.names i ∙ named) next
                              (omega (arith, inside)) (omega (arith, enough, some_left, inside, ps))
                              (omega (arith, length-drop count bytes, sized)))
                            (λ rest m' w. w)
                            (λ m' x. abandon_later m m₁ m₂ m' j o (take count bytes) st sp x))
                          λ rest m' w. returned (part ++ rest) m' (
                            joined serves i m m₁ m₂ j o bytes count st sp
                              (length-content serves i m₁ st.sound j p' h a)
                              (omega (arith, fits, ps)) (omega (arith, sized))
                              (λ e. omega (arith, e, sized, ps, inside)) m' w)))
                (λ m' st. abandon m m' j st))
      ]
