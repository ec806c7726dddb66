-- ===== src/Worker/Memory/Stuck.antt =====
-- Where `while (1)` of mm_find_clockm_victim in worker/src/memory/memory_manager.c does not end.
use native.Mathlib.Nat.{mod-lt}
use tp_sistemas_operativos.Base.{
  ℕ, zero, suc, ◌+◌, ◌%◌, ◌≡◌, ◌<◌, refl, inl, inr, none, length, lookup_lt, arith, Bool-cases,
}
use tp_sistemas_operativos.Worker.Memory.State.{Memory, Storage, endless, gives}
use tp_sistemas_operativos.Worker.Memory.Frames.{find_page, mm_find_page_for_frame}
use tp_sistemas_operativos.Worker.Memory.Clock.{next_frame, pass_one, pass_two, clock_rounds}

-- The pointer is on a frame, and no frame holds a page.
pub record Leaked {R : Type 0} (m : Memory R) : Type 0 where
  pub sized : length m.frames ≡ m.frame_count
  pub pointed : m.clock_pointer < m.frame_count
  pub empty : (frame : ℕ) → find_page frame 0 m.entries ≡ none

module _ {R : Type 0} (storage : Storage R) where
  turned :
      (m : Memory R)
      → Leaked m
      → Leaked (record m { clock_pointer = (m.clock_pointer + 1) % m.frame_count })
  turned m l = record {
    sized = l.sized;
    pointed = mod-lt (m.clock_pointer + 1) (omega (arith, l.pointed));
    empty = l.empty;
  }

  next_lem :
      (m : Memory R)
      → Leaked m
      → next_frame m
        ≡ gives
            (m.clock_pointer, none)
            (record m { clock_pointer = (m.clock_pointer + 1) % m.frame_count })
  unfolding next_frame mm_find_page_for_frame
  next_lem m l =
      let (used, there) = lookup_lt m.frames m.clock_pointer (omega (arith, l.sized, l.pointed)) in
      elim (Bool-cases used) [
        | inl u ↦ simp (there, u, l.empty m.clock_pointer) refl
        | inr u ↦ simp (there, u) refl
      ]

  pass_one_stuck :
      (n : ℕ) (m : Memory R)
      → Leaked m
      → (m' : Memory R) × (pass_one storage n m ≡ gives none m') × Leaked m'
  unfolding pass_one
  pass_one_stuck zero m l = (m, refl, l)
  pass_one_stuck (suc n) m l =
      let (m', run, l') =
        pass_one_stuck n (record m { clock_pointer = (m.clock_pointer + 1) % m.frame_count })
          (turned m l) in
      (m', rw (next_lem m l) run, l')

  pass_two_stuck :
      (n : ℕ) (m : Memory R)
      → Leaked m
      → (m' : Memory R) × (pass_two storage n none m ≡ gives none m') × Leaked m'
  unfolding pass_two
  pass_two_stuck zero m l = (m, refl, l)
  pass_two_stuck (suc n) m l =
      let (m', run, l') =
        pass_two_stuck n (record m { clock_pointer = (m.clock_pointer + 1) % m.frame_count })
          (turned m l) in
      (m', rw (next_lem m l) run, l')

  -- When the pointer of the clock is on a frame and no frame holds a page, the CLOCK-M
  -- replacement has not ended after any number of rounds, and has not faulted in them.
  pub clock_rounds-stuck :
      (m : Memory R) → Leaked m → (rounds : ℕ) → clock_rounds storage rounds m ≡ endless
  unfolding clock_rounds
  clock_rounds-stuck m l zero = refl
  clock_rounds-stuck m l (suc rounds) =
      let (m₁, one, l₁) = pass_one_stuck m.frame_count m l in
      let (m₂, two, l₂) = pass_two_stuck m.frame_count m₁ l₁ in
      rw (one, two) (clock_rounds-stuck m₂ l₂ rounds)
