-- ===== src/Worker/Memory/Clock.antt =====
-- worker/src/memory/memory_manager.c: mm_find_clockm_victim. The loop `while (1)` runs on fuel, and
-- is endless when it has not ended in the rounds that are granted.
use tp_sistemas_operativos.Base.{
  ℕ, zero, suc, ◌+◌, ◌%◌, false, not, ◌&&◌, Option, none, some, get_elem?, ◌==◌, if◌then◌else◌,
}
use tp_sistemas_operativos.Worker.PageTable.{change_entry}
use tp_sistemas_operativos.Worker.Memory.State.{
  Policy, Storage, fails, gives, M, ◌>>=◌, ◌>>◌, then_do, pure, out_of_rounds, gets, modify, within,
  on_table, page_at,
}
use tp_sistemas_operativos.Worker.Memory.Frames.{mm_find_page_for_frame, write_page, release_page}

-- The frame under the pointer, and the page that it holds; the pointer goes on.
unfoldable pub next_frame : {R : Type 0} → M R (ℕ × Option (ℕ × ℕ))
next_frame m = then_do (within (get_elem? m.frames m.clock_pointer) m) λ used m.
    gives (m.clock_pointer, if not used then none else mm_find_page_for_frame m m.clock_pointer)
      (record m { clock_pointer = (m.clock_pointer + 1) % m.frame_count })

-- The rounds that are granted.
abbrev pub clock_fuel : ℕ
clock_fuel = 2

module _ {R : Type 0} (storage : Storage R) where
  -- The first pass, with n frames to go: the frame of a page that is neither used nor dirty.
  unfoldable pub pass_one : ℕ → M R (Option ℕ)
  pass_one zero = pure none
  pass_one (suc n) = do
    frame ← next_frame
    elim frame.1 [
      | none ↦ pass_one n
      | some (i, j) ↦ do
        page ← page_at i j
        let rest = pass_one n
        if not page.use_bit && not page.dirty
            then release_page storage i j frame.0 >> pure (some frame.0)
            else rest
    ]

  -- The second pass: the first page that is dirty and not used, and the use bits cleared.
  unfoldable pub pass_two : ℕ → Option (ℕ × (ℕ × ℕ)) → M R (Option (ℕ × (ℕ × ℕ)))
  pass_two zero candidate = pure candidate
  pass_two (suc n) candidate = do
    frame ← next_frame
    elim frame.1 [
      | none ↦ pass_two n candidate
      | some (i, j) ↦ do
        page ← page_at i j
        cleared ← on_table i (λ pt. change_entry pt j (λ p. record p { use_bit = false }))
        pass_two n (elim candidate [
          | some c ↦ some c
          | none ↦ if not page.use_bit && page.dirty then some (frame.0, (i, j)) else none
        ])
    ]

  unfoldable pub replace_dirty : ℕ → ℕ → ℕ → M R ℕ
  replace_dirty frame i j = do
    write_page storage i j frame
    release_page storage i j frame
    modify (λ m. record m { clock_pointer = (frame + 1) % m.frame_count })
    pure frame

  unfoldable pub clock_rounds : ℕ → M R ℕ
  clock_rounds zero = out_of_rounds
  clock_rounds (suc fuel) = do
    frame_count ← gets (λ m. m.frame_count)
    clean ← pass_one frame_count
    elim clean [
      | some frame ↦ pure frame
      | none ↦ do
        dirty ← pass_two frame_count none
        elim dirty [ some (frame, (i, j)) ↦ replace_dirty frame i j | none ↦ clock_rounds fuel ]
    ]

  unfoldable pub mm_find_clockm_victim : M R ℕ
  mm_find_clockm_victim m = elim m.policy [
    | Policy.lru ↦ fails m
    | Policy.clock_m ↦ if m.frame_count == 0 then fails m else clock_rounds clock_fuel m
  ]
