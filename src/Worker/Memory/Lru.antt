-- ===== src/Worker/Memory/Lru.antt =====
-- worker/src/memory/memory_manager.c: mm_find_lru_victim. The page that was used longest ago gives
-- its frame; UINT32_MAX for the frame stands for no victim.
use tp_sistemas_operativos.Base.{
  ℕ, ◌+◌, ◌-◌, ◌^◌, ◌&&◌, Option, none, some, List, [], ◌∷◌, ltb, ◌==◌, if◌then◌else◌,
}
use tp_sistemas_operativos.Worker.PageTable.{Entry}
use tp_sistemas_operativos.Worker.Memory.State.{
  FileTagEntry, Storage, M, ◌>>=◌, ◌>>◌, pure, failure, page_at,
}
use tp_sistemas_operativos.Worker.Memory.Frames.{write_page, release_page}

pub record Candidate : Type 0 where
  pub oldest_time : ℕ
  pub victim_frame : ℕ
  pub victim : Option (ℕ × ℕ)

abbrev pub no_candidate : Candidate
no_candidate = record { oldest_time = 2 ^ 64 - 1; victim_frame = 2 ^ 32 - 1; victim = none }

-- The loop over the pages of entry i, from page j on.
unfoldable pub scan_pages : ℕ → ℕ → List Entry → Candidate → Candidate
scan_pages i j [] c = c
scan_pages i j (p ∷ ps) c = scan_pages i (j + 1) ps (
    if p.present && ltb p.last_access_time c.oldest_time
    then record { oldest_time = p.last_access_time; victim_frame = p.frame; victim = some (i, j) }
    else c)

-- The loop over the entries, from entry i on.
unfoldable pub scan_entries : ℕ → List FileTagEntry → Candidate → Candidate
scan_entries i [] c = c
scan_entries i (e ∷ es) c = scan_entries (i + 1) es (scan_pages i 0 e.page_table.entries c)

module _ {R : Type 0} (storage : Storage R) where
  -- A dirty victim is written first.
  unfoldable pub replace_lru : Candidate → M R ℕ
  replace_lru c = if c.victim_frame == 2 ^ 32 - 1 then failure else elim c.victim [
    | none ↦ failure
    | some (i, j) ↦ do
      page ← page_at i j
      if page.dirty then write_page storage i j c.victim_frame else pure tt
      release_page storage i j c.victim_frame
      pure c.victim_frame
  ]

  unfoldable pub mm_find_lru_victim : M R ℕ
  mm_find_lru_victim m = replace_lru (scan_entries 0 m.entries no_candidate) m
