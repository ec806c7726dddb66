-- ===== src/Worker/Memory/Frames.antt =====
-- worker/src/memory/memory_manager.c: frames, the page that a frame holds, the marks that an access
-- leaves, and the replacement of a page.
use tp_sistemas_operativos.Base.{
  ℕ, ◌+◌, ◌*◌, ◌%◌, ◌^◌, Bool, true, false, not, ◌&&◌, Option, none, some, List, [], ◌∷◌, get_elem?,
  set, leb, ◌==◌, if◌then◌else◌,
}
use tp_sistemas_operativos.Worker.PageTable.{Entry, pt_unmap, change_entry}
use tp_sistemas_operativos.Worker.Memory.State.{
  Policy, FileTagEntry, Memory, Storage, fails, gives, M, ◌>>=◌, ◌>>◌, pure, failure, gets, modify,
  within, on_table, entry_at, load_bytes,
}

abbrev pub use_frame : {R : Type 0} → ℕ → Bool → Memory R → Memory R
use_frame frame used m = record m { frames = set m.frames frame used }

unfoldable pub mm_free_frame : {R : Type 0} → ℕ → Memory R → Memory R
mm_free_frame frame m = if leb m.frame_count frame then m else use_frame frame false m

-- The offset in the physical memory; `none` is NULL.
unfoldable pub mm_get_frame_address : {R : Type 0} → Memory R → ℕ → Option ℕ
mm_get_frame_address m frame = if leb m.frame_count frame then none else some (frame * m.page_size)

-- The first free frame from i on.
unfoldable pub free_frame : ℕ → List Bool → Option ℕ
free_frame i [] = none
free_frame i (used ∷ frames) =
    let rest = free_frame (i + 1) frames in if not used then some i else rest

-- The first page of a table that a frame holds, from page j on.
unfoldable pub page_in : ℕ → ℕ → List Entry → Option ℕ
page_in frame j [] = none
page_in frame j (p ∷ ps) =
    let rest = page_in frame (j + 1) ps in if p.present && p.frame == frame then some j else rest

-- The entry and the page, from entry i on.
unfoldable pub find_page : ℕ → ℕ → List FileTagEntry → Option (ℕ × ℕ)
find_page frame i [] = none
find_page frame i (e ∷ es) = elim (page_in frame 0 e.page_table.entries) [
  | some j ↦ some (i, j)
  | none ↦ find_page frame (i + 1) es
]

unfoldable pub mm_find_page_for_frame : {R : Type 0} → Memory R → ℕ → Option (ℕ × ℕ)
mm_find_page_for_frame m frame = find_page frame 0 m.entries

abbrev pub marked : Policy → ℕ → Entry → Entry
marked Policy.lru now p = record p { last_access_time = now }
marked Policy.clock_m now p = record p { use_bit = true }

-- A page beyond the table is left alone.
unfoldable pub mm_update_page_access : {R : Type 0} → ℕ → ℕ → M R (Unit {0})
mm_update_page_access i page_number = do
  e ← entry_at i
  if leb e.page_table.page_count page_number then pure tt else do
    now ← gets (λ m. (m.global_timestamp + 1) % 2 ^ 64)
    policy ← gets (λ m. m.policy)
    modify
        λ m. elim m.policy [ Policy.lru ↦ record m { global_timestamp = now } | Policy.clock_m ↦ m ]
    done ← on_table i (λ pt. change_entry pt page_number (marked policy now))
    pure tt

module _ {R : Type 0} (storage : Storage R) where
  -- A page as it is in its frame, to its block in the storage. Without a connection or an address
  -- nothing is sent.
  unfoldable pub write_page : ℕ → ℕ → ℕ → M R (Unit {0})
  write_page i page_number frame = do
    e ← entry_at i
    m ← gets (λ m. m)
    address ← elim (mm_get_frame_address m frame) [ none ↦ failure | some a ↦ pure a ]
    bytes ← load_bytes address m.page_size
    elim m.storage_socket [
      | none ↦ failure
      | some _ ↦ λ m.
          let r = storage.write_block_to_storage e.file e.tag_name page_number bytes m.remote in
          if r.0 then gives tt (record m { remote = r.1 }) else fails (record m { remote = r.1 })
    ]

  -- A page loses its frame, which becomes free.
  unfoldable pub release_page : ℕ → ℕ → ℕ → M R (Unit {0})
  release_page i page_number frame = do
    e ← entry_at i
    unmapped ← on_table i (λ pt. pt_unmap pt page_number)
    used ← λ m. within (get_elem? m.frames frame) m
    modify λ m. record m {
      frames = set m.frames frame false;
      last_victim =
          some (record { file = e.file; tag_name = e.tag_name; page_number = page_number });
    }
