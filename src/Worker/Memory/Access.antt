-- ===== src/Worker/Memory/Access.antt =====
-- worker/src/memory/memory_manager.c: allocation of frames, page faults, and the loop that reads or
-- writes memory page by page. The retardation and the logs are left out. `granted` says whether a
-- page table can be made longer.
use Prim.Native.String.{String}
use tp_sistemas_operativos.Base.{
  ℕ, zero, suc, ◌+◌, ◌-◌, ◌/◌, ◌%◌, ◌^◌, Bool, true, false, Option, none, some, List, [], ◌++◌,
  length, take, drop, replicate, leb, min, ◌==◌, if◌then◌else◌,
}
use tp_sistemas_operativos.Worker.PageTable.{Entry, PageTable, pt_map, pt_set_dirty}
use tp_sistemas_operativos.Worker.Memory.State.{
  Policy, Storage, ReadResult, gives, M, ◌>>=◌, ◌>>◌, then_do, pure, failure, out_of_rounds, gets,
  modify, within, on_failure, on_table, entry_at, page_at, load_bytes, store_bytes,
}
use tp_sistemas_operativos.Worker.Memory.Tables.{resize_table}
use tp_sistemas_operativos.Worker.Memory.Frames.{
  use_frame, mm_free_frame, mm_get_frame_address, free_frame, mm_update_page_access,
}
use tp_sistemas_operativos.Worker.Memory.Lru.{mm_find_lru_victim}
use tp_sistemas_operativos.Worker.Memory.Clock.{mm_find_clockm_victim}

-- The bytes of a block in a page: cut to the page, or filled up with zeros.
abbrev pub padded : ℕ → List ℕ → List ℕ
padded page_size bytes = take page_size bytes ++ replicate (page_size - length bytes) 0

abbrev pub page_bytes : ℕ → ReadResult → Option (List ℕ)
page_bytes page_size (ReadResult.block bytes) = some (padded page_size bytes)
page_bytes page_size ReadResult.missing = some (replicate page_size 0)
page_bytes page_size ReadResult.failed = none

-- The table is made longer where the page is beyond its end.
unfoldable pub fit_table : {R : Type 0} → Bool → ℕ → ℕ → M R (Unit {0})
fit_table granted i page_number = do
  e ← entry_at i
  if leb e.page_table.page_count page_number
      then resize_table granted i ((page_number + 1) % 2 ^ 32)
      else pure tt

abbrev pub table_kept : Option PageTable → Option (Unit {0} × PageTable)
table_kept none = none
table_kept (some pt) = some (tt, pt)

-- The writing half of a round; nothing is read.
unfoldable pub put_bytes : {R : Type 0} → ℕ → ℕ → ℕ → List ℕ → M R (List ℕ)
put_bytes i current_page address bytes = do
  store_bytes address bytes
  on_table i (λ pt. table_kept (pt_set_dirty pt current_page true))
  pure []

module _ {R : Type 0} (storage : Storage R) where
  unfoldable pub mm_allocate_frame : M R ℕ
  mm_allocate_frame m = elim (free_frame 0 m.frames) [
    | some frame ↦ gives frame (use_frame frame true m)
    | none ↦ elim m.policy [
      | Policy.lru ↦
          then_do (mm_find_lru_victim storage m) (λ frame m. gives frame (use_frame frame true m))
      | Policy.clock_m ↦
          then_do (mm_find_clockm_victim storage m)
            (λ frame m. gives frame (use_frame frame true m))
    ]
  ]

  abbrev pub read_page : String → String → ℕ → M R ReadResult
  read_page file tag_name page_number m =
      let r = storage.read_block_from_storage file tag_name page_number m.remote in
      gives r.0 (record m { remote = r.1 })

  -- What follows the choice of the frame; a failure frees it again.
  unfoldable pub load_page : ℕ → String → String → ℕ → ℕ → M R (Unit {0})
  load_page i file tag_name page_number frame =
      on_failure
        (do
          m ← gets (λ m. m)
          address ← elim (mm_get_frame_address m frame) [ none ↦ failure | some a ↦ pure a ]
          result ← read_page file tag_name page_number
          elim (page_bytes m.page_size result) [
            | none ↦ failure
            | some bytes ↦ do
              store_bytes address bytes
              mapped ← on_table i (λ pt. pt_map pt page_number frame)
              if mapped then pure tt else failure
          ])
        (mm_free_frame frame)

  unfoldable pub mm_handle_page_fault : Bool → ℕ → String → String → ℕ → M R (Unit {0})
  mm_handle_page_fault granted i file tag_name page_number = do
    fit_table granted i page_number
    m ← gets (λ m. m)
    elim m.storage_socket [
      | none ↦ failure
      | some _ ↦ elim m.worker_id [
        | none ↦ failure
        | some _ ↦ do
          frame ← mm_allocate_frame
          load_page i file tag_name page_number frame
          mm_update_page_access i page_number
          modify (λ m. record m { last_victim = none })
      ]
    ]

  -- The page that the loop comes to is in the table and in a frame.
  unfoldable pub ready_page : Bool → ℕ → String → String → ℕ → M R Entry
  ready_page granted i file tag_name current_page = do
    fit_table granted i current_page
    page ← page_at i current_page
    if page.present then pure tt else mm_handle_page_fault granted i file tag_name current_page
    page_at i current_page

  -- A round copies `count` bytes from or to the page; a write takes them from `bytes`, a read
  -- returns them.
  unfoldable pub copy_bytes : Bool → ℕ → ℕ → Entry → ℕ → ℕ → List ℕ → M R (List ℕ)
  copy_bytes write i current_page page offset count bytes = do
    m ← gets (λ m. m)
    address ← within (mm_get_frame_address m page.frame)
    if write
        then put_bytes i current_page (address + offset) (take count bytes)
        else load_bytes (address + offset) count

  -- The loop, with at most `fuel` rounds and `remaining` bytes to go.
  unfoldable pub access_loop :
      ℕ → Bool → Bool → ℕ → String → String → ℕ → ℕ → ℕ → List ℕ → M R (List ℕ)
  access_loop zero granted write i file tag_name current_page offset remaining bytes =
      if remaining == 0 then pure [] else out_of_rounds
  access_loop (suc fuel) granted write i file tag_name current_page offset remaining bytes =
      elim (remaining == 0) [
        | true ↦ pure []
        | false ↦ do
          page ← ready_page granted i file tag_name current_page
          mm_update_page_access i current_page
          page_size ← gets (λ m. m.page_size)
          let count = min (page_size - offset) remaining
          part ← copy_bytes write i current_page page offset count bytes
          rest ←
              access_loop fuel granted write i file tag_name ((current_page + 1) % 2 ^ 32) 0
                (remaining - count) (drop count bytes)
          pure (part ++ rest)
      ]

  unfoldable pub mm_access_memory :
      Bool → ℕ → String → String → ℕ → List ℕ → ℕ → Bool → M R (List ℕ)
  mm_access_memory granted i file tag_name base_address bytes size write =
      if size == 0 then failure else do
        page_size ← gets (λ m. m.page_size)
        access_loop size granted write i file tag_name (base_address / page_size)
            (base_address % page_size) size bytes

  unfoldable pub mm_write_to_memory : Bool → ℕ → String → String → ℕ → List ℕ → M R (List ℕ)
  mm_write_to_memory granted i file tag_name base_address bytes =
      mm_access_memory granted i file tag_name base_address bytes (length bytes) true

  unfoldable pub mm_read_from_memory : Bool → ℕ → String → String → ℕ → ℕ → M R (List ℕ)
  mm_read_from_memory granted i file tag_name base_address size =
      mm_access_memory granted i file tag_name base_address [] size false
