-- ===== src/Worker/Memory/Tests.antt =====
-- The theorems on worker/src/memory/memory_manager.c on a manager of one frame of four bytes, over a
-- storage that keeps its blocks in a function.
mod InMemory
use Prim.Native.String.{String}
use text.Mathlib.Text.{◌==◌ as str_eq}
use text.Mathlib.TextEquality.{eq_iff}
use tp_sistemas_operativos.Base.{
  none, Option, ℕ, ◌≡◌, ◌≢◌, refl, sym, ap, ◌∙◌, subst, inl, inr, Bool, true, false, ◌&&◌, none,
  some, List, [], ◌∷◌, ◌++◌, length, ◌-◌, ◌==◌, Bool-cases, if◌then◌else◌, arith, get_elem?, ◌⊎◌,
  ◌^◌, ◌≤◌, take_all, append-nil,
}
use tp_sistemas_operativos.Worker.PageTable.{
  Entry, blank, pt_create, blank_entries, pt_map, change_entry, store_entry, pt_set_dirty,
  pt_resize, pt_unmap,
}
use tp_sistemas_operativos.Worker.Memory.State.{
  Memory, Storage, ReadResult, Policy, Outcome, fault, endless, fails, gives, then_do, page_at,
  store_bytes, on_table, load_bytes,
}
use tp_sistemas_operativos.Worker.Memory.View.{page, name_at}
use tp_sistemas_operativos.Worker.Memory.Tables.{
  mm_remove_page_table, mm_create, mm_create_page_table, mm_find_page_table, find_entry,
  mm_resize_entries, mm_set_storage_connection, resize_table,
}
use tp_sistemas_operativos.Worker.Memory.Access.{
  padded, mm_access_memory, access_loop, ready_page, fit_table, mm_handle_page_fault,
  mm_allocate_frame, load_page, copy_bytes, put_bytes, mm_write_to_memory, mm_read_from_memory,
}
use tp_sistemas_operativos.Worker.Memory.Contents.{Serves}
use tp_sistemas_operativos.Worker.Memory.Contents.{Shrinks}
use tp_sistemas_operativos.Worker.Memory.Keeps.{Has}
use tp_sistemas_operativos.Worker.Memory.Evict.{Freed}
use tp_sistemas_operativos.Worker.Memory.Lru.{no_candidate, mm_find_lru_victim}
use tp_sistemas_operativos.Worker.Memory.Choice.{
  lru_victim, lru_victim_lem, mm_find_lru_victim-Freed,
}
use tp_sistemas_operativos.Worker.Memory.Held.{In, mm_find_page_for_frame_lem}
use tp_sistemas_operativos.Worker.Memory.Ring.{Used}
use tp_sistemas_operativos.Worker.Memory.Clock.{
  clock_rounds, mm_find_clockm_victim, pass_one, pass_two, next_frame, replace_dirty,
}
use tp_sistemas_operativos.Worker.Memory.Rounds.{Frees, mm_find_clockm_victim-Frees}
use tp_sistemas_operativos.Worker.Memory.Allocate.{Lends, mm_allocate_frame-Lends}
use tp_sistemas_operativos.Worker.Memory.Extend.{fit_table_lem}
use tp_sistemas_operativos.Worker.Memory.Fault.{Brought, mm_handle_page_fault_lem}
use tp_sistemas_operativos.Worker.Memory.Marks.{Marked, mm_update_page_access_lem}
use tp_sistemas_operativos.Worker.Memory.Flush.{mm_flush_query}
use tp_sistemas_operativos.Worker.Memory.Flushed.{Flushed, mm_flush_query-Flushed}
use tp_sistemas_operativos.Worker.Memory.Stuck.{Leaked, clock_rounds-stuck}
use tp_sistemas_operativos.Worker.Memory.Outcomes.{Ensures, returned, refused, Never}
use tp_sistemas_operativos.Worker.Memory.Refinement.{
  Consistent, Stores, Loads, Fails, write-read, mm_write_to_memory-Stores,
  mm_read_from_memory-Loads,
}
use tp_sistemas_operativos.Worker.Memory.Evict.{Stays}
use tp_sistemas_operativos.Worker.Memory.Frames.{
  find_page, mm_find_page_for_frame, free_frame, mm_get_frame_address, mm_update_page_access,
  page_in, write_page, release_page,
}
use tp_sistemas_operativos.Worker.Memory.Create.{mm_create-Consistent, connect-Consistent}
use tp_sistemas_operativos.Worker.Memory.Opening.{Opened, mm_create_page_table-Opened}
use tp_sistemas_operativos.Worker.Memory.Tests.InMemory.{Blocks, in_memory, in_memory-Serves}

-- A manager of one frame under CLOCK-M.
abbrev created : Memory Blocks
created = record {
  entries = [];
  capacity = 0;
  page_size = 4;
  policy = Policy.clock_m;
  physical_memory = 0 ∷ 0 ∷ 0 ∷ 0 ∷ [];
  storage_socket = none;
  worker_id = none;
  query_id = none;
  master_socket = none;
  frame_count = 1;
  frames = false ∷ [];
  clock_pointer = 0;
  last_victim = none;
  global_timestamp = 0;
  remote = λ _ _ _. [];
}

is_created : mm_create (λ _. true) (λ _. 0) (λ _ _ _. []) 4 4 Policy.clock_m ≡ some created
unfolding mm_create
is_created = refl

mm_create-Consistent_example :
    (m : Memory Blocks) × (mm_create (λ _. true) (λ _. 0) (λ _ _ _. []) 4 4 Policy.clock_m ≡ some m)
    × Consistent in_memory-Serves m
    × (m.entries ≡ [])
mm_create-Consistent_example =
    mm_create-Consistent in_memory-Serves (λ _. 0) (λ _ _ _. []) 4 Policy.clock_m (omega arith)
      (omega arith) (omega arith)

created-Consistent : Consistent in_memory-Serves created
created-Consistent =
    let (m, e, c, _) =
      mm_create-Consistent in_memory-Serves (λ _. 0) (λ _ _ _. []) 4 Policy.clock_m (omega arith)
        (omega arith) (omega arith) in
    let same : m ≡ created = cc (e, is_created) in subst (Consistent in_memory-Serves) same c

abbrev linked : Memory Blocks
linked = record created { storage_socket = some 3; worker_id = some 1 }

linked-Consistent : Consistent in_memory-Serves linked
unfolding mm_set_storage_connection
linked-Consistent = connect-Consistent in_memory-Serves created created-Consistent 3 1

mm_create_page_table-Opened_example :
    Ensures
      (Opened in_memory-Serves "a" "t" linked)
      Never
      (mm_create_page_table (λ _. true) "a" "t" linked)
mm_create_page_table-Opened_example =
    mm_create_page_table-Opened in_memory-Serves linked linked-Consistent (omega arith)
      (omega arith) "a" "t"

-- The file is open.
abbrev opened : Memory Blocks
opened = record linked {
  entries =
      record {
        file = "a";
        tag_name = "t";
        page_table = record { entries = blank 0 ∷ []; page_count = 1; page_size = 4 };
      }
      ∷ [];
  capacity = 4;
}

is_opened : mm_create_page_table (λ _. true) "a" "t" linked ≡ gives 0 opened
unfolding mm_create_page_table mm_find_page_table find_entry mm_resize_entries pt_create
    blank_entries
is_opened = refl

opened-Consistent : Consistent in_memory-Serves opened
opened-Consistent =
    (value (
      subst (Ensures (Opened in_memory-Serves "a" "t" linked) Never) is_opened (
        mm_create_page_table-Opened in_memory-Serves linked linked-Consistent (omega arith)
          (omega arith) "a" "t"))).consistent
  where
    value :
        {P : ℕ → Memory Blocks → Type 0} {i : ℕ} {m : Memory Blocks}
        → Ensures P Never (gives i m)
        → P i m
    value (returned i m p) = p

abbrev state_of : Outcome Blocks (List ℕ) → Memory Blocks
state_of fault = opened
state_of endless = opened
state_of (fails m) = m
state_of (gives a m) = m

-- Two bytes from address 3 on: pages 0 and 1 share the one frame.
abbrev two_bytes : List ℕ
two_bytes = 7 ∷ 8 ∷ []

write-read_example :
    Ensures
      (λ r m'. (r ≡ two_bytes) × Consistent in_memory-Serves m')
      (Consistent in_memory-Serves)
      (then_do
        (mm_write_to_memory in_memory true 0 "a" "t" 3 two_bytes opened)
        (λ _. mm_read_from_memory in_memory true 0 "a" "t" 3 2))
write-read_example =
    write-read in_memory-Serves opened opened-Consistent 0 3 true true "a" "t" refl (omega arith)
      two_bytes

mm_write_to_memory-Stores_example :
    Ensures
      (λ _. Stores in_memory-Serves 0 3 two_bytes opened)
      (Fails in_memory-Serves 0 3 opened)
      (mm_write_to_memory in_memory true 0 "a" "t" 3 two_bytes opened)
mm_write_to_memory-Stores_example =
    mm_write_to_memory-Stores in_memory-Serves opened opened-Consistent 0 3 true "a" "t" refl
      (omega arith) two_bytes

mm_read_from_memory-Loads_example :
    Ensures
      (Loads in_memory-Serves 0 3 2 opened)
      (Stays in_memory-Serves opened)
      (mm_read_from_memory in_memory true 0 "a" "t" 3 2 opened)
mm_read_from_memory-Loads_example =
    mm_read_from_memory-Loads in_memory-Serves opened opened-Consistent 0 3 true "a" "t" refl
      (omega arith) 2

-- Page 0 is in the frame.
abbrev full : Memory Blocks
full = state_of (mm_write_to_memory in_memory true 0 "a" "t" 0 two_bytes opened)

full-Consistent : Consistent in_memory-Serves full
full-Consistent = after (mm_write_to_memory in_memory true 0 "a" "t" 0 two_bytes opened) (
    mm_write_to_memory-Stores in_memory-Serves opened opened-Consistent 0 0 true "a" "t" refl
      (omega arith) two_bytes)
  where
    after :
        (o : Outcome Blocks (List ℕ))
        → Ensures
            (λ _. Stores in_memory-Serves 0 0 two_bytes opened)
            (Fails in_memory-Serves 0 0 opened)
            o
        → Consistent in_memory-Serves (state_of o)
    after _ (returned a m s) = s.consistent
    after _ (refused m f) = f.consistent

full_frames : full.frames ≡ true ∷ []
unfolding mm_write_to_memory mm_access_memory access_loop ready_page fit_table page_at
    mm_handle_page_fault mm_allocate_frame free_frame load_page mm_get_frame_address store_bytes
    on_table pt_map change_entry store_entry mm_update_page_access copy_bytes put_bytes pt_set_dirty
full_frames = refl

abbrev first_page : Entry
first_page = record {
  page_number = 0;
  frame = 0;
  dirty = true;
  present = true;
  last_access_time = 0;
  use_bit = true;
}

full_page : page full 0 0 ≡ some first_page
unfolding mm_write_to_memory mm_access_memory access_loop ready_page fit_table page_at
    mm_handle_page_fault mm_allocate_frame free_frame load_page mm_get_frame_address store_bytes
    on_table pt_map change_entry store_entry mm_update_page_access copy_bytes put_bytes pt_set_dirty
full_page = refl

full_count : full.frame_count ≡ 1
unfolding mm_write_to_memory mm_access_memory access_loop ready_page fit_table page_at
    mm_handle_page_fault mm_allocate_frame free_frame load_page mm_get_frame_address store_bytes
    on_table pt_map change_entry store_entry mm_update_page_access copy_bytes put_bytes pt_set_dirty
full_count = refl

full-Used : Used full
full-Used f h =
    let first : f ≡ 0 = omega (arith, h, full_count) in
    ap (get_elem? full.frames) first ∙ ap (λ fs. get_elem? fs 0) full_frames

mm_find_clockm_victim-Frees_example :
    Frees in_memory-Serves full (mm_find_clockm_victim in_memory full)
mm_find_clockm_victim-Frees_example =
    mm_find_clockm_victim-Frees in_memory-Serves full full-Consistent.sound full-Consistent.held
      full-Used

mm_allocate_frame-Lends_example :
    Lends in_memory-Serves full full-Consistent.sound full-Consistent.held
      (mm_allocate_frame in_memory full)
mm_allocate_frame-Lends_example =
    mm_allocate_frame-Lends in_memory-Serves full full-Consistent.sound full-Consistent.held

mm_find_lru_victim-Freed_example :
    Ensures
      (λ f. Freed in_memory-Serves full f)
      (Stays in_memory-Serves full)
      (mm_find_lru_victim in_memory full)
mm_find_lru_victim-Freed_example =
    mm_find_lru_victim-Freed in_memory-Serves full full-Consistent.sound full-Consistent.held

lru_victim_lem_example :
    ((lru_victim full ≡ no_candidate) × (2 ^ 64 - 1 ≤ 0))
    ⊎ ((i : ℕ) × (j : ℕ) × (p : Entry) × (page full i j ≡ some p)
        × (p.present ≡ true)
        × (lru_victim full ≡ record {
          oldest_time = p.last_access_time;
          victim_frame = p.frame;
          victim = some (i, j);
        })
        × (p.last_access_time ≤ 0))
lru_victim_lem_example = lru_victim_lem full 0 0 first_page full_page refl

mm_find_page_for_frame_lem_example :
    (i : ℕ) × (j : ℕ) × (p : Entry) × (mm_find_page_for_frame full 0 ≡ some (i, j))
    × (page full i j ≡ some p)
    × In 0 p
mm_find_page_for_frame_lem_example =
    mm_find_page_for_frame_lem full 0 (0, 0, first_page, full_page, refl, refl)

fit_table_lem_example :
    Ensures
      (λ _ m'. Stays in_memory-Serves opened m' × Shrinks opened m' × Has m' 0 5)
      (Stays in_memory-Serves opened)
      (fit_table true 0 5 opened)
fit_table_lem_example =
    fit_table_lem in_memory-Serves opened opened-Consistent.sound opened-Consistent.held 0
      (record {
        file = "a";
        tag_name = "t";
        page_table = record { entries = blank 0 ∷ []; page_count = 1; page_size = 4 };
      })
      refl true 5 (omega arith)

mm_handle_page_fault_lem_example :
    Ensures
      (λ _. Brought in_memory-Serves opened 0 0)
      (Stays in_memory-Serves opened)
      (mm_handle_page_fault in_memory true 0 "a" "t" 0 opened)
mm_handle_page_fault_lem_example =
    mm_handle_page_fault_lem in_memory-Serves 0 0 "a" "t" true (omega arith) opened
      opened-Consistent.sound opened-Consistent.held refl
      (λ p h. let same : blank 0 ≡ p = cc h in sym (ap (λ p. p.present) same))

mm_update_page_access_lem_example :
    Ensures
      (λ _. Marked in_memory-Serves full.policy full 0 0 first_page)
      Never
      (mm_update_page_access 0 0 full)
mm_update_page_access_lem_example =
    mm_update_page_access_lem in_memory-Serves full full-Consistent.sound full-Consistent.held 0 0
      first_page full_page

-- The only frame is used, and the file and tag whose page it held is gone.
abbrev leaked : Memory Blocks
leaked = mm_remove_page_table "a" "t" full

leaked-Leaked : Leaked leaked
unfolding mm_write_to_memory mm_access_memory access_loop ready_page fit_table page_at
    mm_handle_page_fault mm_allocate_frame free_frame load_page mm_get_frame_address store_bytes
    on_table pt_map change_entry store_entry mm_update_page_access copy_bytes put_bytes pt_set_dirty
    mm_remove_page_table mm_find_page_table find_entry find_page
leaked-Leaked = record { sized = refl; pointed = omega arith; empty = λ frame. refl }

clock_rounds-stuck_example : clock_rounds in_memory 1000 leaked ≡ endless
clock_rounds-stuck_example = clock_rounds-stuck in_memory leaked leaked-Leaked 1000

abbrev result_of : Outcome Blocks (List ℕ) → Option (List ℕ)
result_of fault = none
result_of endless = none
result_of (fails m) = none
result_of (gives a m) = some a

-- Page 1 takes the only frame from page 0, which goes to the storage and comes back for the read.
write_read_run :
    result_of (
      then_do
        (mm_write_to_memory in_memory true 0 "a" "t" 3 two_bytes opened)
        (λ _. mm_read_from_memory in_memory true 0 "a" "t" 3 2))
    ≡ some two_bytes
unfolding mm_write_to_memory mm_read_from_memory mm_access_memory access_loop ready_page fit_table
    page_at mm_handle_page_fault mm_allocate_frame free_frame load_page mm_get_frame_address
    store_bytes load_bytes on_table pt_map change_entry store_entry mm_update_page_access copy_bytes
    put_bytes pt_set_dirty resize_table pt_resize mm_find_clockm_victim clock_rounds pass_one
    pass_two next_frame mm_find_page_for_frame find_page page_in replace_dirty write_page
    release_page pt_unmap blank_entries
write_read_run = refl

full_name : name_at full 0 ≡ some ("a", "t")
unfolding mm_write_to_memory mm_access_memory access_loop ready_page fit_table page_at
    mm_handle_page_fault mm_allocate_frame free_frame load_page mm_get_frame_address store_bytes
    on_table pt_map change_entry store_entry mm_update_page_access copy_bytes put_bytes pt_set_dirty
full_name = refl

mm_flush_query-Flushed_example :
    Ensures
      (λ _. Flushed in_memory-Serves full 0)
      (Stays in_memory-Serves full)
      (mm_flush_query in_memory true "a" "t" full)
mm_flush_query-Flushed_example =
    mm_flush_query-Flushed in_memory-Serves full full-Consistent.sound full-Consistent.held 0 "a"
      "t" full_name
