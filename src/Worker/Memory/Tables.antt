-- ===== src/Worker/Memory/Tables.antt =====
-- worker/src/memory/memory_manager.c: creation, and the page tables of the open files. `alloc k`
-- says whether the k-th allocation of a call is granted.
use Prim.Native.String.{String}
use text.Mathlib.Text.{◌==◌ as str_eq}
use tp_sistemas_operativos.Base.{
  ℕ, zero, suc, ◌+◌, ◌-◌, ◌*◌, ◌/◌, ◌%◌, ◌^◌, Bool, true, false, not, ◌&&◌, ◌||◌, Option, none,
  some, List, [], ◌∷◌, ◌++◌, length, get_elem?, set, take, replicate, ltb, ◌==◌, if◌then◌else◌,
}
use tp_sistemas_operativos.Worker.PageTable.{pt_create, pt_resize}
use tp_sistemas_operativos.Worker.Memory.State.{
  Policy, FileTagEntry, Memory, fault, fails, gives, M, ◌>>=◌, pure, failure, on_table,
}

-- What a fresh block of n bytes holds.
abbrev pub fresh_bytes : (ℕ → ℕ) → ℕ → List ℕ
fresh_bytes noise zero = []
fresh_bytes noise (suc n) = noise n ∷ fresh_bytes noise n

unfoldable pub mm_create :
    {R : Type 0} → (ℕ → Bool) → (ℕ → ℕ) → R → ℕ → ℕ → Policy → Option (Memory R)
mm_create alloc noise remote memory_size page_size policy =
    if memory_size == 0 || page_size == 0
    then none
    else if not (alloc 0) || not (alloc 1) || not (alloc 2)
    then none
    else some (record {
      entries = [];
      capacity = 0;
      page_size = page_size;
      policy = policy;
      physical_memory = fresh_bytes noise memory_size;
      storage_socket = none;
      worker_id = none;
      query_id = none;
      master_socket = none;
      frame_count = memory_size / page_size % 2 ^ 32;
      frames = replicate (memory_size / page_size % 2 ^ 32) false;
      clock_pointer = 0;
      last_victim = none;
      global_timestamp = 0;
      remote = remote;
    })

unfoldable pub mm_set_storage_connection : {R : Type 0} → ℕ → ℕ → Memory R → Memory R
mm_set_storage_connection storage_socket worker_id m = record m {
  storage_socket = some storage_socket;
  worker_id = some worker_id;
}

unfoldable pub mm_set_master_connection : {R : Type 0} → ℕ → Memory R → Memory R
mm_set_master_connection master_socket m = record m { master_socket = some master_socket }

unfoldable pub mm_set_query_id : {R : Type 0} → ℕ → Memory R → Memory R
mm_set_query_id query_id m = record m { query_id = some query_id }

abbrev pub names : String → String → FileTagEntry → Bool
names file tag_name e = str_eq e.file file && str_eq e.tag_name tag_name

-- The loop over the entries, from index i on.
unfoldable pub find_entry : String → String → ℕ → List FileTagEntry → Option ℕ
find_entry file tag_name i [] = none
find_entry file tag_name i (e ∷ es) =
    let rest = find_entry file tag_name (i + 1) es in if names file tag_name e then some i else rest

unfoldable pub mm_find_page_table : {R : Type 0} → Memory R → String → String → Option ℕ
mm_find_page_table m file tag_name = find_entry file tag_name 0 m.entries

unfoldable pub mm_has_page_table : {R : Type 0} → Memory R → String → String → Bool
mm_has_page_table m file tag_name = elim (mm_find_page_table m file tag_name) [
  | none ↦ false
  | some _ ↦ true
]

unfoldable pub mm_resize_entries : {R : Type 0} → Bool → Memory R → Memory R
mm_resize_entries granted m =
    if ltb (length m.entries) m.capacity
    then m
    else if not granted
    then m
    else record m { capacity = if m.capacity == 0 then 4 else m.capacity * 2 % 2 ^ 32 }

-- The entry goes to the end of the array, which may have no room for it.
unfoldable pub mm_create_page_table : {R : Type 0} → (ℕ → Bool) → String → String → M R ℕ
mm_create_page_table alloc file tag_name m = elim (mm_find_page_table m file tag_name) [
  | some i ↦ gives i m
  | none ↦
      let m' = mm_resize_entries (alloc 0) m in
      if not (ltb (length m'.entries) m'.capacity)
      then fault
      else if not (alloc 1) || not (alloc 2)
      then fails m'
      else elim (pt_create (alloc 3) 1 m'.page_size) [
        | none ↦ fails m'
        | some pt ↦ gives (length m'.entries) (record m' {
          entries = m'.entries ++ record { file = file; tag_name = tag_name; page_table = pt } ∷ [];
        })
      ]
]

-- The last entry takes the place of the one that goes.
abbrev pub without_entry : ℕ → List FileTagEntry → List FileTagEntry
without_entry i es = elim (get_elem? es (length es - 1)) [
  | none ↦ es
  | some last ↦ take (length es - 1) (set es i last)
]

unfoldable pub mm_remove_page_table : {R : Type 0} → String → String → Memory R → Memory R
mm_remove_page_table file tag_name m = elim (mm_find_page_table m file tag_name) [
  | none ↦ m
  | some i ↦ record m { entries = without_entry i m.entries }
]

-- pt_resize on the table of an entry.
unfoldable pub resize_table : {R : Type 0} → Bool → ℕ → ℕ → M R (Unit {0})
resize_table granted i new_page_count = do
  resized ← on_table i (λ pt. some (pt_resize granted pt new_page_count))
  if resized then pure tt else failure

unfoldable pub mm_resize_page_table : {R : Type 0} → Bool → String → String → ℕ → M R (Unit {0})
mm_resize_page_table granted file tag_name new_page_count m =
    elim (mm_find_page_table m file tag_name) [
      | none ↦ fails m
      | some i ↦ resize_table granted i new_page_count m
    ]
