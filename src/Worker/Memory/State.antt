-- ===== src/Worker/Memory/State.antt =====
-- worker/src/memory/memory_manager.h: the state of the memory manager, with the storage at the other
-- end of its connection and global_timestamp of memory_manager.c. A pointer to a page table is the
-- index of its entry, since a call that is given one moves no entry; an int that is -1 for "no
-- value" is an Option. A call faults where the source uses memory out of bounds,
-- is endless where a loop of the source has not ended in the rounds granted, fails where it returns
-- -1, and otherwise gives a value.
use Prim.Native.String.{String}
use tp_sistemas_operativos.Base.{
  ℕ, ◌+◌, Bool, Option, none, some, List, ◌++◌, length, get_elem?, set, take, drop, leb,
  if◌then◌else◌,
}
use tp_sistemas_operativos.Worker.PageTable.{Entry, PageTable}

pub data Policy : Type 0 where
  clock_m lru : Policy

pub record FileTagEntry : Type 0 where
  pub file : String
  pub tag_name : String
  pub page_table : PageTable

-- The last page that was replaced, while last_victim_valid.
pub record Victim : Type 0 where
  pub file : String
  pub tag_name : String
  pub page_number : ℕ

pub record Memory (R : Type 0) : Type 0 where
  pub entries : List FileTagEntry
  pub capacity : ℕ
  pub page_size : ℕ
  pub policy : Policy
  pub physical_memory : List ℕ
  pub storage_socket : Option ℕ
  pub worker_id : Option ℕ
  pub query_id : Option ℕ
  pub master_socket : Option ℕ
  pub frame_count : ℕ
  pub frames : List Bool
  pub clock_pointer : ℕ
  pub last_victim : Option Victim
  pub global_timestamp : ℕ
  pub remote : R

-- What read_block_from_storage gives: the bytes, or its error codes -2 and -1.
pub data ReadResult : Type 0 where
  block : List ℕ → ReadResult
  missing : ReadResult
  failed : ReadResult

-- The requests of worker/src/connections/storage.c, on the state of what answers them.
pub record Storage (R : Type 0) : Type 0 where
  pub read_block_from_storage : String → String → ℕ → R → ReadResult × R
  pub write_block_to_storage : String → String → ℕ → List ℕ → R → Bool × R

pub data Outcome (R A : Type 0) : Type 0 where
  fault : Outcome R A
  endless : Outcome R A
  fails : Memory R → Outcome R A
  gives : A → Memory R → Outcome R A

abbrev pub M : Type 0 → Type 0 → Type 0
M R A = Memory R → Outcome R A

abbrev pub then_do : {R A B : Type 0} → Outcome R A → (A → M R B) → Outcome R B
then_do fault k = fault
then_do endless k = endless
then_do (fails m) k = fails m
then_do (gives a m) k = k a m

infixl 5 ◌>>=◌ ◌>>◌
abbrev pub ◌>>=◌ : {R A B : Type 0} → M R A → (A → M R B) → M R B
◌>>=◌ f k m = then_do (f m) k

abbrev pub ◌>>◌ : {R B : Type 0} → M R (Unit {0}) → M R B → M R B
f >> k = f >>= λ _. k

abbrev pub pure : {R A : Type 0} → A → M R A
pure a m = gives a m

abbrev pub failure : {R A : Type 0} → M R A
failure m = fails m

-- The end of the rounds granted to a loop.
abbrev pub out_of_rounds : {R A : Type 0} → M R A
out_of_rounds m = endless

abbrev pub gets : {R A : Type 0} → (Memory R → A) → M R A
gets f m = gives (f m) m

abbrev pub modify : {R : Type 0} → (Memory R → Memory R) → M R (Unit {0})
modify f m = gives tt (f m)

-- The value of a read within bounds.
abbrev pub within : {R A : Type 0} → Option A → M R A
within none m = fault
within (some a) m = gives a m

-- On failure some cleaning, and then failure all the same.
abbrev pub cleaned : {R A : Type 0} → Outcome R A → (Memory R → Memory R) → Outcome R A
cleaned fault f = fault
cleaned endless f = endless
cleaned (fails m) f = fails (f m)
cleaned (gives a m) f = gives a m

abbrev pub on_failure : {R A : Type 0} → M R A → (Memory R → Memory R) → M R A
on_failure k f m = cleaned (k m) f

abbrev pub entry_at : {R : Type 0} → ℕ → M R FileTagEntry
entry_at i m = within (get_elem? m.entries i) m

abbrev pub with_table : {R : Type 0} → Memory R → ℕ → FileTagEntry → PageTable → Memory R
with_table m i e pt = record m { entries = set m.entries i (record e { page_table = pt }) }

abbrev pub table_done :
    {R A : Type 0} → Memory R → ℕ → FileTagEntry → Option (A × PageTable) → Outcome R A
table_done m i e none = fault
table_done m i e (some (a, pt)) = gives a (with_table m i e pt)

-- A call on the page table that a pointer leads to.
unfoldable pub on_table : {R A : Type 0} → ℕ → (PageTable → Option (A × PageTable)) → M R A
on_table i f = do e ← entry_at i; λ m. table_done m i e (f e.page_table)

-- The entry of a page in the array of a table.
unfoldable pub page_at : {R : Type 0} → ℕ → ℕ → M R Entry
page_at i j = do e ← entry_at i; within (get_elem? e.page_table.entries j)

-- memcpy from and to the physical memory.
unfoldable pub load_bytes : {R : Type 0} → ℕ → ℕ → M R (List ℕ)
load_bytes address size m =
    if leb (address + size) (length m.physical_memory)
    then gives (take size (drop address m.physical_memory)) m
    else fault

unfoldable pub store_bytes : {R : Type 0} → ℕ → List ℕ → M R (Unit {0})
store_bytes address bytes m =
    if leb (address + length bytes) (length m.physical_memory)
    then gives tt (record m {
      physical_memory =
          take address m.physical_memory
          ++ (bytes ++ drop (address + length bytes) m.physical_memory);
    })
    else fault
