-- ===== src/Worker/Memory/Create.antt =====
-- mm_create of worker/src/memory/memory_manager.c: where the invariant of the manager begins.
use native.Mathlib.Nat.{mod-lt, mod-eq_of_lt, div-add-mod'}
use tp_sistemas_operativos.Base.{
  ℕ, zero, suc, ◌*◌, ◌/◌, ◌%◌, ◌^◌, ◌≡◌, ◌≢◌, ◌<◌, ◌≤◌, refl, ap, true, false, none, some, [],
  length, get_elem?, replicate, arith, length-replicate,
}
use tp_sistemas_operativos.Worker.Memory.State.{Memory, Storage, Policy}
use tp_sistemas_operativos.Worker.Memory.Tables.{mm_set_storage_connection, mm_create, fresh_bytes}
use tp_sistemas_operativos.Worker.Memory.Contents.{Serves}
use tp_sistemas_operativos.Worker.Memory.Refinement.{Consistent}

length-fresh_bytes : (noise : ℕ → ℕ) (n : ℕ) → length (fresh_bytes noise n) ≡ n
length-fresh_bytes noise zero = refl
length-fresh_bytes noise (suc n) = ap suc (length-fresh_bytes noise n)

unused : (n f : ℕ) → get_elem? (replicate n false) f ≢ some true
unused zero f h = absurd (cc h)
unused (suc n) zero h = ground (arith, h)
unused (suc n) (suc f) h = unused n f h

-- What mm_create makes when its memory is granted.
abbrev new_manager : {R : Type 0} → (ℕ → ℕ) → R → ℕ → ℕ → Policy → Memory R
new_manager noise remote memory_size page_size policy = record {
  entries = [];
  capacity = 0;
  page_size = page_size;
  policy = policy;
  physical_memory = fresh_bytes noise memory_size;
  storage_socket = none;
  worker_id = none;
  query_id = none;
  master_socket = none;
  frame_count = memory_size / page_size % 2 ^ 32;
  frames = replicate (memory_size / page_size % 2 ^ 32) false;
  clock_pointer = 0;
  last_victim = none;
  global_timestamp = 0;
  remote = remote;
}

module _ {R : Type 0} {storage : Storage R} {page_size : ℕ}
    (serves : Serves storage page_size) where
  -- With memory granted, a manager of a positive memory size and a positive page size, of fewer
  -- than 2 ^ 32 frames, is created; it has no entries and is consistent.
  pub mm_create-Consistent :
      (noise : ℕ → ℕ) (remote : R) (memory_size : ℕ) (policy : Policy)
      → memory_size ≢ 0
      → page_size ≢ 0
      → memory_size / page_size < 2 ^ 32
      → (m : Memory R) × (mm_create (λ _. true) noise remote memory_size page_size policy ≡ some m)
        × Consistent serves m
        × (m.entries ≡ [])
  unfolding mm_create
  mm_create-Consistent noise remote memory_size policy some_memory some_page limit = (
    new_manager noise remote memory_size page_size policy,
    ground (arith, some_memory, some_page),
    record {
      sound = record {
        valid = record {
          tables = λ i e h. absurd (cc h);
          short = λ i e h. absurd (cc h);
          numbered = λ i j p h. absurd (cc h);
          resident = λ i j p h. absurd (cc h);
          alone = λ i j i' j' p p' h. absurd (cc h);
          named = λ i i' n h. absurd (cc h);
          sized = length-replicate (memory_size / page_size % 2 ^ 32) false;
          counted = mod-lt (memory_size / page_size) (omega arith);
          fits = fitting;
          positive = omega (arith, some_page);
          pointed = λ some_frame. omega (arith, some_frame);
        };
        same_size = refl;
        clean = λ i j p h. absurd (cc h);
      };
      held = λ f u. absurd (unused (memory_size / page_size % 2 ^ 32) f u);
    },
    refl,
  )
    where
      fitting :
          memory_size / page_size % 2 ^ 32 * page_size ≤ length (fresh_bytes noise memory_size)
      fitting =
          rw (length-fresh_bytes noise memory_size, mod-eq_of_lt limit)
            (omega (arith, div-add-mod' memory_size page_size))

  -- A connection to the storage changes nothing else.
  pub connect-Consistent :
      (m : Memory R)
      → Consistent serves m
      → (storage_socket worker_id : ℕ)
      → Consistent serves (mm_set_storage_connection storage_socket worker_id m)
  unfolding mm_set_storage_connection
  connect-Consistent m c storage_socket worker_id = record {
    sound = record {
      valid = record {
        tables = c.sound.valid.tables;
        short = c.sound.valid.short;
        numbered = c.sound.valid.numbered;
        resident = c.sound.valid.resident;
        alone = c.sound.valid.alone;
        named = c.sound.valid.named;
        sized = c.sound.valid.sized;
        counted = c.sound.valid.counted;
        fits = c.sound.valid.fits;
        positive = c.sound.valid.positive;
        pointed = c.sound.valid.pointed;
      };
      same_size = c.sound.same_size;
      clean = c.sound.clean;
    };
    held = c.held;
  }
