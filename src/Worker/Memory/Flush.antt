-- ===== src/Worker/Memory/Flush.antt =====
-- worker/src/memory/memory_manager.c: dirty pages and their way back to the storage. `granted` says
-- whether the array of the dirty entries can be allocated.
use Prim.Native.String.{String}
use tp_sistemas_operativos.Base.{
  ℕ, zero, suc, ◌+◌, Bool, true, false, not, Option, none, some, List, [], ◌∷◌, length,
  if◌then◌else◌,
}
use tp_sistemas_operativos.Worker.PageTable.{Entry, pt_get_dirty_entries, pt_set_dirty}
use tp_sistemas_operativos.Worker.Memory.State.{
  Memory, Storage, fails, gives, M, ◌>>=◌, ◌>>◌, then_do, pure, within, on_table, entry_at,
}
use tp_sistemas_operativos.Worker.Memory.Tables.{mm_find_page_table}
use tp_sistemas_operativos.Worker.Memory.Frames.{write_page}
use tp_sistemas_operativos.Worker.Memory.Access.{table_kept}

abbrev pub found_dirty : Option (Option (List Entry) × ℕ) → Option (List Entry)
found_dirty none = none
found_dirty (some (none, _)) = some []
found_dirty (some (some es, _)) = some es

-- NULL with the count 0 is the empty list.
unfoldable pub mm_get_dirty_pages : {R : Type 0} → Bool → String → String → M R (List Entry)
mm_get_dirty_pages granted file tag_name m = elim (mm_find_page_table m file tag_name) [
  | none ↦ gives [] m
  | some i ↦
      then_do (entry_at i m) (λ e. within (found_dirty (pt_get_dirty_entries granted e.page_table)))
]

-- The loop of mm_mark_all_clean, with n pages to go from page j on.
unfoldable pub clean_pages : {R : Type 0} → ℕ → ℕ → ℕ → M R (Unit {0})
clean_pages i j zero = pure tt
clean_pages i j (suc n) = do
  on_table i (λ pt. table_kept (pt_set_dirty pt j false))
  clean_pages i (j + 1) n

unfoldable pub mm_mark_all_clean : {R : Type 0} → String → String → M R (Unit {0})
mm_mark_all_clean file tag_name m = elim (mm_find_page_table m file tag_name) [
  | none ↦ gives tt m
  | some i ↦ then_do (entry_at i m) (λ e. clean_pages i 0 e.page_table.page_count)
]

module _ {R : Type 0} (storage : Storage R) where
  -- The loop over the copies of the dirty entries of table i: a page that is present is written and
  -- marked clean.
  unfoldable pub flush_pages : ℕ → List Entry → M R (Unit {0})
  flush_pages i [] = pure tt
  flush_pages i (p ∷ ps) = if not p.present then flush_pages i ps else do
    write_page storage i p.page_number p.frame
    on_table i (λ pt. table_kept (pt_set_dirty pt p.page_number false))
    flush_pages i ps

  abbrev pub connected : Memory R → Bool
  connected m = elim m.storage_socket [
    | none ↦ false
    | some _ ↦ elim m.worker_id [ none ↦ false | some _ ↦ true ]
  ]

  unfoldable pub mm_flush_query : Bool → String → String → M R (Unit {0})
  mm_flush_query granted file tag_name m =
      if not (connected m)
      then fails m
      else then_do (mm_get_dirty_pages granted file tag_name m) λ dirty_pages m.
        elim (mm_find_page_table m file tag_name) [
          | none ↦ gives tt m
          | some i ↦ flush_pages i dirty_pages m
        ]

  -- The loop over the entries, from entry i on, with n to go. The dirty entries are those of the
  -- first table of the entry's name.
  unfoldable pub flush_entries : Bool → ℕ → ℕ → M R (Unit {0})
  flush_entries granted i zero = pure tt
  flush_entries granted i (suc n) = do
    e ← entry_at i
    dirty_pages ← mm_get_dirty_pages granted e.file e.tag_name
    flush_pages i dirty_pages
    flush_entries granted (i + 1) n

  unfoldable pub mm_flush_all_dirty : Bool → M R (Unit {0})
  mm_flush_all_dirty granted m =
      if not (connected m) then fails m else flush_entries granted 0 (length m.entries) m
