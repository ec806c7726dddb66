-- ===== src/Worker/PageTable.antt =====
-- worker/src/memory/page_table.c: the page table of a file and tag. The array of entries is a list;
-- a read or a write outside of it is a fault, `none`. Whether the allocator grants the memory of a
-- call is its argument `granted`. `true` is the result 0 and `false` the result -1.
pub mod Entries
pub mod Dirty
use tp_sistemas_operativos.Base.{
  ℕ, zero, suc, ◌+◌, ◌-◌, ◌≡◌, Bool, true, false, not, ◌||◌, Option, none, some, List, [], ◌∷◌,
  ◌++◌, length, get_elem?, set, take, ltb, leb, ◌==◌, if◌then◌else◌,
}

pub record Entry : Type 0 where
  pub page_number : ℕ
  pub frame : ℕ
  pub dirty : Bool
  pub present : Bool
  pub last_access_time : ℕ
  pub use_bit : Bool

pub record PageTable : Type 0 where
  pub entries : List Entry
  pub page_count : ℕ
  pub page_size : ℕ

-- The index of an entry stands for the pointer to it; `none` is NULL.
abbrev pub pt_get_entry : PageTable → ℕ → Option ℕ
pt_get_entry pt page_number = if leb pt.page_count page_number then none else some page_number

-- An entry of a page that no frame holds.
abbrev pub blank : ℕ → Entry
blank i = record {
  page_number = i;
  frame = 0;
  dirty = false;
  present = false;
  last_access_time = 0;
  use_bit = false;
}

-- The entries from number i on that the initializing loops write.
unfoldable pub blank_entries : ℕ → ℕ → List Entry
blank_entries i zero = []
blank_entries i (suc n) = blank i ∷ blank_entries (i + 1) n

unfoldable pub pt_create : Bool → ℕ → ℕ → Option PageTable
pt_create granted page_count page_size =
    if page_count == 0 || page_size == 0 || not granted
    then none
    else some (record {
      entries = blank_entries 0 page_count;
      page_count = page_count;
      page_size = page_size;
    })

-- The array that realloc moves, its new part initialized.
abbrev pub resized : PageTable → ℕ → List Entry
resized pt new_page_count =
    if ltb pt.page_count new_page_count
    then pt.entries ++ blank_entries pt.page_count (new_page_count - pt.page_count)
    else take new_page_count pt.entries

unfoldable pub pt_resize : Bool → PageTable → ℕ → Bool × PageTable
pt_resize granted pt new_page_count =
    if new_page_count == 0
    then (false, pt)
    else if new_page_count == pt.page_count
    then (true, pt)
    else if not granted
    then (false, pt)
    else (true, record pt { entries = resized pt new_page_count; page_count = new_page_count })

-- The fields of the entry that a pointer leads to.
unfoldable pub store_entry : PageTable → ℕ → (Entry → Entry) → Option PageTable
store_entry pt i f = elim (get_elem? pt.entries i) [
  | none ↦ none
  | some e ↦ some (record pt { entries = set pt.entries i (f e) })
]

-- The change of one entry, and whether the page has one.
unfoldable pub change_entry : PageTable → ℕ → (Entry → Entry) → Option (Bool × PageTable)
unfolding store_entry
change_entry pt page_number f = elim (pt_get_entry pt page_number) [
  | none ↦ some (false, pt)
  | some i ↦ elim (store_entry pt i f) [ none ↦ none | some pt' ↦ some (true, pt') ]
]

abbrev pub mapped : ℕ → Entry → Entry
mapped frame e = record e { frame = frame; present = true; dirty = false }

abbrev pub unmapped : Entry → Entry
unmapped e = record e { frame = 0; present = false; dirty = false }

unfoldable pub pt_map : PageTable → ℕ → ℕ → Option (Bool × PageTable)
unfolding change_entry
pt_map pt page_number frame = change_entry pt page_number (mapped frame)

unfoldable pub pt_unmap : PageTable → ℕ → Option (Bool × PageTable)
unfolding change_entry
pt_unmap pt page_number = change_entry pt page_number unmapped

-- A call that returns nothing to its caller.
abbrev pub quiet : Option (Bool × PageTable) → Option PageTable
quiet none = none
quiet (some (_, pt)) = some pt

unfoldable pub pt_set_dirty : PageTable → ℕ → Bool → Option PageTable
unfolding change_entry
pt_set_dirty pt page_number dirty =
    quiet (change_entry pt page_number (λ e. record e { dirty = dirty }))

unfoldable pub pt_set_present : PageTable → ℕ → Bool → Option PageTable
unfolding change_entry
pt_set_present pt page_number present =
    quiet (change_entry pt page_number (λ e. record e { present = present }))

unfoldable pub pt_update_access_time : PageTable → ℕ → ℕ → Option PageTable
unfolding change_entry
pt_update_access_time pt page_number timestamp =
    quiet (change_entry pt page_number (λ e. record e { last_access_time = timestamp }))

-- The first loop of pt_get_dirty_entries, over as many entries as there are pages.
unfoldable pub count_dirty : ℕ → List Entry → Option ℕ
count_dirty zero es = some 0
count_dirty (suc n) [] = none
count_dirty (suc n) (e ∷ es) = elim (count_dirty n es) [
  | none ↦ none
  | some k ↦ some (if e.dirty then k + 1 else k)
]

-- The second loop, which writes into an array of `room` entries from its start.
unfoldable pub copy_dirty : ℕ → ℕ → List Entry → Option (List Entry)
copy_dirty room zero es = some []
copy_dirty room (suc n) [] = none
copy_dirty zero (suc n) (e ∷ es) = let rest = copy_dirty zero n es in if e.dirty then none else rest
copy_dirty (suc room) (suc n) (e ∷ es) =
    let kept = copy_dirty room n es in
    let rest = copy_dirty (suc room) n es in
    if e.dirty then elim kept [ none ↦ none | some l ↦ some (e ∷ l) ] else rest

-- The array, `none` for NULL, and the count that goes with it.
unfoldable pub pt_get_dirty_entries : Bool → PageTable → Option (Option (List Entry) × ℕ)
pt_get_dirty_entries granted pt = elim (count_dirty pt.page_count pt.entries) [
  | none ↦ none
  | some dirty_count ↦
      if dirty_count == 0
      then some (none, 0)
      else if not granted
      then some (none, 0)
      else elim (copy_dirty dirty_count pt.page_count pt.entries) [
        | none ↦ none
        | some dirty_entries ↦ some (some dirty_entries, dirty_count)
      ]
]
