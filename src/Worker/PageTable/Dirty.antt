-- ===== src/Worker/PageTable/Dirty.antt =====
-- What pt_get_dirty_entries of worker/src/memory/page_table.c collects.
use tp_sistemas_operativos.Base.{
  ℕ, ◌≡◌, refl, subst, true, Option, none, some, List, [], ◌∷◌, length, ◌==◌, if◌then◌else◌, arith,
}
use tp_sistemas_operativos.Worker.PageTable.{
  Entry, PageTable, count_dirty, copy_dirty, pt_get_dirty_entries,
}
use tp_sistemas_operativos.Worker.PageTable.Entries.{IsValid}

-- The dirty entries, in the order of their pages.
abbrev pub dirty_of : List Entry → List Entry
dirty_of [] = []
dirty_of (e ∷ es) = if e.dirty then e ∷ dirty_of es else dirty_of es

count_dirty_lem : (es : List Entry) → count_dirty (length es) es ≡ some (length (dirty_of es))
unfolding count_dirty
count_dirty_lem [] = refl
count_dirty_lem (e ∷ es) = ground (arith, count_dirty_lem es)

-- The array that the first loop measured has room for the second.
copy_dirty_lem :
    (es : List Entry) → copy_dirty (length (dirty_of es)) (length es) es ≡ some (dirty_of es)
unfolding copy_dirty
copy_dirty_lem [] = refl
copy_dirty_lem (e ∷ es) = ground (arith, copy_dirty_lem es)

-- The answer for a list of dirty entries, `none` where it is empty.
abbrev pub answer : List Entry → Option (List Entry) × ℕ
answer [] = (none, 0)
answer (e ∷ es) = (some (e ∷ es), length (e ∷ es))

-- The end of the call, from what the two loops found.
abbrev collected : ℕ → Option (List Entry) → Option (Option (List Entry) × ℕ)
collected dirty_count copied =
    if dirty_count == 0
    then some (none, 0)
    else elim copied [ none ↦ none | some dirty_entries ↦ some (some dirty_entries, dirty_count) ]

collected_lem : (es : List Entry) → collected (length es) (some es) ≡ some (answer es)
collected_lem [] = refl
collected_lem (e ∷ es) = ground arith

-- On a valid page table, with memory granted, pt_get_dirty_entries reads and writes no array out
-- of bounds and answers with the dirty entries in the order of their pages and their number;
-- where none is dirty, with NULL and 0.
pub pt_get_dirty_entries_lem :
    (pt : PageTable)
    → IsValid pt
    → pt_get_dirty_entries true pt ≡ some (answer (dirty_of pt.entries))
unfolding pt_get_dirty_entries
pt_get_dirty_entries_lem pt v =
    rw (pt_get_dirty_entries, counted, copied) (collected_lem (dirty_of pt.entries))
  where
    counted : count_dirty pt.page_count pt.entries ≡ some (length (dirty_of pt.entries))
    counted =
        subst (λ n. count_dirty n pt.entries ≡ some (length (dirty_of pt.entries))) v.sized
          (count_dirty_lem pt.entries)

    copied :
        copy_dirty (length (dirty_of pt.entries)) pt.page_count pt.entries
        ≡ some (dirty_of pt.entries)
    copied =
        subst
          (λ n. copy_dirty (length (dirty_of pt.entries)) n pt.entries ≡ some (dirty_of pt.entries))
          v.sized (copy_dirty_lem pt.entries)
