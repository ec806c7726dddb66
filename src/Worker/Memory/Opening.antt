-- ===== src/Worker/Memory/Opening.antt =====
-- mm_create_page_table of worker/src/memory/memory_manager.c.
use Prim.Native.String.{String}
use tp_sistemas_operativos.Base.{
  ℕ, ◌*◌, ◌%◌, ◌^◌, ◌≡◌, ◌≢◌, ◌<◌, ◌≤◌, inl, inr, refl, sym, ap, ◌∙◌, true, none, some, [], ◌∷◌,
  ◌++◌, length, get_elem?, ◌==◌, ==_iff, Bool-cases, Option-cases, arith, if◌then◌else◌, ltb,
  ltb→lt, lt→ltb, lookup_bound,
}
use tp_sistemas_operativos.Worker.PageTable.{Entry, blank, pt_create}
use tp_sistemas_operativos.Worker.PageTable.Entries.{Created, pt_create-Created}
use tp_sistemas_operativos.Worker.Memory.State.{FileTagEntry, Memory, Storage}
use tp_sistemas_operativos.Worker.Memory.View.{name_at, page_in_entry, name_in_entry}
use tp_sistemas_operativos.Worker.Memory.Tables.{
  mm_create_page_table, mm_find_page_table, find_entry, mm_resize_entries,
}
use tp_sistemas_operativos.Worker.Memory.Contents.{Serves, content, content_of, block_of}
use tp_sistemas_operativos.Worker.Memory.Refinement.{Consistent}
use tp_sistemas_operativos.Worker.Memory.Outcomes.{Ensures, returned, Never}
use tp_sistemas_operativos.Worker.Memory.Marks.{named_entry}
use tp_sistemas_operativos.Worker.Memory.Names.{find_entry-some, names_iff, find_entry-none}
use tp_sistemas_operativos.Worker.Memory.Grown.{at_end, old_entry, old_name, grown-Consistent}

module _ {R : Type 0} {storage : Storage R} {page_size : ℕ}
    (serves : Serves storage page_size) where
  -- What the creation of a page table leaves: the entry has the name, and those that were there
  -- have their names and contents.
  pub record Opened (file tag_name : String) (m : Memory R) (i : ℕ) (m' : Memory R) : Type 0 where
    pub consistent : Consistent serves m'
    pub name : name_at m' i ≡ some (file, tag_name)
    pub others : (k : ℕ) (n : String × String) → name_at m k ≡ some n → name_at m' k ≡ some n
    pub contents :
        (k : ℕ) (n : String × String)
        → name_at m k ≡ some n
        → (l : ℕ) → content serves m' k l ≡ content serves m k l

  module _ (m : Memory R) (c : Consistent serves m) (within : length m.entries ≤ m.capacity)
      (limit : m.capacity < 2 ^ 31) where
    resized_room :
        (room : ℕ) × (mm_resize_entries true m ≡ record m { capacity = room })
        × (length m.entries < room)
    unfolding mm_resize_entries
    resized_room = elim (Bool-cases (ltb (length m.entries) m.capacity)) [
      | inl b ↦ (m.capacity, simp b refl, ltb→lt (length m.entries) m.capacity b)
      | inr b ↦ (if m.capacity == 0 then 4 else m.capacity * 2 % 2 ^ 32, simp b refl, more)
    ]
      where
        more : length m.entries < (if m.capacity == 0 then 4 else m.capacity * 2 % 2 ^ 32)
        more = elim (Bool-cases (m.capacity == 0)) [
          | inl z ↦ rw z (omega (arith, (==_iff m.capacity 0).0 z))
          | inr z ↦
              let some_room : m.capacity ≢ 0 = λ e. absurd (ground (arith, z, e)) in
              rw z (omega (arith, some_room))
        ]

    -- On a consistent manager whose array of entries has a capacity below 2 ^ 31 and holds its
    -- entries, with memory granted, mm_create_page_table returns without a fault or a failure an
    -- entry of the file and tag; the manager stays consistent, and the entries that it had keep
    -- their names and the contents of their pages.
    pub mm_create_page_table-Opened :
        (file tag_name : String)
        → Ensures (Opened file tag_name m) Never (mm_create_page_table (λ _. true) file tag_name m)
    unfolding mm_create_page_table mm_find_page_table
    mm_create_page_table-Opened file tag_name =
        elim (Option-cases (find_entry file tag_name 0 m.entries)) [
          | inr (i, e) ↦ rw (mm_create_page_table, mm_find_page_table, e) (returned i m (found i e))
          | inl miss ↦
              let (room, resized, enough) = resized_room in
              let x =
                pt_create-Created 1 m.page_size (λ z. absurd (omega (arith, z)))
                  (λ z. absurd (omega (arith, z, c.sound.valid.positive))) in
              rw
                (
                  mm_create_page_table,
                  mm_find_page_table,
                  miss,
                  resized,
                  lt→ltb (length m.entries) room enough,
                  x.returns,
                  resized,
                )
                (returned (length m.entries) _ (created room x miss))
        ]
      where
        found : (i : ℕ) → find_entry file tag_name 0 m.entries ≡ some i → Opened file tag_name m i m
        found i e =
            let (k, f, shifted, there, right) = find_entry-some file tag_name 0 m.entries i e in
            let same : i ≡ k = omega (arith, shifted) in
            record {
              consistent = c;
              name =
                  ap (λ i. name_at m i) same
                  ∙ ap name_in_entry there
                  ∙ (names_iff file tag_name f).0 right;
              others = λ k n h. h;
              contents = λ k n h l. refl;
            }

        created :
            (room : ℕ) (x : Created 1 m.page_size (pt_create true 1 m.page_size))
            → find_entry file tag_name 0 m.entries ≡ none
            → Opened file tag_name m (length m.entries) (record m {
              entries =
                  m.entries
                  ++ record { file = file; tag_name = tag_name; page_table = x.table } ∷ [];
              capacity = room;
            })
        created room x miss = record {
          consistent =
              grown-Consistent serves m c e x.valid (omega (arith, x.count)) all_blank new room;
          name =
              ap name_in_entry
                (at_end serves m c e x.valid (omega (arith, x.count)) all_blank new room);
          others = old_name serves m c e x.valid (omega (arith, x.count)) all_blank new room;
          contents = λ k n h l.
              let (f, there) = named_entry m k n h in
              ap
                (λ o.
                  content_of serves m (block_of serves m.remote (name_in_entry o) l)
                    (page_in_entry l o))
                (old_entry serves m c e x.valid (omega (arith, x.count)) all_blank new room k f
                    there
                  ∙ sym there);
        }
          where
            e : FileTagEntry
            e = record { file = file; tag_name = tag_name; page_table = x.table }

            all_blank : (j : ℕ) (p : Entry) → get_elem? x.table.entries j ≡ some p → p ≡ blank j
            all_blank j p h =
                let inside : j < 1 =
                  omega (arith, lookup_bound x.table.entries j h, x.valid.sized, x.count) in
                cc (h, x.all_blank j inside)

            new : (k : ℕ) → name_at m k ≢ some (file, tag_name)
            new k h =
                let (f, there) = named_entry m k (file, tag_name) h in
                let right = (names_iff file tag_name f).1 (sym (ap name_in_entry there) ∙ h) in
                absurd (cc (right, find_entry-none file tag_name 0 m.entries miss k f there))
