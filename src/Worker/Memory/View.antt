-- ===== src/Worker/Memory/View.antt =====
-- The memory manager of worker/src as a map from entries and page numbers to pages, and what holds
-- of it between two calls.
use Prim.Native.String.{String}
use tp_sistemas_operativos.Base.{
  lookup-set, lookup_bound, ℕ, ◌*◌, ◌^◌, ◌≡◌, ◌≢◌, ◌≤◌, ◌<◌, refl, sym, ap, ◌∙◌, ◌⊎◌, true, Option,
  none, some, get_elem?, length, arith, ◌==◌, ==_iff, if◌then◌else◌, Bool-cases, inl, inr,
}
use tp_sistemas_operativos.Worker.PageTable.{Entry, PageTable}
use tp_sistemas_operativos.Worker.PageTable.Entries.{IsValid}
use tp_sistemas_operativos.Worker.Memory.State.{FileTagEntry, Memory, with_table}

abbrev pub page_in_entry : ℕ → Option FileTagEntry → Option Entry
page_in_entry j none = none
page_in_entry j (some e) = get_elem? e.page_table.entries j

-- Page j of entry i.
abbrev pub page : {R : Type 0} → Memory R → ℕ → ℕ → Option Entry
page m i j = page_in_entry j (get_elem? m.entries i)

abbrev pub name_in_entry : Option FileTagEntry → Option (String × String)
name_in_entry none = none
name_in_entry (some e) = some (e.file, e.tag_name)

abbrev pub name_at : {R : Type 0} → Memory R → ℕ → Option (String × String)
name_at m i = name_in_entry (get_elem? m.entries i)

-- Every table has an entry for each of its pages under its number; a page that is present has a
-- used frame of its own; names are not repeated; the frames are in the physical memory, and the
-- clock points at one.
pub record Valid {R : Type 0} (m : Memory R) : Type 0 where
  pub tables : (i : ℕ) (e : FileTagEntry) → get_elem? m.entries i ≡ some e → IsValid e.page_table
  pub short :
      (i : ℕ) (e : FileTagEntry) → get_elem? m.entries i ≡ some e → e.page_table.page_count < 2 ^ 32
  pub numbered : (i j : ℕ) (p : Entry) → page m i j ≡ some p → p.page_number ≡ j
  pub resident :
      (i j : ℕ) (p : Entry)
      → page m i j ≡ some p
      → p.present ≡ true
      → get_elem? m.frames p.frame ≡ some true
  pub alone :
      (i j i' j' : ℕ) (p p' : Entry)
      → page m i j ≡ some p
      → page m i' j' ≡ some p'
      → p.present ≡ true
      → p'.present ≡ true
      → p.frame ≡ p'.frame
      → (i ≡ i') × (j ≡ j')
  pub named :
      (i i' : ℕ) (n : String × String) → name_at m i ≡ some n → name_at m i' ≡ some n → i ≡ i'
  pub sized : length m.frames ≡ m.frame_count
  pub counted : m.frame_count < 2 ^ 32
  pub fits : m.frame_count * m.page_size ≤ length m.physical_memory
  pub positive : 0 < m.page_size
  pub pointed : m.frame_count ≢ 0 → m.clock_pointer < m.frame_count

-- No page that is present is in the frame.
abbrev pub Unheld : {R : Type 0} → Memory R → ℕ → Type 0
Unheld m frame = (i j : ℕ) (p : Entry) → page m i j ≡ some p → p.present ≡ true → p.frame ≢ frame

-- The pages that are present are among those of before, in the same frames.
pub record Fewer (pt pt' : PageTable) : Type 0 where
  pub valid : IsValid pt'
  pub short : pt'.page_count < 2 ^ 32
  pub numbered : (j : ℕ) (p : Entry) → get_elem? pt'.entries j ≡ some p → p.page_number ≡ j
  pub was_present :
      (j : ℕ) (p : Entry)
      → get_elem? pt'.entries j ≡ some p
      → p.present ≡ true
      → (q : Entry) × (get_elem? pt.entries j ≡ some q) × (q.present ≡ true) × (q.frame ≡ p.frame)

module _ {R : Type 0} (m : Memory R) (i : ℕ) (e : FileTagEntry)
    (at : get_elem? m.entries i ≡ some e) (pt : PageTable) where
  entry_inside : i < length m.entries
  entry_inside = lookup_bound m.entries i at

  pub entry-with_table :
      (k : ℕ)
      → get_elem? (with_table m i e pt).entries k
        ≡ (if k == i then some (record e { page_table = pt }) else get_elem? m.entries k)
  entry-with_table k = lookup-set m.entries i k (record e { page_table = pt }) entry_inside

  pub page-with_table :
      (k j : ℕ)
      → page (with_table m i e pt) k j ≡ (if k == i then get_elem? pt.entries j else page m k j)
  page-with_table k j = ground (arith, entry-with_table k)

  pub name-with_table : (k : ℕ) → name_at (with_table m i e pt) k ≡ name_at m k
  name-with_table k = ground (arith, entry-with_table k, at, ==_iff k i)

  -- A page after the change is one of the table's, or one of another table's as before.
  pub page_cases :
      (k j : ℕ) (p : Entry)
      → page (with_table m i e pt) k j ≡ some p
      → ((k ≡ i) × (get_elem? pt.entries j ≡ some p)) ⊎ (page m k j ≡ some p)
  page_cases k j p h = elim (Bool-cases (k == i)) [
    | inl b ↦ inl ((==_iff k i).0 b, ground (arith, page-with_table k j))
    | inr b ↦ inr (ground (arith, page-with_table k j))
  ]

  pub entry_cases :
      (k : ℕ) (f : FileTagEntry)
      → get_elem? (with_table m i e pt).entries k ≡ some f
      → (f ≡ record e { page_table = pt }) ⊎ (get_elem? m.entries k ≡ some f)
  entry_cases k f h = elim (Bool-cases (k == i)) [
    | inl b ↦ inl (ground (arith, entry-with_table k))
    | inr b ↦ inr (ground (arith, entry-with_table k))
  ]

  pub own_page : (j : ℕ) → page m i j ≡ get_elem? e.page_table.entries j
  own_page j = ground (arith, at)

  module _ (v : Valid m) (fewer : Fewer e.page_table pt) where
    -- Each page that is present after the change was present in the same frame.
    was_present :
        (k j : ℕ) (p : Entry)
        → page (with_table m i e pt) k j ≡ some p
        → p.present ≡ true
        → (q : Entry) × (page m k j ≡ some q) × (q.present ≡ true) × (q.frame ≡ p.frame)
    was_present k j p h a = elim (page_cases k j p h) [
      | inl (here, own) ↦
          let (q, was, present, same) = fewer.was_present j p own a in
          (q, ap (λ n. page m n j) here ∙ own_page j ∙ was, present, same)
      | inr before ↦ (p, before, a, refl)
    ]

    pub with_table-Valid : Valid (with_table m i e pt)
    with_table-Valid = record {
      tables = λ k f h. elim (entry_cases k f h) [
        | inl same ↦ rw same fewer.valid
        | inr before ↦ v.tables k f before
      ];
      short = λ k f h. elim (entry_cases k f h) [
        | inl same ↦ rw same fewer.short
        | inr before ↦ v.short k f before
      ];
      numbered = λ k j p h. elim (page_cases k j p h) [
        | inl (_, own) ↦ fewer.numbered j p own
        | inr before ↦ v.numbered k j p before
      ];
      resident = λ k j p h a.
          let (q, was, present, same) = was_present k j p h a in
          rw (← same) (v.resident k j q was present);
      alone = λ k j k' j' p p' h h' a a' f.
          let (q, was, present, same) = was_present k j p h a in
          let (q', was', present', same') = was_present k' j' p' h' a' in
          v.alone k j k' j' q q' was was' present present' (same ∙ f ∙ sym same');
      named = λ k k' n h h'.
          v.named k k' n (sym (name-with_table k) ∙ h) (sym (name-with_table k') ∙ h');
      sized = v.sized;
      counted = v.counted;
      fits = v.fits;
      positive = v.positive;
      pointed = v.pointed;
    }
