-- ===== src/Worker/Memory/Replace.antt =====
-- The change of one entry of a page table through a pointer to the table, as the calls of
-- worker/src/memory/memory_manager.c on page_table.c make it.
use tp_sistemas_operativos.Base.{
  ℕ, ◌^◌, ◌≡◌, ◌<◌, inl, inr, refl, sym, ap, ◌∙◌, true, some, List, get_elem?, ◌==◌, ==_iff,
  Bool-cases, Option-cases, arith, lookup_bound, set,
}
use tp_sistemas_operativos.Worker.PageTable.{Entry, change_entry}
use tp_sistemas_operativos.Worker.PageTable.Entries.{IsValid, Changes, change_entry-Changes}
use tp_sistemas_operativos.Worker.Memory.State.{FileTagEntry, Memory, gives, with_table, on_table}
use tp_sistemas_operativos.Worker.Memory.View.{
  page, name_at, Valid, page-with_table, name-with_table, entry_cases, own_page,
}
use tp_sistemas_operativos.Worker.Memory.Local.{Elsewhere}

-- The entry that a page stands in.
pub page_entry :
    {R : Type 0} (m : Memory R) (i j : ℕ) (p : Entry)
    → page m i j ≡ some p
    → (e : FileTagEntry) × (get_elem? m.entries i ≡ some e)
      × (get_elem? e.page_table.entries j ≡ some p)
page_entry m i j p h = elim (Option-cases (get_elem? m.entries i)) [
  | inl none_there ↦ absurd (ground (arith, none_there, h))
  | inr (e, there) ↦ (e, there, sym (own_page m i e there e.page_table j) ∙ h)
]

-- A list of entries where page j of entry i is replaced.
pub record Replaced {R : Type 0} (m : Memory R) (i j : ℕ) (p' : Entry) (entries : List FileTagEntry)
    : Type 0 where
  pub here : page (record m { entries = entries }) i j ≡ some p'
  pub elsewhere :
      (k l : ℕ) → Elsewhere i j k l → page (record m { entries = entries }) k l ≡ page m k l
  pub tables : (k : ℕ) (e : FileTagEntry) → get_elem? entries k ≡ some e → IsValid e.page_table
  pub short :
      (k : ℕ) (e : FileTagEntry) → get_elem? entries k ≡ some e → e.page_table.page_count < 2 ^ 32
  pub names : (k : ℕ) → name_at (record m { entries = entries }) k ≡ name_at m k

module _ {R : Type 0} (m : Memory R) (v : Valid m) (i j : ℕ) (p : Entry) (h : page m i j ≡ some p)
    (f : Entry → Entry) where
  -- A page of a valid memory is replaced, and the call returns.
  pub on_table-Replaced :
      (entries : List FileTagEntry) × (on_table i (λ pt. change_entry pt j f) m
        ≡ gives true (record m { entries = entries }))
      × Replaced m i j (f p) entries
  unfolding on_table
  on_table-Replaced =
      let (e, at, own) = page_entry m i j p h in
      let inside : j < e.page_table.page_count =
        omega (arith, lookup_bound e.page_table.entries j own, (v.tables i e at).sized) in
      let c : Changes e.page_table j f (change_entry e.page_table j f) =
        change_entry-Changes e.page_table (v.tables i e at) j f inside in
      let found : c.entry ≡ p = ground (arith, c.found, own) in
      (
        set m.entries i (record e { page_table = c.after }),
        rw (at, c.returns) refl,
        record {
          here = page_here e at c found;
          elsewhere = page_elsewhere e at c;
          tables = λ k g x. elim (entry_cases m i e at c.after k g x) [
            | inl same ↦ rw same c.valid
            | inr was ↦ v.tables k g was
          ];
          short = λ k g x. elim (entry_cases m i e at c.after k g x) [
            | inl same ↦ rw (same, c.same_count) (v.short i e at)
            | inr was ↦ v.short k g was
          ];
          names = name-with_table m i e at c.after;
        },
      )
    where
      page_here :
          (e : FileTagEntry) (at : get_elem? m.entries i ≡ some e)
          (c : Changes e.page_table j f (change_entry e.page_table j f))
          → c.entry ≡ p
          → page (with_table m i e c.after) i j ≡ some (f p)
      page_here e at c found =
          ground (arith, page-with_table m i e at c.after i j, c.replaced, found)

      page_elsewhere :
          (e : FileTagEntry) (at : get_elem? m.entries i ≡ some e)
          (c : Changes e.page_table j f (change_entry e.page_table j f)) (k l : ℕ)
          → Elsewhere i j k l
          → page (with_table m i e c.after) k l ≡ page m k l
      page_elsewhere e at c k l away = elim (Bool-cases (k == i)) [
        | inl b ↦
            let here : k ≡ i = (==_iff k i).0 b in
            page-with_table m i e at c.after k l
            ∙ rw b (
                c.others l (away here)
                ∙ sym (own_page m i e at c.after l)
                ∙ sym (ap (λ k. page m k l) here))
        | inr b ↦ page-with_table m i e at c.after k l ∙ rw b refl
      ]
