-- ===== src/Worker/Memory/Grown.antt =====
-- A manager of worker/src/memory/memory_manager.c with one more entry at its end.
use Prim.Native.String.{String}
use tp_sistemas_operativos.Base.{
  ℕ, ◌+◌, ◌^◌, ◌≡◌, ◌≢◌, ◌<◌, ◌⊎◌, inl, inr, sym, ap, ◌∙◌, true, some, [], ◌∷◌, ◌++◌, length,
  get_elem?, Bool-cases, arith, ltb, ltb→lt, ltb-false→le, lookup-append_lt, lookup-append_ge,
  lookup_bound, length-append,
}
use tp_sistemas_operativos.Worker.PageTable.{Entry, blank}
use tp_sistemas_operativos.Worker.PageTable.Entries.{IsValid}
use tp_sistemas_operativos.Worker.Memory.State.{FileTagEntry, Memory, Storage}
use tp_sistemas_operativos.Worker.Memory.View.{page, name_at, page_in_entry, name_in_entry}
use tp_sistemas_operativos.Worker.Memory.Contents.{Serves, block_of}
use tp_sistemas_operativos.Worker.Memory.Refinement.{Consistent}
use tp_sistemas_operativos.Worker.Memory.Replace.{page_entry}
use tp_sistemas_operativos.Worker.Memory.Marks.{named_entry}

module _ {R : Type 0} {storage : Storage R} {page_size : ℕ}
    (serves : Serves storage page_size) where
  -- An entry at the end whose pages are all absent, and whose name is new.
  module _ (m : Memory R) (c : Consistent serves m) (e : FileTagEntry)
      (valid : IsValid e.page_table) (short : e.page_table.page_count < 2 ^ 32)
      (all_blank : (j : ℕ) (p : Entry) → get_elem? e.page_table.entries j ≡ some p → p ≡ blank j)
      (new : (k : ℕ) → name_at m k ≢ some (e.file, e.tag_name)) (room : ℕ) where
    abbrev pub grown : Memory R
    grown = record m { entries = m.entries ++ e ∷ []; capacity = room }

    pub at_end : get_elem? grown.entries (length m.entries) ≡ some e
    at_end =
        let end : length m.entries ≡ length m.entries + 0 = omega arith in
        ap (get_elem? grown.entries) end ∙ lookup-append_ge m.entries (e ∷ []) 0

    grown_cases :
        (k : ℕ) (f : FileTagEntry)
        → get_elem? grown.entries k ≡ some f
        → (get_elem? m.entries k ≡ some f) ⊎ ((k ≡ length m.entries) × (e ≡ f))
    grown_cases k f h = elim (Bool-cases (ltb k (length m.entries))) [
      | inl b ↦
          inl (sym (lookup-append_lt m.entries (e ∷ []) k (ltb→lt k (length m.entries) b)) ∙ h)
      | inr b ↦
          let inside : k < length m.entries + 1 =
            omega (arith, lookup_bound grown.entries k h, length-append m.entries (e ∷ [])) in
          let here : k ≡ length m.entries =
            omega (arith, inside, ltb-false→le k (length m.entries) b) in
          inr (here, cc (h, at_end, here))
    ]

    pub old_entry :
        (k : ℕ) (f : FileTagEntry)
        → get_elem? m.entries k ≡ some f
        → get_elem? grown.entries k ≡ some f
    old_entry k f h = lookup-append_lt m.entries (e ∷ []) k (lookup_bound m.entries k h) ∙ h

    page_of :
        (k j : ℕ) (p : Entry) → page grown k j ≡ some p → (page m k j ≡ some p) ⊎ (p ≡ blank j)
    page_of k j p h =
        let (f, at, own) = page_entry grown k j p h in
        elim (grown_cases k f at) [
          | inl was ↦ inl (ap (page_in_entry j) was ∙ own)
          | inr (_, same) ↦
              inr (all_blank j p (ap (λ e. get_elem? e.page_table.entries j) same ∙ own))
        ]

    old_page : (k j : ℕ) (p : Entry) → page m k j ≡ some p → page grown k j ≡ some p
    old_page k j p h =
        let (f, at, own) = page_entry m k j p h in ap (page_in_entry j) (old_entry k f at) ∙ own

    present_of :
        (k j : ℕ) (p : Entry) → page grown k j ≡ some p → p.present ≡ true → page m k j ≡ some p
    present_of k j p h a = elim (page_of k j p h) [
      | inl was ↦ was
      | inr fresh ↦ absurd (cc (a, ap (λ p. p.present) fresh))
    ]

    name_of :
        (k : ℕ) (n : String × String)
        → name_at grown k ≡ some n
        → (name_at m k ≡ some n) ⊎ ((k ≡ length m.entries) × (some (e.file, e.tag_name) ≡ some n))
    name_of k n h =
        let (f, at) = named_entry grown k n h in
        elim (grown_cases k f at) [
          | inl was ↦ inl (ap name_in_entry was ∙ sym (ap name_in_entry at) ∙ h)
          | inr (here, same) ↦
              inr (here, ap (λ e. name_in_entry (some e)) same ∙ sym (ap name_in_entry at) ∙ h)
        ]

    pub old_name : (k : ℕ) (n : String × String) → name_at m k ≡ some n → name_at grown k ≡ some n
    old_name k n h =
        let (f, at) = named_entry m k n h in
        ap name_in_entry (old_entry k f at) ∙ sym (ap name_in_entry at) ∙ h

    name_present : (k j : ℕ) (p : Entry) → page m k j ≡ some p → name_at grown k ≡ name_at m k
    name_present k j p h =
        let (f, at, own) = page_entry m k j p h in
        ap name_in_entry (old_entry k f at) ∙ sym (ap name_in_entry at)

    named' :
        (k k' : ℕ) (n : String × String)
        → name_at grown k ≡ some n
        → name_at grown k' ≡ some n
        → k ≡ k'
    named' k k' n h h' = elim (name_of k n h) [
      | inl was ↦ elim (name_of k' n h') [
        | inl was' ↦ c.sound.valid.named k k' n was was'
        | inr (_, same) ↦ absurd (new k (was ∙ sym same))
      ]
      | inr (here, same) ↦ elim (name_of k' n h') [
        | inl was' ↦ absurd (new k' (was' ∙ sym same))
        | inr (here', _) ↦ here ∙ sym here'
      ]
    ]

    pub grown-Consistent : Consistent serves grown
    grown-Consistent = record {
      sound = record {
        valid = record {
          tables = λ k f h. elim (grown_cases k f h) [
            | inl was ↦ c.sound.valid.tables k f was
            | inr (_, same) ↦ rw⁻¹ same valid
          ];
          short = λ k f h. elim (grown_cases k f h) [
            | inl was ↦ c.sound.valid.short k f was
            | inr (_, same) ↦ rw⁻¹ same short
          ];
          numbered = λ k j p h. elim (page_of k j p h) [
            | inl was ↦ c.sound.valid.numbered k j p was
            | inr fresh ↦ ap (λ p. p.page_number) fresh
          ];
          resident = λ k j p h a. c.sound.valid.resident k j p (present_of k j p h a) a;
          alone = λ k j k' j' p p' h h' a a' same.
              c.sound.valid.alone k j k' j' p p' (present_of k j p h a) (present_of k' j' p' h' a')
                a a' same;
          named = named';
          sized = c.sound.valid.sized;
          counted = c.sound.valid.counted;
          fits = c.sound.valid.fits;
          positive = c.sound.valid.positive;
          pointed = c.sound.valid.pointed;
        };
        same_size = c.sound.same_size;
        clean = λ k j p h a d.
            let was = present_of k j p h a in
            c.sound.clean k j p was a d
            ∙ sym (ap (λ n. block_of serves m.remote n j) (name_present k j p was));
      };
      held =
          λ f u n. let (k, j, p, h, a, same) = c.held f u n in (k, j, p, old_page k j p h, a, same);
    }
