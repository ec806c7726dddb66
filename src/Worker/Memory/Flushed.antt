-- ===== src/Worker/Memory/Flushed.antt =====
-- mm_flush_query of worker/src/memory/memory_manager.c.
use Prim.Native.String.{String}
use native.Mathlib.Nat.{zero-add}
use tp_sistemas_operativos.Base.{
  ℕ, zero, suc, ◌+◌, ◌≡◌, ◌≢◌, ◌≤◌, inl, inr, refl, sym, ap, ◌∙◌, true, false, not, none, some,
  List, [], ◌∷◌, get_elem?, ◌==◌, ==_iff, Bool-cases, Option-cases, arith, if_elim,
}
use tp_sistemas_operativos.Worker.PageTable.{Entry, change_entry, pt_set_dirty}
use tp_sistemas_operativos.Worker.PageTable.Dirty.{dirty_of, answer, pt_get_dirty_entries_lem}
use tp_sistemas_operativos.Worker.Memory.State.{FileTagEntry, Memory, Storage, Outcome, M, gives}
use tp_sistemas_operativos.Worker.Memory.View.{page, name_at, own_page, name_in_entry}
use tp_sistemas_operativos.Worker.Memory.Tables.{mm_find_page_table, find_entry}
use tp_sistemas_operativos.Worker.Memory.Flush.{
  mm_flush_query, flush_pages, mm_get_dirty_pages, found_dirty, connected,
}
use tp_sistemas_operativos.Worker.Memory.Outcomes.{Ensures, returned, refused, weaken, bind-Ensures}
use tp_sistemas_operativos.Worker.Memory.Contents.{Serves, Sound, HeldBut, frame_bytes, block_of}
use tp_sistemas_operativos.Worker.Memory.Local.{Local, where_is, local-Sound}
use tp_sistemas_operativos.Worker.Memory.Keeps.{local_Keeps}
use tp_sistemas_operativos.Worker.Memory.Replace.{Replaced, on_table-Replaced}
use tp_sistemas_operativos.Worker.Memory.Steps.{still_Local, still_content}
use tp_sistemas_operativos.Worker.Memory.Evict.{Stays, stays, write_page_lem}
use tp_sistemas_operativos.Worker.Memory.Round.{on_table_kept}
use tp_sistemas_operativos.Worker.Memory.Marks.{Stays-trans, named_entry}
use tp_sistemas_operativos.Worker.Memory.Names.{find_entry-some, find_entry-none, names_iff}

-- The numbers of the dirty entries of an array that is numbered from j on.
dirty_numbers :
    (j : ℕ) (es : List Entry)
    → ((l : ℕ) (e : Entry) → get_elem? es l ≡ some e → e.page_number ≡ j + l)
    → (k : ℕ) (q : Entry) → get_elem? (dirty_of es) k ≡ some q
    → j ≤ q.page_number
dirty_numbers j [] numbered = λ k q h. absurd (cc h)
dirty_numbers j (e ∷ es) numbered =
    let rest : (k : ℕ) (q : Entry) → get_elem? (dirty_of es) k ≡ some q → j ≤ q.page_number =
      λ k q h.
        omega
          (arith, dirty_numbers (j + 1) es (λ l x y. omega (arith, numbered (suc l) x y)) k q h) in
    if_elim (λ ds. (k : ℕ) (q : Entry) → get_elem? ds k ≡ some q → j ≤ q.page_number) e.dirty
      (λ _. here rest) (λ _. rest)
  where
    here :
        ((k : ℕ) (q : Entry) → get_elem? (dirty_of es) k ≡ some q → j ≤ q.page_number)
        → (k : ℕ) (q : Entry) → get_elem? (e ∷ dirty_of es) k ≡ some q
        → j ≤ q.page_number
    here rest zero q h =
        let same : e ≡ q = cc h in omega (arith, numbered 0 e refl, ap (λ e. e.page_number) same)
    here rest (suc k) q h = rest k q h

-- A dirty entry is among the dirty ones.
dirty_found :
    (es : List Entry) (l : ℕ) (e : Entry)
    → get_elem? es l ≡ some e
    → e.dirty ≡ true
    → (k : ℕ) × (get_elem? (dirty_of es) k ≡ some e)
dirty_found [] l e h d = absurd (cc h)
dirty_found (x ∷ es) zero e h d =
    let same : x ≡ e = cc h in
    if_elim (λ ds. (k : ℕ) × (get_elem? ds k ≡ some e)) x.dirty (λ _. (0, h))
      (λ b. absurd (cc (b, d, ap (λ e. e.dirty) same)))
dirty_found (x ∷ es) (suc l) e h d =
    let (k, there) = dirty_found es l e h d in
    if_elim (λ ds. (k : ℕ) × (get_elem? ds k ≡ some e)) x.dirty (λ _. (suc k, there))
      (λ _. (k, there))

module _ {R : Type 0} where
  -- The copies are of dirty pages of entry i as they are, each page once.
  pub data Pending (m : Memory R) (i : ℕ) : List Entry → Type 0 where
    all_done : Pending m i []
    one_more :
        (p : Entry) (ps : List Entry)
        → page m i p.page_number ≡ some p
        → p.dirty ≡ true
        → ((k : ℕ) (q : Entry) → get_elem? ps k ≡ some q → q.page_number ≢ p.page_number)
        → Pending m i ps
        → Pending m i (p ∷ ps)

  -- The pages of entry i that are present and dirty are among the copies.
  abbrev pub Covers : Memory R → ℕ → List Entry → Type 0
  Covers m i ps =
      (j : ℕ) (p : Entry)
      → page m i j ≡ some p
      → p.present ≡ true
      → p.dirty ≡ true
      → (k : ℕ) × (q : Entry) × (get_elem? ps k ≡ some q) × (q.page_number ≡ j)

  Pending-kept :
      (m m' : Memory R) (i : ℕ) (n : ℕ) (ps : List Entry)
      → Pending m i ps
      → ((k : ℕ) (q : Entry) → get_elem? ps k ≡ some q → q.page_number ≢ n)
      → ((j : ℕ) → j ≢ n → page m' i j ≡ page m i j)
      → Pending m' i ps
  Pending-kept m m' i n _ all_done apart same = all_done
  Pending-kept m m' i n _ (one_more p ps h d others rest) apart same =
      one_more p ps (same p.page_number (apart 0 p refl) ∙ h) d others
        (Pending-kept m m' i n ps rest (λ k q e. apart (suc k) q e) same)

  dirty-Pending :
      (m : Memory R) (i j : ℕ) (es : List Entry)
      → ((l : ℕ) (e : Entry) → get_elem? es l ≡ some e → e.page_number ≡ j + l)
      → ((l : ℕ) (e : Entry) → get_elem? es l ≡ some e → page m i (j + l) ≡ some e)
      → Pending m i (dirty_of es)
  dirty-Pending m i j [] numbered there = all_done
  dirty-Pending m i j (e ∷ es) numbered there =
      let after : (l : ℕ) (x : Entry) → get_elem? es l ≡ some x → x.page_number ≡ j + 1 + l =
        λ l x y. omega (arith, numbered (suc l) x y) in
      let rest : Pending m i (dirty_of es) = dirty-Pending m i (j + 1) es after (λ l x y.
        let shift : j + 1 + l ≡ j + suc l = omega arith in
        ap (page m i) shift ∙ there (suc l) x y) in
      if_elim (Pending m i) e.dirty
        (λ d.
          one_more e (dirty_of es) (ap (page m i) (numbered 0 e refl) ∙ there 0 e refl) d
            (λ k q h same.
              absurd (omega (arith, dirty_numbers (j + 1) es after k q h, same, numbered 0 e refl)))
            rest)
        (λ _. rest)

module _ {R : Type 0} {storage : Storage R} {page_size : ℕ}
    (serves : Serves storage page_size) where
  -- The pages of the entry that are present are clean.
  pub record Flushed (m : Memory R) (i : ℕ) (m' : Memory R) : Type 0 where
    pub stays : Stays serves m m'
    pub all_clean : (j : ℕ) (p : Entry) → page m' i j ≡ some p → p.present ≡ true → p.dirty ≡ false

  abbrev cleaned : Entry → Entry
  cleaned p = record p { dirty = false }

  -- A page whose block has its bytes becomes clean.
  module _ (m : Memory R) (s : Sound serves m) (held : HeldBut m none) (i j : ℕ) (p : Entry)
      (h : page m i j ≡ some p)
      (synced : frame_bytes m p.frame ≡ block_of serves m.remote (name_at m i) j)
      (entries : List FileTagEntry) (r : Replaced m i j (cleaned p) entries) where
    local : Local serves m (record m { entries = entries }) i j (cleaned p)
    local = still_Local m s i j p h (cleaned p) entries r refl refl refl (λ a d. synced)

    cleaned-Stays : Stays serves m (record m { entries = entries })
    cleaned-Stays = record {
      sound = local-Sound serves s local;
      keeps =
          local_Keeps serves s local (still_content m s i j p h (cleaned p) entries r refl refl);
      held = λ f u n.
          let (k, l, q, h', a, g) = held f u n in
          elim (where_is i j k l) [
            | inl (x, y) ↦
                let it : p ≡ q = cc (h, h', x, y) in
                (i, j, cleaned p, r.here, ap (λ p. p.present) it ∙ a, ap (λ p. p.frame) it ∙ g)
            | inr away ↦ (k, l, q, r.elsewhere k l away ∙ h', a, g)
          ];
    }

    Covers-after :
        (ps : List Entry)
        → Covers m i (p ∷ ps)
        → p.page_number ≡ j
        → Covers (record m { entries = entries }) i ps
    Covers-after ps covers number l q h' a d = elim (Bool-cases (l == j)) [
      | inl b ↦ absurd (cc (h', r.here, (==_iff l j).0 b, d))
      | inr b ↦
          let away : l ≢ j = λ e. absurd (ground (arith, b, e)) in
          let (k, x, there, at) = covers l q (sym (r.elsewhere i l (λ _. away)) ∙ h') a d in
          further k x there (λ e. away (sym at ∙ e ∙ number)) at
    ]
      where
        further :
            (k : ℕ) (x : Entry)
            → get_elem? (p ∷ ps) k ≡ some x
            → x.page_number ≢ p.page_number
            → x.page_number ≡ l
            → (k : ℕ) × (x : Entry) × (get_elem? ps k ≡ some x) × (x.page_number ≡ l)
        further zero x there other at =
            let same : p ≡ x = cc there in absurd (other (sym (ap (λ p. p.page_number) same)))
        further (suc k) x there other at = (k, x, there, at)

  flush_pages-Flushed :
      (i : ℕ) (ps : List Entry) (m : Memory R)
      → Sound serves m
      → HeldBut m none
      → Pending m i ps
      → Covers m i ps
      → Ensures (λ _. Flushed m i) (Stays serves m) (flush_pages storage i ps m)
  unfolding flush_pages pt_set_dirty
  flush_pages-Flushed i [] m s held pending covers = returned tt m (record {
    stays = stays serves m s held;
    all_clean = λ j p h a. elim (Bool-cases p.dirty) [
      | inr d ↦ d
      | inl d ↦ let (k, q, there, _) = covers j p h a d in absurd (cc there)
    ];
  })
  flush_pages-Flushed i (p ∷ ps) m s held (one_more _ _ h d others rest) covers =
      if_elim (λ (k : M R (Unit {0})). Ensures (λ _. Flushed m i) (Stays serves m) (k m))
        (not p.present) (λ absent. flush_pages-Flushed i ps m s held rest (skip absent))
        (λ there. bind-Ensures (
          write_page_lem serves m s i p.page_number p h (ground (arith, there)) d
            (λ remote same s' kept.
              let m₁ = record m { remote = remote } in
              let (entries, done, r) =
                on_table-Replaced m₁ s'.valid i p.page_number p h
                  (λ e. record e { dirty = false }) in
              let m₂ = record m₁ { entries = entries } in
              let st = cleaned-Stays m₁ s' held i p.page_number p h (sym same) entries r in
              rw
                (on_table_kept m₁ i
                  (λ pt. change_entry pt p.page_number (λ e. record e { dirty = false })) true m₂
                  done)
                (weaken
                  (flush_pages-Flushed i ps m₂ st.sound st.held
                    (Pending-kept m m₂ i p.page_number ps rest others
                      (λ j away. r.elsewhere i j (λ _. away)))
                    (Covers-after m₁ s' held i p.page_number p h (sym same) entries r ps covers
                      refl))
                  (λ _ m' f. record {
                    stays = Stays-trans serves kept (Stays-trans serves st.keeps f.stays);
                    all_clean = f.all_clean;
                  })
                  (λ m' x. Stays-trans serves kept (Stays-trans serves st.keeps x))))
            (λ remote s' kept. record { sound = s'; keeps = kept; held = held })
            (stays serves m s held)))
    where
      skip : not p.present ≡ true → Covers m i ps
      skip absent j q h' a dirty =
          let (k, x, there, at) = covers j q h' a dirty in further k x there at
        where
          further :
              (k : ℕ) (x : Entry)
              → get_elem? (p ∷ ps) k ≡ some x
              → x.page_number ≡ j
              → (k : ℕ) × (x : Entry) × (get_elem? ps k ≡ some x) × (x.page_number ≡ j)
          further zero x there at =
              let same : p ≡ x = cc there in
              let number : p.page_number ≡ j = ap (λ p. p.page_number) same ∙ at in
              let it : p ≡ q = cc (h, h', number) in
              absurd (ground (arith, absent, a, ap (λ p. p.present) it))
          further (suc k) x there at = (k, x, there, at)

  found_answer : (es : List Entry) → found_dirty (some (answer es)) ≡ some es
  found_answer [] = refl
  found_answer (e ∷ es) = refl

  -- On a sound memory where every used frame holds a page, over a storage that keeps its blocks,
  -- with memory granted, for an entry of the file and tag, mm_flush_query ends without a fault;
  -- when it succeeds, no page of the entry that is present is dirty, and whether it succeeds or
  -- fails, no content changes and the memory stays sound.
  pub mm_flush_query-Flushed :
      (m : Memory R)
      → Sound serves m
      → HeldBut m none
      → (i : ℕ) (file tag_name : String) → name_at m i ≡ some (file, tag_name)
      → Ensures (λ _. Flushed m i) (Stays serves m) (mm_flush_query storage true file tag_name m)
  unfolding mm_flush_query mm_get_dirty_pages mm_find_page_table
  mm_flush_query-Flushed m s held i file tag_name named =
      let (e, at) = named_entry m i (file, tag_name) named in
      let found = find_entry_lem m s i file tag_name named in
      let numbered : (l : ℕ) (p : Entry)
          → get_elem? e.page_table.entries l ≡ some p
          → p.page_number ≡ 0 + l =
        λ l p h. s.valid.numbered i l p (own_page m i e at e.page_table l ∙ h) ∙ sym (zero-add l) in
      let pending : Pending m i (dirty_of e.page_table.entries) =
        dirty-Pending m i 0 e.page_table.entries numbered
          (λ l p h. ap (page m i) (zero-add l) ∙ own_page m i e at e.page_table l ∙ h) in
      let covers : Covers m i (dirty_of e.page_table.entries) = λ j p h a d.
        let own = sym (own_page m i e at e.page_table j) ∙ h in
        let (k, there) = dirty_found e.page_table.entries j p own d in
        (k, p, there, s.valid.numbered i j p h) in
      if_elim (λ (o : Outcome R (Unit {0})). Ensures (λ _. Flushed m i) (Stays serves m) o)
        (not (connected storage m)) (λ _. refused m (stays serves m s held))
        (λ _.
          rw
            (
              mm_get_dirty_pages,
              mm_find_page_table,
              found,
              at,
              pt_get_dirty_entries_lem e.page_table (s.valid.tables i e at),
              found_answer (dirty_of e.page_table.entries),
            )
            (rest e
              (flush_pages-Flushed i (dirty_of e.page_table.entries) m s held pending covers)))
    where
      find_entry_lem :
          (m : Memory R)
          → Sound serves m
          → (i : ℕ) (file tag_name : String) → name_at m i ≡ some (file, tag_name)
          → find_entry file tag_name 0 m.entries ≡ some i
      find_entry_lem m s i file tag_name named =
          elim (Option-cases (find_entry file tag_name 0 m.entries)) [
            | inl miss ↦
                let (f, there) = named_entry m i (file, tag_name) named in
                let right = (names_iff file tag_name f).1 (sym (ap name_in_entry there) ∙ named) in
                absurd (cc (right, find_entry-none file tag_name 0 m.entries miss i f there))
            | inr (j, found) ↦
                let (k, f, shifted, there, right) =
                  find_entry-some file tag_name 0 m.entries j found in
                let same : j ≡ k = omega (arith, shifted) in
                let it : k ≡ i =
                  s.valid.named k i (file, tag_name)
                    (ap name_in_entry there ∙ (names_iff file tag_name f).0 right) named in
                found ∙ ap some (same ∙ it)
          ]

      rest :
          (e : FileTagEntry)
          → Ensures
              (λ _. Flushed m i)
              (Stays serves m)
              (flush_pages storage i (dirty_of e.page_table.entries) m)
          → Ensures
              (λ _. Flushed m i)
              (Stays serves m)
              (elim (mm_find_page_table m file tag_name) as (λ _. Outcome R (Unit {0})) [
                | none ↦ gives tt m
                | some j ↦ flush_pages storage j (dirty_of e.page_table.entries) m
              ])
      rest e run = rw (mm_find_page_table, find_entry_lem m s i file tag_name named) run
