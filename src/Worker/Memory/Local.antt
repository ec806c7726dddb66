-- ===== src/Worker/Memory/Local.antt =====
-- Changes of the memory of worker/src/memory/memory_manager.c that replace one page and leave what
-- the others rest on: their frames, bytes and blocks.
use tp_sistemas_operativos.Base.{
  ℕ, ◌^◌, ◌≡◌, ◌≢◌, ◌<◌, ◌⊎◌, inl, inr, sym, ap, ◌∙◌, true, false, some, length, get_elem?, ◌==◌,
  ==_iff, Bool-cases, Option-cases, arith,
}
use tp_sistemas_operativos.Worker.PageTable.{Entry}
use tp_sistemas_operativos.Worker.PageTable.Entries.{IsValid}
use tp_sistemas_operativos.Worker.Memory.State.{FileTagEntry, Memory, Storage}
use tp_sistemas_operativos.Worker.Memory.View.{page, name_at}
use tp_sistemas_operativos.Worker.Memory.Contents.{Serves, frame_bytes, block_of, content, Sound}

abbrev pub Elsewhere : ℕ → ℕ → ℕ → ℕ → Type 0
Elsewhere i j k l = k ≡ i → l ≢ j

pub where_is : (i j k l : ℕ) → ((k ≡ i) × (l ≡ j)) ⊎ Elsewhere i j k l
where_is i j k l = elim (Bool-cases (k == i)) [
  | inl a ↦ elim (Bool-cases (l == j)) [
    | inl b ↦ inl ((==_iff k i).0 a, (==_iff l j).0 b)
    | inr b ↦ inr (λ _ e. absurd (ground (arith, (==_iff l j).1 e)))
  ]
  | inr a ↦ inr (λ e. absurd (ground (arith, (==_iff k i).1 e)))
]

module _ {R : Type 0} {storage : Storage R} {page_size : ℕ}
    (serves : Serves storage page_size) where
  pub record Local (m m' : Memory R) (i j : ℕ) (p' : Entry) : Type 0 where
    pub here : page m' i j ≡ some p'
    pub elsewhere : (k l : ℕ) → Elsewhere i j k l → page m' k l ≡ page m k l
    pub tables : (k : ℕ) (e : FileTagEntry) → get_elem? m'.entries k ≡ some e → IsValid e.page_table
    pub short :
        (k : ℕ) (e : FileTagEntry)
        → get_elem? m'.entries k ≡ some e
        → e.page_table.page_count < 2 ^ 32
    pub names : (k : ℕ) → name_at m' k ≡ name_at m k
    pub number : p'.page_number ≡ j
    pub mine : p'.present ≡ true → get_elem? m'.frames p'.frame ≡ some true
    pub fresh :
        p'.present ≡ true
        → (k l : ℕ) (q : Entry) → page m k l ≡ some q
        → q.present ≡ true
        → q.frame ≡ p'.frame
        → (k ≡ i) × (l ≡ j)
    pub others_used :
        (k l : ℕ) (q : Entry)
        → page m k l ≡ some q
        → q.present ≡ true
        → Elsewhere i j k l
        → get_elem? m'.frames q.frame ≡ get_elem? m.frames q.frame
    pub others_bytes :
        (k l : ℕ) (q : Entry)
        → page m k l ≡ some q
        → q.present ≡ true
        → Elsewhere i j k l
        → frame_bytes m' q.frame ≡ frame_bytes m q.frame
    pub others_block :
        (k l : ℕ)
        → Elsewhere i j k l
        → block_of serves m'.remote (name_at m k) l ≡ block_of serves m.remote (name_at m k) l
    pub synced :
        p'.present ≡ true
        → p'.dirty ≡ false
        → frame_bytes m' p'.frame ≡ block_of serves m'.remote (name_at m i) j
    pub frames_kept : length m'.frames ≡ length m.frames
    pub count_kept : m'.frame_count ≡ m.frame_count
    pub size_kept : m'.page_size ≡ m.page_size
    pub memory_kept : length m'.physical_memory ≡ length m.physical_memory
    pub clock_kept : m'.clock_pointer ≡ m.clock_pointer

  module _ {m m' : Memory R} {i j : ℕ} {p' : Entry} (s : Sound serves m)
      (c : Local m m' i j p') where
    -- A page after the change is the new one, or one of the others as before.
    after_cases :
        (k l : ℕ) (p : Entry)
        → page m' k l ≡ some p
        → ((k ≡ i) × (l ≡ j) × (p ≡ p')) ⊎ (Elsewhere i j k l × (page m k l ≡ some p))
    after_cases k l p h = elim (where_is i j k l) [
      | inl (a, b) ↦ inl (a, b, cc (a, b, c.here, h))
      | inr away ↦ inr (away, sym (c.elsewhere k l away) ∙ h)
    ]

    numbered' : (k l : ℕ) (p : Entry) → page m' k l ≡ some p → p.page_number ≡ l
    numbered' k l p h = elim (after_cases k l p h) [
      | inl (_, b, same) ↦ ap (λ p. p.page_number) same ∙ c.number ∙ sym b
      | inr (_, was) ↦ s.valid.numbered k l p was
    ]

    resident' :
        (k l : ℕ) (p : Entry)
        → page m' k l ≡ some p
        → p.present ≡ true
        → get_elem? m'.frames p.frame ≡ some true
    resident' k l p h a = elim (after_cases k l p h) [
      | inl (_, _, same) ↦
          ap (λ p. get_elem? m'.frames p.frame) same ∙ c.mine (sym (ap (λ p. p.present) same) ∙ a)
      | inr (away, was) ↦ c.others_used k l p was a away ∙ s.valid.resident k l p was a
    ]

    alone' :
        (k l k' l' : ℕ) (p q : Entry)
        → page m' k l ≡ some p
        → page m' k' l' ≡ some q
        → p.present ≡ true
        → q.present ≡ true
        → p.frame ≡ q.frame
        → (k ≡ k') × (l ≡ l')
    alone' k l k' l' p q h h' a a' f = elim (after_cases k l p h) [
      | inl (x, y, same) ↦ elim (after_cases k' l' q h') [
        | inl (x', y', _) ↦ (x ∙ sym x', y ∙ sym y')
        | inr (_, was) ↦
            let (u, v) =
              c.fresh (sym (ap (λ p. p.present) same) ∙ a) k' l' q was a'
                (sym f ∙ ap (λ p. p.frame) same) in
            (x ∙ sym u, y ∙ sym v)
      ]
      | inr (_, was) ↦ elim (after_cases k' l' q h') [
        | inl (x', y', same) ↦
            let (u, v) =
              c.fresh (sym (ap (λ p. p.present) same) ∙ a') k l p was a
                (f ∙ ap (λ p. p.frame) same) in
            (u ∙ sym x', v ∙ sym y')
        | inr (_, was') ↦ s.valid.alone k l k' l' p q was was' a a' f
      ]
    ]

    clean' :
        (k l : ℕ) (p : Entry)
        → page m' k l ≡ some p
        → p.present ≡ true
        → p.dirty ≡ false
        → frame_bytes m' p.frame ≡ block_of serves m'.remote (name_at m' k) l
    clean' k l p h a d =
        let renamed : block_of serves m'.remote (name_at m' k) l
            ≡ block_of serves m'.remote (name_at m k) l =
          ap (λ n. block_of serves m'.remote n l) (c.names k) in
        elim (after_cases k l p h) [
          | inl (x, y, same) ↦
              ap (λ p. frame_bytes m' p.frame) same
              ∙ c.synced (sym (ap (λ p. p.present) same) ∙ a) (sym (ap (λ p. p.dirty) same) ∙ d)
              ∙ sym (ap (λ k. block_of serves m'.remote (name_at m k) j) x)
              ∙ sym (ap (λ l. block_of serves m'.remote (name_at m k) l) y)
              ∙ sym renamed
          | inr (away, was) ↦
              c.others_bytes k l p was a away
              ∙ s.clean k l p was a d
              ∙ sym (c.others_block k l away)
              ∙ sym renamed
        ]

    pub local-Sound : Sound serves m'
    local-Sound = record {
      valid = record {
        tables = c.tables;
        short = c.short;
        numbered = numbered';
        resident = resident';
        alone = alone';
        named = λ k k' n h h'. s.valid.named k k' n (sym (c.names k) ∙ h) (sym (c.names k') ∙ h');
        sized = c.frames_kept ∙ s.valid.sized ∙ sym c.count_kept;
        counted = omega (arith, c.count_kept, s.valid.counted);
        fits = rw (c.count_kept, c.size_kept, c.memory_kept) s.valid.fits;
        positive = omega (arith, c.size_kept, s.valid.positive);
        pointed = λ some_frame.
            rw (c.count_kept, c.clock_kept) (s.valid.pointed (λ e. some_frame (c.count_kept ∙ e)));
      };
      same_size = c.size_kept ∙ s.same_size;
      clean = clean';
    }

    -- The contents of the other pages stay.
    pub local_content : (k l : ℕ) → Elsewhere i j k l → content serves m' k l ≡ content serves m k l
    local_content k l away = elim (Option-cases (page m k l)) [
      | inl e ↦ rw (c.elsewhere k l away, e, c.names k) (c.others_block k l away)
      | inr (q, e) ↦ elim (Bool-cases q.present) [
        | inl a ↦ rw (c.elsewhere k l away, e, a) (c.others_bytes k l q e a away)
        | inr a ↦ rw (c.elsewhere k l away, e, a, c.names k) (c.others_block k l away)
      ]
    ]
