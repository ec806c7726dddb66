-- ===== src/Worker/Memory/Choice.antt =====
-- Which page the loops of mm_find_lru_victim choose in worker/src/memory/memory_manager.c, and what
-- the call leaves.
use native.Mathlib.Nat.{zero-add}
use tp_sistemas_operativos.Base.{
  ℕ, suc, ◌+◌, ◌-◌, ◌^◌, ◌≡◌, ◌≤◌, ◌⊎◌, inl, inr, refl, sym, ap, ◌∙◌, subst, true, false, ◌&&◌,
  none, some, List, [], ◌∷◌, get_elem?, ◌==◌, ==_iff, Bool-cases, arith, if◌then◌else◌, ltb,
  if_elim,
}
use tp_sistemas_operativos.Worker.PageTable.{Entry}
use tp_sistemas_operativos.Worker.Memory.State.{
  FileTagEntry, Memory, Storage, gives, M, then_do, page_at,
}
use tp_sistemas_operativos.Worker.Memory.View.{page, page_in_entry}
use tp_sistemas_operativos.Worker.Memory.Lru.{
  Candidate, no_candidate, scan_pages, scan_entries, replace_lru, mm_find_lru_victim,
}
use tp_sistemas_operativos.Worker.Memory.Frames.{release_page}
use tp_sistemas_operativos.Worker.Memory.Outcomes.{Ensures, returned, refused}
use tp_sistemas_operativos.Worker.Memory.Contents.{Serves, Sound, HeldBut}
use tp_sistemas_operativos.Worker.Memory.Replace.{page_entry}
use tp_sistemas_operativos.Worker.Memory.Evict.{Freed, Stays, evict_dirty, evict_clean, stays}

module _ {R : Type 0} (m : Memory R) where
  -- Nothing was chosen, or a page that is present, with its frame and its time.
  pub data Picks : Candidate → Type 0 where
    nothing : Picks no_candidate
    chosen :
        (i j : ℕ) (p : Entry)
        → page m i j ≡ some p
        → p.present ≡ true
        → Picks (record {
          oldest_time = p.last_access_time;
          victim_frame = p.frame;
          victim = some (i, j);
        })

  -- What a loop leaves: a pick no younger than before, and than the pages it went over.
  pub record Scanned (c c' : Candidate) (Over : ℕ → ℕ → Type 0) : Type 0 where
    pub picks : Picks c'
    pub older : c'.oldest_time ≤ c.oldest_time
    pub oldest :
        (i j : ℕ) (p : Entry)
        → Over i j
        → page m i j ≡ some p
        → p.present ≡ true
        → c'.oldest_time ≤ p.last_access_time

  -- The pages of entry i from page j on.
  abbrev From : ℕ → ℕ → ℕ → ℕ → Type 0
  From i j k l = (k ≡ i) × (j ≤ l)

  -- One round of the loop over pages.
  abbrev round : ℕ → ℕ → Entry → Candidate → Candidate
  round i j p c =
      if p.present && ltb p.last_access_time c.oldest_time
      then record { oldest_time = p.last_access_time; victim_frame = p.frame; victim = some (i, j) }
      else c

  round-Picks :
      (i j : ℕ) (p : Entry) (c : Candidate) → page m i j ≡ some p → Picks c → Picks (round i j p c)
  round-Picks i j p c h k = elim (Bool-cases p.present) [
    | inl a ↦ elim (Bool-cases (ltb p.last_access_time c.oldest_time)) [
      | inl b ↦ subst Picks (ground (arith, a, b)) (chosen i j p h a)
      | inr b ↦ subst Picks (ground (arith, a, b)) k
    ]
    | inr a ↦ subst Picks (ground (arith, a)) k
  ]

  round_older : (i j : ℕ) (p : Entry) (c : Candidate) → (round i j p c).oldest_time ≤ c.oldest_time
  round_older i j p c = ground arith

  round_oldest :
      (i j : ℕ) (p : Entry) (c : Candidate)
      → p.present ≡ true
      → (round i j p c).oldest_time ≤ p.last_access_time
  round_oldest i j p c a = ground arith

  scan_pages_lem :
      (i j : ℕ) (ps : List Entry) (c : Candidate)
      → ((l : ℕ) → get_elem? ps l ≡ page m i (j + l))
      → Picks c
      → Scanned c (scan_pages i j ps c) (From i j)
  unfolding scan_pages
  scan_pages_lem i j [] c same k = record {
    picks = k;
    older = omega arith;
    oldest = λ u l p (x, y) h a.
        let at : j + (l - j) ≡ l = omega arith in
        absurd (cc (same (l - j), h, ap (page m i) at, ap (λ u. page m u l) x));
  }
  scan_pages_lem i j (p ∷ ps) c same k =
      let start : j ≡ j + 0 = omega arith in
      let here : page m i j ≡ some p = ap (page m i) start ∙ sym (same 0) in
      let rest =
        scan_pages_lem i (j + 1) ps (round i j p c)
          (λ l. same (suc l) ∙ ap (page m i) (omega arith)) (round-Picks i j p c here k) in
      record {
        picks = rest.picks;
        older = omega (arith, rest.older, round_older i j p c);
        oldest = λ u l q (x, y) h a. elim (Bool-cases (l == j)) [
          | inl e ↦
              let first : l ≡ j = (==_iff l j).0 e in
              let is_p : q ≡ p = cc (h, here, x, first) in
              omega (
                arith,
                rest.older,
                round_oldest i j p c (sym (ap (λ p. p.present) is_p) ∙ a),
                ap (λ p. p.last_access_time) is_p,
              )
          | inr e ↦ rest.oldest u l q (x, beyond l y e) h a
        ];
      }
    where
      beyond : (l : ℕ) → j ≤ l → (l == j) ≡ false → j + 1 ≤ l
      beyond l y e = ground arith

  -- The pages of the entries from entry i on.
  abbrev Beyond : ℕ → ℕ → ℕ → Type 0
  Beyond i k l = i ≤ k

  scan_entries_lem :
      (i : ℕ) (es : List FileTagEntry) (c : Candidate)
      → ((k : ℕ) → get_elem? es k ≡ get_elem? m.entries (i + k))
      → Picks c
      → Scanned c (scan_entries i es c) (Beyond i)
  unfolding scan_entries
  scan_entries_lem i [] c same k = record {
    picks = k;
    older = omega arith;
    oldest = λ u l p x h a.
        let at : i + (u - i) ≡ u = omega arith in
        let (e, there, own) = page_entry m u l p h in
        absurd (cc (same (u - i), there, ap (get_elem? m.entries) at));
  }
  scan_entries_lem i (e ∷ es) c same k =
      let start : i ≡ i + 0 = omega arith in
      let here : get_elem? m.entries i ≡ some e = ap (get_elem? m.entries) start ∙ sym (same 0) in
      let own =
        scan_pages_lem i 0 e.page_table.entries c
          (λ l.
            sym
              (ap (page_in_entry (0 + l)) here ∙ ap (get_elem? e.page_table.entries) (zero-add l)))
          k in
      let rest =
        scan_entries_lem (i + 1) es (scan_pages i 0 e.page_table.entries c)
          (λ l. same (suc l) ∙ ap (get_elem? m.entries) (omega arith)) own.picks in
      record {
        picks = rest.picks;
        older = omega (arith, rest.older, own.older);
        oldest = λ u l q x h a. elim (Bool-cases (u == i)) [
          | inl e ↦ omega (arith, rest.older, own.oldest u l q ((==_iff u i).0 e, omega arith) h a)
          | inr e ↦ rest.oldest u l q (beyond u x e) h a
        ];
      }
    where
      beyond : (u : ℕ) → i ≤ u → (u == i) ≡ false → i + 1 ≤ u
      beyond u y e = ground arith

  abbrev pub lru_victim : Candidate
  lru_victim = scan_entries 0 m.entries no_candidate

  pub lru_victim-Scanned : Scanned no_candidate lru_victim (Beyond 0)
  lru_victim-Scanned =
      scan_entries_lem 0 m.entries no_candidate (λ k. ap (get_elem? m.entries) (sym (zero-add k)))
        nothing

-- Where some page is present, the loops of the LRU replacement choose a page that is present,
-- with its frame, whose last access is no later than that of any page that is present; they
-- choose none only if that page's time of access is UINT64_MAX.
pub lru_victim_lem :
    {R : Type 0} (m : Memory R) (k l : ℕ) (q : Entry)
    → page m k l ≡ some q
    → q.present ≡ true
    → ((lru_victim m ≡ no_candidate) × (2 ^ 64 - 1 ≤ q.last_access_time))
      ⊎ ((i : ℕ) × (j : ℕ) × (p : Entry) × (page m i j ≡ some p)
          × (p.present ≡ true)
          × (lru_victim m ≡ record {
            oldest_time = p.last_access_time;
            victim_frame = p.frame;
            victim = some (i, j);
          })
          × (p.last_access_time ≤ q.last_access_time))
lru_victim_lem m k l q h a =
    by_pick (lru_victim m) (lru_victim-Scanned m).picks
      ((lru_victim-Scanned m).oldest k l q (omega arith) h a)
  where
    by_pick :
        (c : Candidate)
        → Picks m c
        → c.oldest_time ≤ q.last_access_time
        → ((c ≡ no_candidate) × (2 ^ 64 - 1 ≤ q.last_access_time))
          ⊎ ((i : ℕ) × (j : ℕ) × (p : Entry) × (page m i j ≡ some p)
              × (p.present ≡ true)
              × (c ≡ record {
                oldest_time = p.last_access_time;
                victim_frame = p.frame;
                victim = some (i, j);
              })
              × (p.last_access_time ≤ q.last_access_time))
    by_pick _ nothing older = inl (refl, older)
    by_pick _ (chosen i j p e b) older = inr (i, j, p, e, b, refl, older)

module _ {R : Type 0} {storage : Storage R} {page_size : ℕ} (serves : Serves storage page_size)
    (m : Memory R) (s : Sound serves m) (held : HeldBut m none) where
  replace_lru_lem :
      (c : Candidate)
      → Picks m c
      → Ensures (λ f. Freed serves m f) (Stays serves m) (replace_lru storage c m)
  unfolding replace_lru page_at
  replace_lru_lem _ nothing = refused m (stays serves m s held)
  replace_lru_lem _ (chosen i j p h a) =
      let (e, at, own) = page_entry m i j p h in
      if_elim (λ (k : M R ℕ). Ensures (λ f. Freed serves m f) (Stays serves m) (k m))
        (p.frame == 2 ^ 32 - 1) (λ _. refused m (stays serves m s held))
        (λ _.
          rw (at, own)
            (if_elim
              (λ (k : M R (Unit {0})).
                Ensures (λ f. Freed serves m f) (Stays serves m)
                  (then_do (k m)
                    (λ _ m'. then_do (release_page storage i j p.frame m') (λ _. gives p.frame))))
              p.dirty (evict_dirty serves m s held i j p h a _ (λ m' f. returned p.frame m' f))
              (evict_clean serves m s held i j p h a _ (λ m' f. returned p.frame m' f))))

  -- On a sound memory where every used frame holds a page, over a storage that keeps its blocks,
  -- the LRU replacement returns without a fault: it either frees a frame that then holds no page,
  -- or fails; no content changes and the memory stays sound.
  pub mm_find_lru_victim-Freed :
      Ensures (λ f. Freed serves m f) (Stays serves m) (mm_find_lru_victim storage m)
  unfolding mm_find_lru_victim
  mm_find_lru_victim-Freed = replace_lru_lem (lru_victim m) (lru_victim-Scanned m).picks
