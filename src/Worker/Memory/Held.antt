-- ===== src/Worker/Memory/Held.antt =====
-- mm_find_page_for_frame of worker/src/memory/memory_manager.c.
use native.Mathlib.Nat.{zero-add}
use tp_sistemas_operativos.Base.{
  ℕ, zero, suc, ◌+◌, ◌≡◌, ◌⊎◌, inl, inr, refl, ap, ◌∙◌, true, false, ◌&&◌, none, some, List, [],
  ◌∷◌, get_elem?, ◌==◌, Bool-cases, arith,
}
use tp_sistemas_operativos.Worker.PageTable.{Entry}
use tp_sistemas_operativos.Worker.Memory.State.{FileTagEntry, Memory}
use tp_sistemas_operativos.Worker.Memory.View.{page, page_in_entry}
use tp_sistemas_operativos.Worker.Memory.Frames.{page_in, find_page, mm_find_page_for_frame}
use tp_sistemas_operativos.Worker.Memory.Contents.{Held}

-- The page is in the frame.
abbrev pub In : ℕ → Entry → Type 0
In frame p = (p.present ≡ true) × (p.frame ≡ frame)

page_in-In :
    (frame j : ℕ) (ps : List Entry)
    → ((page_in frame j ps ≡ none) × ((l : ℕ) (p : Entry) → get_elem? ps l ≡ some p → ¬ In frame p))
      ⊎ ((l : ℕ) × (p : Entry) × (page_in frame j ps ≡ some (j + l))
          × (get_elem? ps l ≡ some p)
          × In frame p)
unfolding page_in
page_in-In frame j [] = inl (refl, λ l p h x. absurd (cc h))
page_in-In frame j (p ∷ ps) = elim (Bool-cases (p.present && p.frame == frame)) [
  | inl b ↦ inr (0, p, rw b (ap some (omega arith)), refl, (ground (arith, b), ground (arith, b)))
  | inr b ↦ elim (page_in-In frame (j + 1) ps) [
    | inl (miss, others) ↦ inl (rw b miss, λ l q h x. nowhere others b l q h x)
    | inr (l, q, found, there, at) ↦ inr (suc l, q, rw b (found ∙ ap some (omega arith)), there, at)
  ]
]
  where
    nowhere :
        ((l : ℕ) (q : Entry) → get_elem? ps l ≡ some q → ¬ In frame q)
        → (p.present && p.frame == frame) ≡ false
        → (l : ℕ) (q : Entry) → get_elem? (p ∷ ps) l ≡ some q
        → ¬ In frame q
    nowhere others b zero q h (a, f) =
        let same : p ≡ q = cc h in
        ground (arith, b, ap (λ p. p.present) same, ap (λ p. p.frame) same, a, f)
    nowhere others b (suc l) q h x = others l q h x

find_page-In :
    (frame i : ℕ) (es : List FileTagEntry)
    → ((find_page frame i es ≡ none)
        × ((k l : ℕ) (p : Entry) → page_in_entry l (get_elem? es k) ≡ some p → ¬ In frame p))
      ⊎ ((k : ℕ) × (l : ℕ) × (p : Entry) × (find_page frame i es ≡ some (i + k, l))
          × (page_in_entry l (get_elem? es k) ≡ some p)
          × In frame p)
unfolding find_page
find_page-In frame i [] = inl (refl, λ k l p h x. absurd (cc h))
find_page-In frame i (e ∷ es) = elim (page_in-In frame 0 e.page_table.entries) [
  | inr (l, p, found, there, at) ↦
      let start : i ≡ i + 0 = omega arith in
      inr (0, l, p, rw (find_page, found, zero-add) (ap (λ k. some (k, l)) start), there, at)
  | inl (miss, others) ↦ elim (find_page-In frame (i + 1) es) [
    | inl (none_there, nowhere) ↦ inl (
      rw (find_page, miss) none_there,
      λ k.
          elim k
            as (λ k.
              (l : ℕ) (p : Entry)
              → page_in_entry l (get_elem? (e ∷ es) k) ≡ some p
              → ¬ In frame p) [ zero ↦ others | suc k ↦ nowhere k ],
    )
    | inr (k, l, p, found, there, at) ↦
        let shift : i + 1 + k ≡ i + suc k = omega arith in
        inr (suc k, l, p, rw (find_page, miss) (found ∙ ap (λ k. some (k, l)) shift), there, at)
  ]
]

-- For a frame that holds a page, mm_find_page_for_frame finds an entry and a page of it that is
-- present in that frame.
pub mm_find_page_for_frame_lem :
    {R : Type 0} (m : Memory R) (frame : ℕ)
    → Held m frame
    → (i : ℕ) × (j : ℕ) × (p : Entry) × (mm_find_page_for_frame m frame ≡ some (i, j))
      × (page m i j ≡ some p)
      × In frame p
unfolding mm_find_page_for_frame
mm_find_page_for_frame_lem m frame (i, j, p, h, a, f) = elim (find_page-In frame 0 m.entries) [
  | inl (_, nowhere) ↦ absurd (nowhere i j p h (a, f))
  | inr (k, l, q, found, there, in_it) ↦
      (k, l, q, found ∙ ap (λ k. some (k, l)) (zero-add k), there, in_it)
]
