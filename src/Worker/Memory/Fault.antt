-- ===== src/Worker/Memory/Fault.antt =====
-- mm_handle_page_fault of worker/src/memory/memory_manager.c, and the part of mm_access_memory that
-- makes a page ready.
use Prim.Native.String.{String}
use tp_sistemas_operativos.Base.{
  ℕ, ◌^◌, ◌≡◌, ◌<◌, inl, inr, sym, ap, ◌∙◌, Bool, true, false, none, some, Bool-cases, if_elim,
}
use tp_sistemas_operativos.Worker.PageTable.{Entry}
use tp_sistemas_operativos.Worker.Memory.State.{
  Memory, Storage, M, then_do, page_at, ◌>>=◌, ◌>>◌, modify,
}
use tp_sistemas_operativos.Worker.Memory.View.{page, name_at}
use tp_sistemas_operativos.Worker.Memory.Frames.{mm_update_page_access}
use tp_sistemas_operativos.Worker.Memory.Access.{
  mm_allocate_frame, load_page, mm_handle_page_fault, ready_page,
}
use tp_sistemas_operativos.Worker.Memory.Outcomes.{
  Ensures, returned, refused, weaken, then-Ensures, option_Ensures,
}
use tp_sistemas_operativos.Worker.Memory.Contents.{Serves, Sound, HeldBut, Shrinks}
use tp_sistemas_operativos.Worker.Memory.Keeps.{Has}
use tp_sistemas_operativos.Worker.Memory.Evict.{Stays}
use tp_sistemas_operativos.Worker.Memory.Passes.{page_at_lem}
use tp_sistemas_operativos.Worker.Memory.Allocate.{mm_allocate_frame-Lends}
use tp_sistemas_operativos.Worker.Memory.Load.{Open, Present, load_page_lem}
use tp_sistemas_operativos.Worker.Memory.Extend.{fit_table_lem}
use tp_sistemas_operativos.Worker.Memory.Marks.{
  named_entry, Stays-trans, beside-Stays, mm_update_page_access_lem,
}

module _ {R : Type 0} {storage : Storage R} {page_size : ℕ}
    (serves : Serves storage page_size) where
  -- The end of a call that leaves page j of entry i in a frame.
  abbrev pub Brought : Memory R → ℕ → ℕ → Memory R → Type 0
  Brought m i j m' = Stays serves m m' × Present serves i j m'

  module _ (i j : ℕ) (file tag_name : String) where
    -- From the allocation of the frame on.
    bring_lem :
        (m : Memory R)
        → Sound serves m
        → HeldBut m none
        → name_at m i ≡ some (file, tag_name)
        → Has m i j
        → ((p : Entry) → page m i j ≡ some p → p.present ≡ false)
        → Ensures
            (λ _. Brought m i j)
            (Stays serves m)
            ((do
              frame ← mm_allocate_frame storage
              load_page storage i file tag_name j frame
              mm_update_page_access i j
              modify (λ m. record m { last_victim = none }))
              m)
    bring_lem m s held named (p, h) absent =
        then-Ensures (mm_allocate_frame-Lends serves m s held) λ f m₁ lent.
          let (p₁, h₁) = lent.keeps.has i j (p, h) in
          let absent₁ = still_absent m₁ lent.shrinks p₁ h₁ in
          let o : Open serves f m₁ = record {
            sound = lent.sound;
            held = lent.held;
            unheld = lent.unheld;
            used = lent.used;
          } in
          then-Ensures
            (weaken
              (load_page_lem serves m₁ f o i j p₁ h₁ absent₁ file tag_name
                (lent.keeps.names i ∙ named))
              (λ _ m₂ x. x) (λ m₂ x. Stays-trans serves lent.keeps x))
            λ _ m₂ (stays₂, (p₂, h₂, a₂)).
              then-Ensures
                (weaken (mm_update_page_access_lem serves m₂ stays₂.sound stays₂.held i j p₂ h₂)
                  (λ _ m₃ x. x) (λ m₃ n. absurd n))
                λ _ m₃ (stays₃, p₃, h₃, same, _). returned tt _ (
                  Stays-trans serves lent.keeps (
                      Stays-trans serves stays₂.keeps (
                        Stays-trans serves stays₃.keeps (
                          beside-Stays serves m₃ stays₃.sound stays₃.held m₃.global_timestamp
                            none))),
                  (p₃, h₃, same.1 ∙ a₂),
                )
      where
        still_absent :
            (m₁ : Memory R)
            → Shrinks m m₁
            → (p₁ : Entry) → page m₁ i j ≡ some p₁
            → p₁.present ≡ false
        still_absent m₁ shrinks p₁ h₁ = elim (Bool-cases p₁.present) [
          | inr a ↦ a
          | inl a ↦ let (q, h', b) = shrinks i j p₁ h₁ a in absurd (cc (b, absent q h'))
        ]

    abbrev pub Ready : Memory R → Entry → Memory R → Type 0
    Ready m p m' = Stays serves m m' × (page m' i j ≡ some p) × (p.present ≡ true)

    module _ (granted : Bool) (limit : j < 2 ^ 32) (m : Memory R) (s : Sound serves m)
        (held : HeldBut m none) (named : name_at m i ≡ some (file, tag_name)) where
      -- On a sound memory where every used frame holds a page, over a storage that keeps its
      -- blocks, for a page below 2 ^ 32 of an entry of the given file and tag that is in no
      -- frame, the handling of its fault ends without a fault of its own: it either brings the
      -- page into a frame or fails; in both cases no content changes, the memory stays sound and
      -- every used frame holds a page.
      pub mm_handle_page_fault_lem :
          ((p : Entry) → page m i j ≡ some p → p.present ≡ false)
          → Ensures
              (λ _. Brought m i j)
              (Stays serves m)
              (mm_handle_page_fault storage granted i file tag_name j m)
      unfolding mm_handle_page_fault
      mm_handle_page_fault_lem absent =
          let (e, at) = named_entry m i (file, tag_name) named in
          then-Ensures (fit_table_lem serves m s held i e at granted j limit)
            λ _ m₁ (stays₁, shrinks₁, has₁).
              option_Ensures m₁.storage_socket _ _ (λ _. refused m₁ stays₁)
                (λ _ _.
                  option_Ensures m₁.worker_id _ _ (λ _. refused m₁ stays₁)
                    (λ _ _.
                      weaken
                        (bring_lem m₁ stays₁.sound stays₁.held (stays₁.keeps.names i ∙ named) has₁
                          (still_absent m₁ shrinks₁))
                        (λ _ m₂ (stays₂, there). (Stays-trans serves stays₁.keeps stays₂, there))
                        (λ m₂ stays₂. Stays-trans serves stays₁.keeps stays₂)))
        where
          still_absent :
              (m₁ : Memory R)
              → Shrinks m m₁
              → (p₁ : Entry) → page m₁ i j ≡ some p₁
              → p₁.present ≡ false
          still_absent m₁ shrinks p₁ h₁ = elim (Bool-cases p₁.present) [
            | inr a ↦ a
            | inl a ↦ let (q, h', b) = shrinks i j p₁ h₁ a in absurd (cc (b, absent q h'))
          ]

    module _ (granted : Bool) (limit : j < 2 ^ 32) (m : Memory R) (s : Sound serves m)
        (held : HeldBut m none) (named : name_at m i ≡ some (file, tag_name)) where
      -- The page is ready, or the call fails; in both cases no content changes.
      pub ready_page_lem :
          Ensures (Ready m) (Stays serves m) (ready_page storage granted i file tag_name j m)
      unfolding ready_page
      ready_page_lem =
          let (e, at) = named_entry m i (file, tag_name) named in
          then-Ensures (fit_table_lem serves m s held i e at granted j limit)
            λ _ m₁ (stays₁, shrinks₁, (p₁, h₁)). rw (page_at_lem m₁ i j p₁ h₁) (
              if_elim
                (λ (k : M R (Unit {0})).
                  Ensures (Ready m) (Stays serves m) (then_do (k m₁) (λ _. page_at i j)))
                p₁.present (λ a. finish m₁ (stays₁, (p₁, h₁, a)))
                (λ a.
                  then-Ensures
                    (weaken
                      (mm_handle_page_fault_lem granted limit m₁ stays₁.sound stays₁.held
                        (stays₁.keeps.names i ∙ named)
                        (λ q h'.
                          let same : p₁ ≡ q = cc (h₁, h') in sym (ap (λ p. p.present) same) ∙ a))
                      (λ _ m₂ (stays₂, there). (Stays-trans serves stays₁.keeps stays₂, there))
                      (λ m₂ stays₂. Stays-trans serves stays₁.keeps stays₂))
                    (λ _ m₂ b. finish m₂ b)))
        where
          finish :
              (m' : Memory R)
              → Brought m i j m'
              → Ensures (Ready m) (Stays serves m) (page_at i j m')
          finish m' (stays', (p', h', a')) =
              rw (page_at_lem m' i j p' h') (returned p' m' (stays', h', a'))
