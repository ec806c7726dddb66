-- ===== src/Worker/Memory/Marks.antt =====
-- mm_update_page_access of worker/src/memory/memory_manager.c, and changes that no content depends
-- on.
use Prim.Native.String.{String}
use tp_sistemas_operativos.Base.{
  ℕ, ◌+◌, ◌%◌, ◌^◌, ◌≡◌, inl, inr, refl, sym, ap, ◌∙◌, Option, none, some, List, get_elem?,
  Option-cases, arith, if_elim, leb, leb→le, lookup_bound, true,
}
use tp_sistemas_operativos.Worker.PageTable.{Entry, change_entry}
use tp_sistemas_operativos.Worker.Memory.State.{
  FileTagEntry, Memory, Storage, Policy, Victim, M, then_do, on_table, pure,
}
use tp_sistemas_operativos.Worker.Memory.View.{page, name_at}
use tp_sistemas_operativos.Worker.Memory.Frames.{marked, mm_update_page_access}
use tp_sistemas_operativos.Worker.Memory.Outcomes.{Ensures, returned, Never}
use tp_sistemas_operativos.Worker.Memory.Contents.{Serves, Sound, HeldBut}
use tp_sistemas_operativos.Worker.Memory.Local.{Local, where_is, local-Sound}
use tp_sistemas_operativos.Worker.Memory.Keeps.{
  Keeps, Keeps-trans, local_Keeps, Aside, aside-Sound, aside-Keeps,
}
use tp_sistemas_operativos.Worker.Memory.Replace.{Replaced, on_table-Replaced, page_entry}
use tp_sistemas_operativos.Worker.Memory.Steps.{still_Local, still_content}
use tp_sistemas_operativos.Worker.Memory.Evict.{Stays}

-- The entry that a name stands in.
pub named_entry :
    {R : Type 0} (m : Memory R) (i : ℕ) (n : String × String)
    → name_at m i ≡ some n
    → (e : FileTagEntry) × (get_elem? m.entries i ≡ some e)
named_entry m i n h = elim (Option-cases (get_elem? m.entries i)) [
  | inl miss ↦ absurd (ground (arith, miss, h))
  | inr there ↦ there
]

-- The same page, but for what an access marks.
abbrev pub Same : Entry → Entry → Type 0
Same p p' =
    (p'.page_number ≡ p.page_number)
    × (p'.present ≡ p.present)
    × (p'.frame ≡ p.frame)
    × (p'.dirty ≡ p.dirty)

marked-Same : (policy : Policy) (now : ℕ) (p : Entry) → Same p (marked policy now p)
marked-Same Policy.lru now p = (refl, refl, refl, refl)
marked-Same Policy.clock_m now p = (refl, refl, refl, refl)

module _ {R : Type 0} {storage : Storage R} {page_size : ℕ}
    (serves : Serves storage page_size) where
  pub Stays-trans : {m m' x : Memory R} → Keeps serves m m' → Stays serves m' x → Stays serves m x
  Stays-trans k s = record { sound = s.sound; keeps = Keeps-trans serves k s.keeps; held = s.held }

  -- What no page depends on.
  module _ (m : Memory R) (s : Sound serves m) (held : HeldBut m none) where
    beside :
        (now : ℕ) (victim : Option Victim)
        → Aside serves m m.physical_memory m.frames m.remote m.clock_pointer now victim
    beside now victim = record {
      used = s.valid.resident;
      bytes = λ k l q e a. refl;
      blocks = λ n j. refl;
      length_memory = refl;
      length_frames = refl;
      pointed = s.valid.pointed;
    }

    pub beside-Stays :
        (now : ℕ) (victim : Option Victim)
        → Stays serves m (record m { global_timestamp = now; last_victim = victim })
    beside-Stays now victim = record {
      sound =
          aside-Sound serves m m.physical_memory m.frames m.remote m.clock_pointer now victim s
            (beside now victim);
      keeps =
          aside-Keeps serves m m.physical_memory m.frames m.remote m.clock_pointer now victim s
            (beside now victim);
      held = held;
    }

    -- A page that stays in its place, with other marks.
    module _ (i j : ℕ) (p p' : Entry) (h : page m i j ≡ some p) (same : Same p p')
        (entries : List FileTagEntry) (r : Replaced m i j p' entries) where
      marks : Local serves m (record m { entries = entries }) i j p'
      marks =
          let (number, present, frame, dirty) = same in
          still_Local m s i j p h p' entries r number present frame
            (λ a d. s.clean i j p h (sym present ∙ a) (sym dirty ∙ d))

      marks-Stays : Stays serves m (record m { entries = entries })
      marks-Stays = record {
        sound = local-Sound serves s marks;
        keeps = local_Keeps serves s marks (still_content m s i j p h p' entries r same.1 same.2);
        held = λ f u n.
            let (k, l, q, h', a, g) = held f u n in
            elim (where_is i j k l) [
              | inl (x, y) ↦
                  let it : p ≡ q = cc (h, h', x, y) in
                  (
                    i,
                    j,
                    p',
                    r.here,
                    same.1 ∙ ap (λ p. p.present) it ∙ a,
                    same.2 ∙ ap (λ p. p.frame) it ∙ g,
                  )
              | inr away ↦ (k, l, q, r.elsewhere k l away ∙ h', a, g)
            ];
      }

  -- What an access marks under a policy: LRU advances the clock of the accesses and puts its time on
  -- the page, CLOCK-M sets the use bit; each leaves the mark of the other alone.
  abbrev pub Stamps : Policy → Memory R → Entry → Memory R → Entry → Type 0
  Stamps Policy.lru m p m' p' =
      (p'.last_access_time ≡ (m.global_timestamp + 1) % 2 ^ 64)
      × (m'.global_timestamp ≡ (m.global_timestamp + 1) % 2 ^ 64)
      × (p'.use_bit ≡ p.use_bit)
  Stamps Policy.clock_m m p m' p' =
      (p'.use_bit ≡ true)
      × (m'.global_timestamp ≡ m.global_timestamp)
      × (p'.last_access_time ≡ p.last_access_time)

  abbrev pub Marked : Policy → Memory R → ℕ → ℕ → Entry → Memory R → Type 0
  Marked policy m i j p m' =
      Stays serves m m'
      × (p' : Entry) × (page m' i j ≡ some p')
      × Same p p'
      × Stamps policy m p m' p'

  module _ (m : Memory R) (s : Sound serves m) (held : HeldBut m none) (i j : ℕ) (p : Entry)
      (h : page m i j ≡ some p) where
    mark_lem :
        (policy : Policy) (now : ℕ) (f : Entry → Entry)
        → Same p (f p)
        → ((entries : List FileTagEntry)
            → Stamps policy m p (record m { global_timestamp = now; entries = entries }) (f p))
        → Ensures
            (λ _. Marked policy m i j p)
            Never
            (then_do
              (on_table i (λ pt. change_entry pt j f) (record m { global_timestamp = now }))
              (λ _. pure tt))
    mark_lem policy now f same stamps =
        let x = beside-Stays m s held now m.last_victim in
        let m' = record m { global_timestamp = now } in
        let (entries, done, r) = on_table-Replaced m' x.sound.valid i j p h f in
        rw done (
          returned tt _ (
            Stays-trans x.keeps (marks-Stays m' x.sound x.held i j p (f p) h same entries r),
            f p,
            r.here,
            same,
            stamps entries,
          ))

    -- On a sound memory where every used frame holds a page, marking the access to a page that an
    -- entry has never fails nor faults under both policies; under LRU the clock of accesses goes
    -- on by one modulo 2 ^ 64 and its time is put on the page, whose use bit stays; under CLOCK-M
    -- the use bit is set, and the time of the page and the clock stay. The page keeps its number,
    -- frame and flags of presence and dirtiness, no content changes, and the memory stays sound.
    pub mm_update_page_access_lem :
        Ensures (λ _. Marked m.policy m i j p) Never (mm_update_page_access i j m)
    unfolding mm_update_page_access
    mm_update_page_access_lem =
        let (e, at, own) = page_entry m i j p h in
        let valid = s.valid.tables i e at in
        rw at (
          if_elim (λ (k : M R (Unit {0})). Ensures (λ _. Marked m.policy m i j p) Never (k m))
            (leb e.page_table.page_count j)
            (λ beyond. absurd (
              omega (
                arith,
                leb→le e.page_table.page_count j beyond,
                lookup_bound e.page_table.entries j own,
                valid.sized,
              )))
            (λ _. by_policy m.policy))
      where
        now : ℕ
        now = (m.global_timestamp + 1) % 2 ^ 64

        by_policy :
            (policy : Policy)
            → Ensures
                (λ _. Marked policy m i j p)
                Never
                (then_do
                  (on_table i
                    (λ pt. change_entry pt j (marked policy now))
                    (elim policy as (λ _. Memory R) [
                      | Policy.lru ↦ record m { global_timestamp = now }
                      | Policy.clock_m ↦ m
                    ]))
                  (λ _. pure tt))
        by_policy Policy.lru =
            mark_lem Policy.lru now (marked Policy.lru now) (marked-Same Policy.lru now p)
              (λ entries. (refl, refl, refl))
        by_policy Policy.clock_m =
            mark_lem Policy.clock_m m.global_timestamp (marked Policy.clock_m now)
              (marked-Same Policy.clock_m now p) (λ entries. (refl, refl, refl))
