-- ===== src/Worker/Memory/Rounds.antt =====
-- The rounds of mm_find_clockm_victim in worker/src/memory/memory_manager.c, and why `while (1)` ends.
use tp_sistemas_operativos.Base.{
  ℕ, suc, ◌+◌, ◌%◌, ◌≡◌, ◌≢◌, inl, inr, refl, sym, ap, ◌∙◌, subst, Option, none, some, ◌==◌,
  Bool-cases, arith, if_elim, if◌then◌else◌,
}
use native.Mathlib.Nat.{mod-lt}
use tp_sistemas_operativos.Worker.PageTable.{Entry}
use tp_sistemas_operativos.Worker.Memory.State.{
  Memory, Storage, Policy, Outcome, M, gives, fails, then_do,
}
use tp_sistemas_operativos.Worker.Memory.Clock.{
  pass_two, replace_dirty, clock_rounds, mm_find_clockm_victim, clock_fuel,
}
use tp_sistemas_operativos.Worker.Memory.Outcomes.{Ensures, returned, refused, weaken, then-Ensures}
use tp_sistemas_operativos.Worker.Memory.Contents.{Serves, Sound, HeldBut}
use tp_sistemas_operativos.Worker.Memory.Keeps.{Keeps-trans, Aside, aside-Sound, aside-Keeps}
use tp_sistemas_operativos.Worker.Memory.Evict.{Freed, Stays, Freed-trans, stays, evict_dirty}
use tp_sistemas_operativos.Worker.Memory.Ring.{
  Holds, Used, Ring, Turned, Turned-trans, steady_Holds,
}
use tp_sistemas_operativos.Worker.Memory.Passes.{
  PassOne, one_found, one_missed, PassTwo, onwards, Unused, Clean, Waiting, onwards_round,
  Stays-Turned, pass_one_lem, Ready, pass_two_lem,
}

module _ {R : Type 0} {storage : Storage R} {page_size : ℕ}
    (serves : Serves storage page_size) where
  -- The frame of a page that is ready is freed, after a write.
  pub replace_dirty_lem :
      (m : Memory R)
      → Ring serves m
      → (f i j : ℕ) → Ready serves m (f, (i, j))
      → Ensures (λ g m'. Freed serves m g m') (Stays serves m) (replace_dirty storage f i j m)
  unfolding replace_dirty
  replace_dirty_lem m r f i j (p, h, a, at, d) =
      subst
        (λ g.
          Ensures (λ g m'. Freed serves m g m') (Stays serves m) (replace_dirty storage g i j m))
        at
        (evict_dirty serves m r.sound r.held i j p h a _
          (λ m' freed. returned p.frame _ (pointed m' freed)) d)
    where
      pointed :
          (m' : Memory R)
          → Freed serves m p.frame m'
          → Freed serves m p.frame (record m' { clock_pointer = (p.frame + 1) % m'.frame_count })
      pointed m' freed = record {
        sound =
            aside-Sound serves m' m'.physical_memory m'.frames m'.remote _ m'.global_timestamp
              m'.last_victim freed.sound beside;
        keeps = Keeps-trans serves freed.keeps (
            aside-Keeps serves m' m'.physical_memory m'.frames m'.remote _ m'.global_timestamp
              m'.last_victim freed.sound beside);
        held = freed.held;
        unheld = freed.unheld;
        unused = freed.unused;
        shrinks = freed.shrinks;
      }
        where
          beside :
              Aside serves m' m'.physical_memory m'.frames m'.remote
                ((p.frame + 1) % m'.frame_count)
                m'.global_timestamp
                m'.last_victim
          beside = record {
            used = freed.sound.valid.resident;
            bytes = λ k l q e b. refl;
            blocks = λ n l. refl;
            length_memory = refl;
            length_frames = refl;
            pointed = λ some_frame. mod-lt (p.frame + 1) (omega (arith, some_frame));
          }

  abbrev pub Frees : Memory R → Outcome R ℕ → Type 0
  Frees m o = Ensures (λ g m'. Freed serves m g m') (Stays serves m) o

  -- The ends of the two passes.
  abbrev after_two : ℕ → Option (ℕ × (ℕ × ℕ)) → M R ℕ
  after_two fuel dirty = elim dirty [
    | some (frame, (i, j)) ↦ replace_dirty storage frame i j
    | none ↦ clock_rounds storage fuel
  ]

  abbrev after_one : ℕ → ℕ → Option ℕ → M R ℕ
  after_one fuel n clean = elim clean [
    | some frame ↦ λ m. gives frame m
    | none ↦ λ m. then_do (pass_two storage n none m) (after_two fuel)
  ]

  Frees-Turned : {m m' : Memory R} {o : Outcome R ℕ} → Turned serves m m' → Frees m' o → Frees m o
  Frees-Turned t e =
      weaken e (λ g x f. Freed-trans serves t.keeps t.shrinks f) (λ x s. Stays-Turned serves t s)

  -- A candidate that is ready is replaced; without one another round follows.
  after_two_lem :
      (fuel : ℕ) (m : Memory R) (x : Option (ℕ × (ℕ × ℕ)))
      → Ring serves m
      → ((y : ℕ × (ℕ × ℕ)) → x ≡ some y → Ready serves m y)
      → (x ≡ none → Frees m (clock_rounds storage fuel m))
      → Frees m (after_two fuel x m)
  after_two_lem fuel m (some (f, (i, j))) r ready again =
      replace_dirty_lem m r f i j (ready (f, (i, j)) refl)
  after_two_lem fuel m none r ready again = again refl

  -- A round where the first pass leaves `m'`.
  after_one_lem :
      (fuel n : ℕ) (m m' : Memory R) (x : Option ℕ)
      → PassOne serves m n x m'
      → (Turned serves m m'
          → m'.clock_pointer ≡ onwards m n
          → (n ≢ 0 → ¬ Holds m m.clock_pointer Clean)
          → (y : Option (ℕ × (ℕ × ℕ))) (m'' : Memory R) → PassTwo serves m' n none y m''
          → y ≡ none
          → Frees m'' (clock_rounds storage fuel m''))
      → Frees m (after_one fuel n x m')
  after_one_lem fuel n m _ _ (one_found f m' freed) again = returned f m' freed
  after_one_lem fuel n m _ _ (one_missed m' t far dull) again =
      then-Ensures
        (weaken (pass_two_lem serves n m' none t.ring (λ x e. absurd (cc e))) (λ y m'' two. two)
          (λ m'' s. Stays-Turned serves t s))
        (λ y m'' two.
          let t' = Turned-trans serves t two.turned in
          Frees-Turned t' (after_two_lem fuel m'' y t'.ring two.ready (again t far dull y m'' two)))

  waiting : (p : Entry) → ¬ Clean p → Unused p → Waiting p
  waiting p dull unused = elim (Bool-cases p.dirty) [
    | inl d ↦ (unused, d)
    | inr d ↦ absurd (dull (unused, d))
  ]

  -- When the page under the pointer is not used, a round frees a frame.
  last_round :
      (fuel : ℕ) (m : Memory R)
      → Ring serves m
      → Holds m m.clock_pointer Unused
      → Frees m (clock_rounds storage (suc fuel) m)
  unfolding clock_rounds
  last_round fuel m r (i, j, p, h, a, f, unused) =
      then-Ensures (pass_one_lem serves m.frame_count m r) λ x m' one.
        after_one_lem fuel m.frame_count m m' x one λ t far dull y m'' two e.
          let same : m'.clock_pointer ≡ m.clock_pointer = far ∙ onwards_round serves m r in
          let lean : Waiting p = waiting p (λ c. dull r.some_frame (i, j, p, h, a, f, c)) unused in
          let there : Holds m' m'.clock_pointer Waiting =
            subst (λ c. Holds m' c Waiting) (sym same)
              (steady_Holds serves m m' t.steady (λ p p' (_, _, d, u) (u', d'). (u u', d ∙ d'))
                m.clock_pointer (i, j, p, h, a, f, lean)) in
          absurd (two.first_waiting r.some_frame there e)

  -- A first round that frees none leaves the page under the pointer not used, so that two rounds
  -- are enough.
  pub two_rounds : (m : Memory R) → Ring serves m → Frees m (clock_rounds storage clock_fuel m)
  unfolding clock_rounds
  two_rounds m r = then-Ensures (pass_one_lem serves m.frame_count m r) λ x m' one.
      after_one_lem 1 m.frame_count m m' x one λ t far dull y m'' two e.
        let same : m'.clock_pointer ≡ m.clock_pointer = far ∙ onwards_round serves m r in
        let back : m''.clock_pointer ≡ m'.clock_pointer =
          two.far ∙ ap (onwards m') (sym t.count) ∙ onwards_round serves m' t.ring in
        last_round 0 m'' two.turned.ring
          (subst (λ c. Holds m'' c Unused) (sym back) (two.first_unused r.some_frame))

  -- On a sound memory where every frame is used and holds a page, over a storage that keeps its
  -- blocks, the CLOCK-M replacement ends within two rounds without a fault: it either frees a
  -- frame that then holds no page, or fails; no content changes.
  pub mm_find_clockm_victim-Frees :
      (m : Memory R)
      → Sound serves m
      → HeldBut m none
      → Used m
      → Frees m (mm_find_clockm_victim storage m)
  unfolding mm_find_clockm_victim
  mm_find_clockm_victim-Frees m s held full = by_policy m.policy
    where
      by_policy :
          (policy : Policy)
          → Frees m (elim policy [
            | Policy.lru ↦ fails m
            | Policy.clock_m ↦
                if m.frame_count == 0 then fails m else clock_rounds storage clock_fuel m
          ])
      by_policy Policy.lru = refused m (stays serves m s held)
      by_policy Policy.clock_m =
          if_elim (λ o. Frees m o) (m.frame_count == 0) (λ _. refused m (stays serves m s held))
            (λ n. two_rounds m (record {
              sound = s;
              held = held;
              full = full;
              some_frame = λ e. ground (arith, n, e);
            }))
