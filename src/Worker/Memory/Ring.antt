-- ===== src/Worker/Memory/Ring.antt =====
-- One step of the clock in mm_find_clockm_victim of worker/src/memory/memory_manager.c, where every
-- frame is used and holds a page.
use tp_sistemas_operativos.Base.{
  ℕ, ◌+◌, ◌%◌, ◌≡◌, ◌≢◌, ◌<◌, inl, inr, refl, sym, ap, ◌∙◌, subst, true, false, none, some, List,
  get_elem?,
}
use tp_sistemas_operativos.Worker.PageTable.{Entry}
use tp_sistemas_operativos.Worker.Memory.State.{FileTagEntry, Memory, Storage, gives}
use tp_sistemas_operativos.Worker.Memory.View.{page}
use tp_sistemas_operativos.Worker.Memory.Clock.{next_frame}
use tp_sistemas_operativos.Worker.Memory.Contents.{Serves, Sound, HeldBut, Shrinks, Shrinks-trans}
use tp_sistemas_operativos.Worker.Memory.Held.{mm_find_page_for_frame_lem}
use tp_sistemas_operativos.Worker.Memory.Local.{Local, where_is, local-Sound}
use tp_sistemas_operativos.Worker.Memory.Keeps.{
  Keeps, Keeps-refl, Keeps-trans, local_Keeps, Aside, aside-Sound, aside-Keeps,
}
use tp_sistemas_operativos.Worker.Memory.Replace.{Replaced}
use tp_sistemas_operativos.Worker.Memory.Steps.{still_Local, still_content}

-- A page that is present in the frame, with a property.
abbrev pub Holds : {R : Type 0} → Memory R → ℕ → (Entry → Type 0) → Type 0
Holds m frame S =
    (i : ℕ) × (j : ℕ) × (p : Entry) × (page m i j ≡ some p)
    × (p.present ≡ true)
    × (p.frame ≡ frame)
    × S p

abbrev pub Alike : Entry → Entry → Type 0
Alike p p' =
    (p'.present ≡ p.present)
    × (p'.frame ≡ p.frame)
    × (p'.dirty ≡ p.dirty)
    × (p.use_bit ≡ false → p'.use_bit ≡ false)

-- The pages are as they were, but for their use bits, which are not set.
abbrev pub Steady : {R : Type 0} → Memory R → Memory R → Type 0
Steady m m' =
    (i j : ℕ) (p : Entry)
    → page m i j ≡ some p
    → (p' : Entry) × (page m' i j ≡ some p') × Alike p p'

abbrev pub Used : {R : Type 0} → Memory R → Type 0
Used m = (f : ℕ) → f < m.frame_count → get_elem? m.frames f ≡ some true

module _ {R : Type 0} {storage : Storage R} {page_size : ℕ}
    (serves : Serves storage page_size) where
  pub record Ring (m : Memory R) : Type 0 where
    pub sound : Sound serves m
    pub held : HeldBut m none
    pub full : Used m
    pub some_frame : m.frame_count ≢ 0

  pub record Turned (m m' : Memory R) : Type 0 where
    pub ring : Ring m'
    pub keeps : Keeps serves m m'
    pub steady : Steady m m'
    pub shrinks : Shrinks m m'
    pub count : m'.frame_count ≡ m.frame_count

  pub Turned-refl : (m : Memory R) → Ring m → Turned m m
  Turned-refl m r = record {
    ring = r;
    keeps = Keeps-refl serves m;
    steady = λ i j p h. (p, h, (refl, refl, refl, λ u. u));
    shrinks = λ i j p h a. (p, h, a);
    count = refl;
  }

  pub Turned-trans : {m₁ m₂ m₃ : Memory R} → Turned m₁ m₂ → Turned m₂ m₃ → Turned m₁ m₃
  Turned-trans {m₁} {m₂} {m₃} a b = record {
    shrinks = Shrinks-trans m₁ m₂ m₃ a.shrinks b.shrinks;
    ring = b.ring;
    keeps = Keeps-trans serves a.keeps b.keeps;
    steady = λ i j p h.
        let (q, h', (x, y, z, w)) = a.steady i j p h in
        let (r, h'', (x', y', z', w')) = b.steady i j q h' in
        (r, h'', (x' ∙ x, y' ∙ y, z' ∙ z, λ u. w' (w u)));
    count = b.count ∙ a.count;
  }

  -- A property of the page in a frame that no turn takes away.
  pub steady_Holds :
      (m m' : Memory R) {S : Entry → Type 0}
      → Steady m m'
      → ((p p' : Entry) → Alike p p' → S p → S p')
      → (frame : ℕ) → Holds m frame S
      → Holds m' frame S
  steady_Holds m m' steady keep frame (i, j, p, h, a, f, x) =
      let (q, h', (a', f', d', u')) = steady i j p h in
      (i, j, q, h', a' ∙ a, f' ∙ f, keep p q (a', f', d', u') x)

  -- A frame holds one page at most.
  pub one_page :
      {m : Memory R} {S : Entry → Type 0}
      → Sound serves m
      → (frame : ℕ) → Holds m frame S
      → (i j : ℕ) (p : Entry) → page m i j ≡ some p
      → p.present ≡ true
      → p.frame ≡ frame
      → S p
  one_page {m} {S} s frame (k, l, q, h', a', f', x) i j p h a f =
      let (u, v) = s.valid.alone k l i j q p h' h a' a (f' ∙ sym f) in
      let same : q ≡ p = cc (h', h, u, v) in subst S same x

  module _ (m : Memory R) (r : Ring m) where
    pub ring_bound : m.clock_pointer < m.frame_count
    ring_bound = r.sound.valid.pointed r.some_frame

    -- The pointer is moved.
    module _ (c : ℕ) (h : c < m.frame_count) where
      abbrev pub moved : Memory R
      moved = record m { clock_pointer = c }

      beside : Aside serves m m.physical_memory m.frames m.remote c m.global_timestamp m.last_victim
      beside = record {
        used = r.sound.valid.resident;
        bytes = λ k l q e a. refl;
        blocks = λ n j. refl;
        length_memory = refl;
        length_frames = refl;
        pointed = λ _. h;
      }

      pub moved-Turned : Turned m moved
      moved-Turned = record {
        ring = record {
          sound =
              aside-Sound serves m m.physical_memory m.frames m.remote c m.global_timestamp
                m.last_victim r.sound beside;
          held = r.held;
          full = r.full;
          some_frame = r.some_frame;
        };
        keeps =
            aside-Keeps serves m m.physical_memory m.frames m.remote c m.global_timestamp
              m.last_victim r.sound beside;
        steady = λ i j p e. (p, e, (refl, refl, refl, λ u. u));
        shrinks = λ i j p h a. (p, h, a);
        count = refl;
      }

    -- Under the pointer is a page, and the pointer goes on.
    pub next_frame_lem :
        (i : ℕ) × (j : ℕ) × (p : Entry) × (next_frame m
          ≡ gives
              (m.clock_pointer, some (i, j))
              (record m { clock_pointer = (m.clock_pointer + 1) % m.frame_count }))
        × (page m i j ≡ some p)
        × (p.present ≡ true)
        × (p.frame ≡ m.clock_pointer)
    unfolding next_frame
    next_frame_lem =
        let used = r.full m.clock_pointer ring_bound in
        let (i, j, p, found, h, (a, f)) =
          mm_find_page_for_frame_lem m m.clock_pointer
            (r.held m.clock_pointer used (λ e. absurd (cc e))) in
        (i, j, p, simp (used, found) refl, h, a, f)

    -- The use bit of a page is cleared.
    module _ (i j : ℕ) (p : Entry) (h : page m i j ≡ some p) (entries : List FileTagEntry)
        (x : Replaced m i j (record p { use_bit = false }) entries) where
      cleared : Local serves m (record m { entries = entries }) i j (record p { use_bit = false })
      cleared =
          still_Local m r.sound i j p h (record p { use_bit = false }) entries x refl refl refl
            (λ a d. r.sound.clean i j p h a d)

      Steady-cleared : Steady m (record m { entries = entries })
      Steady-cleared k l q e = elim (where_is i j k l) [
        | inl (a, b) ↦
            let same : p ≡ q = cc (e, h, a, b) in
            (
              record p { use_bit = false },
              cc (a, b, x.here),
              (ap (λ p. p.present) same, ap (λ p. p.frame) same, ap (λ p. p.dirty) same, λ _. refl),
            )
        | inr away ↦ (q, x.elsewhere k l away ∙ e, (refl, refl, refl, λ u. u))
      ]

      held_cleared : HeldBut (record m { entries = entries }) none
      held_cleared f u e =
          let (k, l, q, h', a, g) = r.held f u e in
          let (q', h'', (a', g', _, _)) = Steady-cleared k l q h' in (k, l, q', h'', a' ∙ a, g' ∙ g)

      pub cleared-Turned : Turned m (record m { entries = entries })
      cleared-Turned = record {
        ring = record {
          sound = local-Sound serves r.sound cleared;
          held = held_cleared;
          full = r.full;
          some_frame = r.some_frame;
        };
        keeps =
            local_Keeps serves r.sound cleared
              (still_content m r.sound i j p h (record p { use_bit = false }) entries x refl refl);
        steady = Steady-cleared;
        shrinks = λ k l q e a. elim (where_is i j k l) [
          | inl (u, v) ↦ (p, cc (h, u, v), cc (e, u, v, x.here, a))
          | inr away ↦ (q, sym (x.elsewhere k l away) ∙ e, a)
        ];
        count = refl;
      }
