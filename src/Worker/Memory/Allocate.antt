-- ===== src/Worker/Memory/Allocate.antt =====
-- mm_allocate_frame of worker/src/memory/memory_manager.c.
use tp_sistemas_operativos.Base.{
  ℕ, zero, suc, ◌+◌, ◌≡◌, ◌≢◌, ◌⊎◌, inl, inr, refl, sym, ap, ◌∙◌, Bool, true, false, Option, none,
  some, List, [], ◌∷◌, length, get_elem?, set, ◌==◌, ==_iff, Bool-cases, arith, lookup_bound,
  lookup_lt, lookup-set, length-set, if◌then◌else◌,
}
use tp_sistemas_operativos.Worker.Memory.State.{Memory, Storage, Policy, Outcome, gives, then_do}
use tp_sistemas_operativos.Worker.Memory.View.{Unheld}
use tp_sistemas_operativos.Worker.Memory.Frames.{use_frame, free_frame}
use tp_sistemas_operativos.Worker.Memory.Lru.{mm_find_lru_victim}
use tp_sistemas_operativos.Worker.Memory.Clock.{mm_find_clockm_victim}
use tp_sistemas_operativos.Worker.Memory.Access.{mm_allocate_frame}
use tp_sistemas_operativos.Worker.Memory.Outcomes.{Ensures, returned, then-Ensures}
use tp_sistemas_operativos.Worker.Memory.Contents.{Serves, Sound, HeldBut, Shrinks}
use tp_sistemas_operativos.Worker.Memory.Keeps.{
  Keeps, Keeps-refl, Keeps-trans, Aside, aside-Sound, aside-Keeps,
}
use tp_sistemas_operativos.Worker.Memory.Evict.{Freed, Stays}
use tp_sistemas_operativos.Worker.Memory.Choice.{mm_find_lru_victim-Freed}
use tp_sistemas_operativos.Worker.Memory.Ring.{Used}
use tp_sistemas_operativos.Worker.Memory.Rounds.{mm_find_clockm_victim-Frees}

free_frame_lem :
    (i : ℕ) (fs : List Bool)
    → ((free_frame i fs ≡ none) × ((l : ℕ) (b : Bool) → get_elem? fs l ≡ some b → b ≡ true))
      ⊎ ((l : ℕ) × (free_frame i fs ≡ some (i + l)) × (get_elem? fs l ≡ some false))
unfolding free_frame
free_frame_lem i [] = inl (refl, λ l b h. absurd (cc h))
free_frame_lem i (false ∷ fs) = inr (0, ap some (omega arith), refl)
free_frame_lem i (true ∷ fs) = elim (free_frame_lem (i + 1) fs) [
  | inl (miss, others) ↦ inl (miss, all others)
  | inr (l, found, free) ↦ inr (suc l, found ∙ ap some (omega arith), free)
]
  where
    all :
        ((l : ℕ) (b : Bool) → get_elem? fs l ≡ some b → b ≡ true)
        → (l : ℕ) (b : Bool) → get_elem? (true ∷ fs) l ≡ some b
        → b ≡ true
    all others zero b h = ground (arith, h)
    all others (suc l) b h = others l b h

-- When no frame is found free, all of them are used.
free_frame-Used :
    {R : Type 0} (m : Memory R)
    → length m.frames ≡ m.frame_count
    → ((l : ℕ) (b : Bool) → get_elem? m.frames l ≡ some b → b ≡ true)
    → Used m
free_frame-Used m sized all f h =
    let (b, at) = lookup_lt m.frames f (omega (arith, sized)) in at ∙ ap some (all f b at)

module _ {R : Type 0} {storage : Storage R} {page_size : ℕ}
    (serves : Serves storage page_size) where
  -- What an allocation leaves: frame f is used and holds no page, the only such frame.
  pub record Lent (m : Memory R) (f : ℕ) (m' : Memory R) : Type 0 where
    pub sound : Sound serves m'
    pub keeps : Keeps serves m m'
    pub held : HeldBut m' (some f)
    pub unheld : Unheld m' f
    pub used : get_elem? m'.frames f ≡ some true
    pub shrinks : Shrinks m m'

  -- A frame that is free and holds no page is lent.
  lend : (m m' : Memory R) (f : ℕ) → Freed serves m f m' → Lent m f (use_frame f true m')
  lend m m' f freed = record {
    sound =
        aside-Sound serves m' m'.physical_memory _ m'.remote m'.clock_pointer m'.global_timestamp
          m'.last_victim freed.sound beside;
    keeps = Keeps-trans serves freed.keeps (
        aside-Keeps serves m' m'.physical_memory _ m'.remote m'.clock_pointer m'.global_timestamp
          m'.last_victim freed.sound beside);
    held = λ g u other. freed.held g (was g u other) (λ e. absurd (cc e));
    unheld = freed.unheld;
    used = ground (arith, lookup f);
    shrinks = freed.shrinks;
  }
    where
      lookup :
          (g : ℕ)
          → get_elem? (set m'.frames f true) g
            ≡ (if g == f then some true else get_elem? m'.frames g)
      lookup g = lookup-set m'.frames f g true (lookup_bound m'.frames f freed.unused)

      was :
          (g : ℕ)
          → get_elem? (set m'.frames f true) g ≡ some true
          → some f ≢ some g
          → get_elem? m'.frames g ≡ some true
      was g u other = elim (Bool-cases (g == f)) [
        | inl e ↦ absurd (other (ap some (sym ((==_iff g f).0 e))))
        | inr e ↦ ground (arith, lookup g, u, e)
      ]

      beside :
          Aside serves m' m'.physical_memory
            (set m'.frames f true)
            m'.remote
            m'.clock_pointer
            m'.global_timestamp
            m'.last_victim
      beside = record {
        used = λ k l q e a.
            let before = freed.sound.valid.resident k l q e a in
            let other : q.frame ≢ f = λ same. freed.unheld k l q e a same in
            ground (arith, lookup q.frame, before, other);
        bytes = λ k l q e a. refl;
        blocks = λ n j. refl;
        length_memory = refl;
        length_frames = length-set m'.frames f true;
        pointed = freed.sound.valid.pointed;
      }

  module _ (m : Memory R) (s : Sound serves m) (held : HeldBut m none) where
    -- A frame that is not used is free.
    free-Freed : (f : ℕ) → get_elem? m.frames f ≡ some false → Freed serves m f m
    free-Freed f free = record {
      sound = s;
      keeps = Keeps-refl serves m;
      held = held;
      unheld = λ k l q e a same.
          let used = s.valid.resident k l q e a in
          absurd (cc (used, free, ap (get_elem? m.frames) same));
      unused = free;
      shrinks = λ k l q e a. (q, e, a);
    }

    abbrev pub Lends : Outcome R ℕ → Type 0
    Lends o = Ensures (λ f m'. Lent m f m') (Stays serves m) o

    lending :
        {o : Outcome R ℕ}
        → Ensures (λ f m'. Freed serves m f m') (Stays serves m) o
        → Lends (then_do o (λ frame m'. gives frame (use_frame frame true m')))
    lending e = then-Ensures e (λ f m' freed. returned f (use_frame f true m') (lend m m' f freed))

    -- On a sound memory where every used frame holds a page, over a storage that keeps its
    -- blocks, the allocation of a frame ends without a fault under both policies: it either gives
    -- a frame that is used and holds no page, the only such frame, or fails; no content changes
    -- and the memory stays sound.
    pub mm_allocate_frame-Lends : Lends (mm_allocate_frame storage m)
    unfolding mm_allocate_frame
    mm_allocate_frame-Lends = by_free (free_frame 0 m.frames) none_free found_free
      where
        by_policy :
            (policy : Policy)
            → Used m
            → Lends (elim policy [
              | Policy.lru ↦
                  then_do
                    (mm_find_lru_victim storage m)
                    (λ frame m. gives frame (use_frame frame true m))
              | Policy.clock_m ↦
                  then_do
                    (mm_find_clockm_victim storage m)
                    (λ frame m. gives frame (use_frame frame true m))
            ])
        by_policy Policy.lru full = lending (mm_find_lru_victim-Freed serves m s held)
        by_policy Policy.clock_m full = lending (mm_find_clockm_victim-Frees serves m s held full)

        by_free :
            (o : Option ℕ)
            → (o ≡ none → Used m)
            → ((f : ℕ) → o ≡ some f → get_elem? m.frames f ≡ some false)
            → Lends (elim o [
              | some frame ↦ gives frame (use_frame frame true m)
              | none ↦ elim m.policy [
                | Policy.lru ↦
                    then_do
                      (mm_find_lru_victim storage m)
                      (λ frame m. gives frame (use_frame frame true m))
                | Policy.clock_m ↦
                    then_do
                      (mm_find_clockm_victim storage m)
                      (λ frame m. gives frame (use_frame frame true m))
              ]
            ])
        by_free (some f) full free =
            returned f (use_frame f true m) (lend m m f (free-Freed f (free f refl)))
        by_free none full free = by_policy m.policy (full refl)

        none_free : free_frame 0 m.frames ≡ none → Used m
        none_free e = elim (free_frame_lem 0 m.frames) [
          | inl (_, all) ↦ free_frame-Used m s.valid.sized all
          | inr (l, found, _) ↦ absurd (cc (e, found))
        ]

        found_free : (f : ℕ) → free_frame 0 m.frames ≡ some f → get_elem? m.frames f ≡ some false
        found_free f e = elim (free_frame_lem 0 m.frames) [
          | inl (miss, _) ↦ absurd (cc (e, miss))
          | inr (l, found, free) ↦
              let at : l ≡ f = ground (arith, e, found) in sym (ap (get_elem? m.frames) at) ∙ free
        ]
