-- ===== src/Worker/Memory/Passes.antt =====
-- The two passes of a round of mm_find_clockm_victim in worker/src/memory/memory_manager.c.
use tp_sistemas_operativos.Base.{
  ℕ, zero, suc, ◌+◌, ◌%◌, ◌≡◌, ◌≢◌, ◌<◌, inl, inr, refl, sym, ap, ◌∙◌, subst, true, false, not,
  ◌&&◌, Option, none, some, Bool-cases, arith, if_elim, if◌then◌else◌,
}
use native.Mathlib.Nat.{mod-lt, mod-add-mod, add-mod_right, mod-eq_of_lt}
use tp_sistemas_operativos.Worker.PageTable.{Entry}
use tp_sistemas_operativos.Worker.Memory.State.{
  Memory, Storage, Outcome, M, gives, then_do, page_at,
}
use tp_sistemas_operativos.Worker.Memory.View.{page}
use tp_sistemas_operativos.Worker.Memory.Frames.{release_page}
use tp_sistemas_operativos.Worker.Memory.Clock.{pass_one, pass_two}
use tp_sistemas_operativos.Worker.Memory.Outcomes.{Ensures, returned, weaken}
use tp_sistemas_operativos.Worker.Memory.Contents.{Serves}
use tp_sistemas_operativos.Worker.Memory.Keeps.{Keeps-trans}
use tp_sistemas_operativos.Worker.Memory.Replace.{on_table-Replaced, page_entry}
use tp_sistemas_operativos.Worker.Memory.Evict.{Freed, Stays, Freed-trans, evict_clean}
use tp_sistemas_operativos.Worker.Memory.Ring.{
  Holds, Ring, Turned, Turned-refl, Turned-trans, steady_Holds, one_page, ring_bound, moved-Turned,
  next_frame_lem, cleared-Turned,
}

-- n frames further on the clock.
abbrev pub onwards : {R : Type 0} → Memory R → ℕ → ℕ
onwards m n = (m.clock_pointer + n) % m.frame_count

pub page_at_lem :
    {R : Type 0} (m : Memory R) (i j : ℕ) (p : Entry)
    → page m i j ≡ some p
    → page_at i j m ≡ gives p m
unfolding page_at
page_at_lem m i j p h = let (e, at, own) = page_entry m i j p h in rw (at, own) refl

abbrev pub Unused : Entry → Type 0
Unused p = p.use_bit ≡ false

abbrev pub Clean : Entry → Type 0
Clean p = (p.use_bit ≡ false) × (p.dirty ≡ false)

abbrev pub Waiting : Entry → Type 0
Waiting p = (p.use_bit ≡ false) × (p.dirty ≡ true)

module _ {R : Type 0} {storage : Storage R} {page_size : ℕ}
    (serves : Serves storage page_size) where
  -- What the first pass leaves.
  pub data PassOne (m : Memory R) (n : ℕ) : Option ℕ → Memory R → Type 0 where
    one_found : (f : ℕ) (m' : Memory R) → Freed serves m f m' → PassOne m n (some f) m'
    one_missed :
        (m' : Memory R)
        → Turned serves m m'
        → m'.clock_pointer ≡ onwards m n
        → (n ≢ 0 → ¬ Holds m m.clock_pointer Clean)
        → PassOne m n none m'

  onwards-suc :
      (m m' : Memory R) (n c : ℕ)
      → m'.frame_count ≡ m.frame_count
      → m'.clock_pointer ≡ onwards m 1
      → c ≡ onwards m' n
      → c ≡ onwards m (suc n)
  onwards-suc m m' n c count step far =
      far
      ∙ rw (count, step)
          (mod-add-mod (m.clock_pointer + 1) m.frame_count n
            ∙ ap (λ k. k % m.frame_count) (omega arith))

  onwards_zero : (m : Memory R) → Ring serves m → m.clock_pointer ≡ onwards m 0
  onwards_zero m r =
      let start : m.clock_pointer ≡ m.clock_pointer + 0 = omega arith in
      sym (ap (λ k. k % m.frame_count) (sym start) ∙ mod-eq_of_lt (ring_bound serves m r))

  pub onwards_round : (m : Memory R) → Ring serves m → onwards m m.frame_count ≡ m.clock_pointer
  onwards_round m r =
      add-mod_right m.clock_pointer m.frame_count ∙ mod-eq_of_lt (ring_bound serves m r)

  next_bound : (m : Memory R) → Ring serves m → onwards m 1 < m.frame_count
  next_bound m r = mod-lt (m.clock_pointer + 1) (omega (arith, ring_bound serves m r))

  pub Stays-Turned :
      {m m' : Memory R} → Turned serves m m' → {x : Memory R} → Stays serves m' x → Stays serves m x
  Stays-Turned t s = record {
    sound = s.sound;
    keeps = Keeps-trans serves t.keeps s.keeps;
    held = s.held;
  }

  -- After a step that moves the pointer by one, the rest of the first pass.
  then_one :
      (m m' : Memory R) (n : ℕ)
      → Turned serves m m'
      → m'.clock_pointer ≡ onwards m 1
      → ¬ Holds m m.clock_pointer Clean
      → {o : Outcome R (Option ℕ)} → Ensures (PassOne m' n) (Stays serves m') o
      → Ensures (PassOne m (suc n)) (Stays serves m) o
  then_one m m' n t step dull e = weaken e later (λ x s. Stays-Turned t s)
    where
      later : (r : Option ℕ) (x : Memory R) → PassOne m' n r x → PassOne m (suc n) r x
      later _ _ (one_found f x f') = one_found f x (Freed-trans serves t.keeps t.shrinks f')
      later _ _ (one_missed x t' far _) =
          one_missed x (Turned-trans serves t t')
            (onwards-suc m m' n x.clock_pointer t.count step far) (λ _. dull)

  pub pass_one_lem :
      (n : ℕ) (m : Memory R)
      → Ring serves m
      → Ensures (PassOne m n) (Stays serves m) (pass_one storage n m)
  unfolding pass_one
  pass_one_lem zero m r =
      returned none m
        (one_missed m (Turned-refl serves m r) (onwards_zero m r) (λ z. absurd (z refl)))
  pass_one_lem (suc n) m r =
      let (i, j, p, next, h, a, f) = next_frame_lem serves m r in
      let m' = record m { clock_pointer = (m.clock_pointer + 1) % m.frame_count } in
      let t = moved-Turned serves m r (onwards m 1) (next_bound m r) in
      let rest = pass_one_lem n m' t.ring in
      rw (next, page_at_lem m' i j p h)
        (if_elim (λ (k : M R (Option ℕ)). Ensures (PassOne m (suc n)) (Stays serves m) (k m'))
          (not p.use_bit && not p.dirty)
          (λ free.
            weaken
              (subst
                (λ g.
                  Ensures (PassOne m (suc n)) (Stays serves m')
                    (then_do (release_page storage i j g m') (λ _. gives (some g))))
                f
                (evict_clean serves m' t.ring.sound t.ring.held i j p h a
                  (λ _. gives (some p.frame))
                  (λ x freed.
                    returned (some p.frame) x
                      (one_found p.frame x (Freed-trans serves t.keeps t.shrinks freed)))
                  (ground (arith, free))))
              (λ _ x k. k) (λ x s. Stays-Turned t s))
          (λ busy.
            then_one m m' n t refl
              (λ clean. dull p busy (one_page serves r.sound m.clock_pointer clean i j p h a f))
              rest))
    where
      dull : (p : Entry) → (not p.use_bit && not p.dirty) ≡ false → ¬ Clean p
      dull p busy (unused, clean) = ground (arith, busy, unused, clean)

  -- A page to be written, in its frame.
  abbrev pub Ready : Memory R → ℕ × (ℕ × ℕ) → Type 0
  Ready m x =
      (p : Entry) × (page m x.1.0 x.1.1 ≡ some p)
      × (p.present ≡ true)
      × (p.frame ≡ x.0)
      × (p.dirty ≡ true)

  -- What the second pass leaves: the pointer n frames further, a candidate that is ready, and one
  -- for sure if there was one or the first page waits to be written; the first page is not used.
  pub record PassTwo (m : Memory R) (n : ℕ) (before : Option (ℕ × (ℕ × ℕ)))
      (after : Option (ℕ × (ℕ × ℕ))) (m' : Memory R) : Type 0 where
    pub turned : Turned serves m m'
    pub far : m'.clock_pointer ≡ onwards m n
    pub ready : (x : ℕ × (ℕ × ℕ)) → after ≡ some x → Ready m' x
    pub kept : before ≢ none → after ≢ none
    pub first_waiting : n ≢ 0 → Holds m m.clock_pointer Waiting → after ≢ none
    pub first_unused : n ≢ 0 → Holds m' m.clock_pointer Unused

  Ready-steady : {m m' : Memory R} → Turned serves m m' → (x : ℕ × (ℕ × ℕ)) → Ready m x → Ready m' x
  Ready-steady t x (p, h, a, f, d) =
      let (p', h', (a', f', d', _)) = t.steady x.1.0 x.1.1 p h in (p', h', a' ∙ a, f' ∙ f, d' ∙ d)

  -- The candidate after a page.
  abbrev pick : Option (ℕ × (ℕ × ℕ)) → ℕ → ℕ → ℕ → Entry → Option (ℕ × (ℕ × ℕ))
  pick candidate frame i j p = elim candidate [
    | some c ↦ some c
    | none ↦ if not p.use_bit && p.dirty then some (frame, (i, j)) else none
  ]

  pick-Ready :
      (m : Memory R) (candidate : Option (ℕ × (ℕ × ℕ))) (frame i j : ℕ) (p : Entry)
      → ((x : ℕ × (ℕ × ℕ)) → candidate ≡ some x → Ready m x)
      → page m i j ≡ some p
      → p.present ≡ true
      → p.frame ≡ frame
      → (x : ℕ × (ℕ × ℕ)) → pick candidate frame i j p ≡ some x
      → Ready m x
  pick-Ready m (some c) frame i j p ready h a f x e = ready x e
  pick-Ready m none frame i j p ready h a f x e = elim (Bool-cases (not p.use_bit && p.dirty)) [
    | inl b ↦
        let it : (frame, (i, j)) ≡ x = ground (arith, e, b) in
        subst (Ready m) it (p, h, a, f, ground (arith, b))
    | inr b ↦ absurd (ground (arith, e, b))
  ]

  pick_kept :
      (candidate : Option (ℕ × (ℕ × ℕ))) (frame i j : ℕ) (p : Entry)
      → candidate ≢ none
      → pick candidate frame i j p ≢ none
  pick_kept (some c) frame i j p k e = absurd (cc e)
  pick_kept none frame i j p k e = absurd (k refl)

  pick-Waiting :
      (candidate : Option (ℕ × (ℕ × ℕ))) (frame i j : ℕ) (p : Entry)
      → Waiting p
      → pick candidate frame i j p ≢ none
  pick-Waiting (some c) frame i j p w e = absurd (cc e)
  pick-Waiting none frame i j p (u, d) e = ground (arith, u, d, e)

  pub pass_two_lem :
      (n : ℕ) (m : Memory R) (candidate : Option (ℕ × (ℕ × ℕ)))
      → Ring serves m
      → ((x : ℕ × (ℕ × ℕ)) → candidate ≡ some x → Ready m x)
      → Ensures (PassTwo m n candidate) (Stays serves m) (pass_two storage n candidate m)
  unfolding pass_two
  pass_two_lem zero m candidate r ready = returned candidate m (record {
    turned = Turned-refl serves m r;
    far = onwards_zero m r;
    ready = ready;
    kept = λ k. k;
    first_waiting = λ z. absurd (z refl);
    first_unused = λ z. absurd (z refl);
  })
  pass_two_lem (suc n) m candidate r ready =
      let (i, j, p, next, h, a, f) = next_frame_lem serves m r in
      let m₁ = record m { clock_pointer = onwards m 1 } in
      let t₁ = moved-Turned serves m r (onwards m 1) (next_bound m r) in
      let (entries, done, x) =
        on_table-Replaced m₁ t₁.ring.sound.valid i j p h (λ p. record p { use_bit = false }) in
      let m₂ = record m₁ { entries = entries } in
      let t₂ = cleared-Turned serves m₁ t₁.ring i j p h entries x in
      let t = Turned-trans serves t₁ t₂ in
      let ready' : (y : ℕ × (ℕ × ℕ)) → pick candidate m.clock_pointer i j p ≡ some y → Ready m₂ y =
        λ y e. Ready-steady t y (pick-Ready m candidate m.clock_pointer i j p ready h a f y e) in
      let rest = pass_two_lem n m₂ (pick candidate m.clock_pointer i j p) t.ring ready' in
      rw (next, page_at_lem m₁ i j p h, done)
        (weaken rest
          (λ after m' two. record {
            turned = Turned-trans serves t two.turned;
            far = onwards-suc m m₂ n m'.clock_pointer refl refl two.far;
            ready = two.ready;
            kept = λ k. two.kept (pick_kept candidate m.clock_pointer i j p k);
            first_waiting = λ _ w. two.kept (
                pick-Waiting candidate m.clock_pointer i j p
                  (one_page serves r.sound m.clock_pointer w i j p h a f));
            first_unused = λ _.
                steady_Holds serves m₂ m' two.turned.steady (λ p p' (_, _, _, u) e. u e)
                  m.clock_pointer (i, j, record p { use_bit = false }, x.here, a, f, refl);
          })
          (λ m' s. Stays-Turned t s))
