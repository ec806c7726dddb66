-- ===== src/Worker/Memory/Extend.antt =====
-- fit_table: how worker/src/memory/memory_manager.c makes a page table longer for a page beyond its
-- end.
use tp_sistemas_operativos.Base.{
  ℕ, ◌+◌, ◌%◌, ◌^◌, ◌≡◌, ◌≢◌, ◌<◌, ◌≤◌, ◌⊎◌, inl, inr, refl, sym, ap, ◌∙◌, subst, Bool, true, false,
  none, some, get_elem?, ◌==◌, ==_iff, Bool-cases, Option-cases, arith, lookup_bound, lookup_lt,
  if_elim, if◌then◌else◌, leb, ltb, leb→le, leb-false→lt, ltb→lt, ltb-false→le,
}
use native.Mathlib.Nat.{mod-lt}
use tp_sistemas_operativos.Worker.PageTable.{Entry, PageTable, blank, pt_resize}
use tp_sistemas_operativos.Worker.PageTable.Entries.{IsValid, view, Resized, pt_resize-Resized}
use tp_sistemas_operativos.Worker.Memory.State.{
  FileTagEntry, Memory, Storage, M, on_table, with_table, pure, failure,
}
use tp_sistemas_operativos.Worker.Memory.View.{
  page, name_at, Fewer, with_table-Valid, page-with_table, name-with_table, own_page, page_cases,
}
use tp_sistemas_operativos.Worker.Memory.Tables.{resize_table}
use tp_sistemas_operativos.Worker.Memory.Access.{fit_table}
use tp_sistemas_operativos.Worker.Memory.Outcomes.{Ensures, returned, refused}
use tp_sistemas_operativos.Worker.Memory.Contents.{
  Serves, Sound, HeldBut, Shrinks, block_of, content,
}
use tp_sistemas_operativos.Worker.Memory.Keeps.{Has}
use tp_sistemas_operativos.Worker.Memory.Evict.{Stays, stays}

-- A table with all the pages of before, and then pages that are not present.
pub record Extends (pt pt' : PageTable) : Type 0 where
  pub valid : IsValid pt'
  pub short : pt'.page_count < 2 ^ 32
  pub kept : (j : ℕ) → j < pt.page_count → view pt' j ≡ view pt j
  pub fresh :
      (j : ℕ) (p : Entry)
      → pt.page_count ≤ j
      → view pt' j ≡ some p
      → (p.present ≡ false) × (p.page_number ≡ j)

Extends-refl : (pt : PageTable) → IsValid pt → pt.page_count < 2 ^ 32 → Extends pt pt
Extends-refl pt v short = record {
  valid = v;
  short = short;
  kept = λ j h. refl;
  fresh = λ j p h e. absurd (omega (arith, lookup_bound pt.entries j e, v.sized));
}

module _ (pt : PageTable) (v : IsValid pt) (short : pt.page_count < 2 ^ 32) (n : ℕ)
    (longer : n ≢ 0 → pt.page_count ≤ n) (limit : n < 2 ^ 32) where
  resize_cases :
      (granted : Bool)
      → (pt_resize granted pt n ≡ (false, pt))
        ⊎ ((n ≢ 0) × (pt_resize granted pt n ≡ pt_resize true pt n))
  unfolding pt_resize
  resize_cases granted = elim (Bool-cases (n == 0)) [
    | inl z ↦ inl (rw z refl)
    | inr z ↦ elim (Bool-cases (n == pt.page_count)) [
      | inl s ↦ inr (λ e. absurd (ground (arith, z, e)), rw (z, s) refl)
      | inr s ↦ by_grant granted z s
    ]
  ]
    where
      by_grant :
          (granted : Bool)
          → (n == 0) ≡ false
          → (n == pt.page_count) ≡ false
          → (pt_resize granted pt n ≡ (false, pt))
            ⊎ ((n ≢ 0) × (pt_resize granted pt n ≡ pt_resize true pt n))
      by_grant true z s = inr (λ e. absurd (ground (arith, z, e)), refl)
      by_grant false z s = inl (rw (z, s) refl)

  Resized-Extends : n ≢ 0 → (r : Bool × PageTable) → Resized pt n r → Extends pt r.1
  Resized-Extends some_page r x =
      let after : r.1 ≡ x.after = ap (λ r. r.1) x.returns in
      subst (Extends pt) (sym after) (record {
        valid = x.valid;
        short = omega (arith, x.count, limit);
        kept = λ j h. x.kept j h (omega (arith, h, longer some_page));
        fresh = λ j p h e.
            let inside : j < n =
              omega (arith, lookup_bound x.after.entries j e, x.valid.sized, x.count) in
            let same : blank j ≡ p = cc (e, x.fresh j h inside) in
            (sym (ap (λ p. p.present) same), sym (ap (λ p. p.page_number) same));
      })

  -- Whether the memory is granted or not, the table is an extension, and has n pages on success.
  pub pt_resize-Extends :
      (granted : Bool)
      → Extends pt (pt_resize granted pt n).1
        × ((pt_resize granted pt n).0 ≡ true → (pt_resize granted pt n).1.page_count ≡ n)
  pt_resize-Extends granted = elim (resize_cases granted) [
    | inl e ↦ (
      subst (λ r. Extends pt r.1) (sym e) (Extends-refl pt v short),
      λ t. absurd (cc (t, ap (λ r. r.0) e)),
    )
    | inr (some_page, e) ↦
        let x = pt_resize-Resized pt v n some_page in
        (
          subst (λ r. Extends pt r.1) (sym e) (Resized-Extends some_page (pt_resize true pt n) x),
          λ _. ap (λ r. r.1.page_count) (e ∙ x.returns) ∙ x.count,
        )
  ]

module _ {R : Type 0} {storage : Storage R} {page_size : ℕ} (serves : Serves storage page_size)
    (m : Memory R) (s : Sound serves m) (held : HeldBut m none) (i : ℕ) (e : FileTagEntry)
    (at : get_elem? m.entries i ≡ some e) where
  module _ (pt : PageTable) (x : Extends e.page_table pt) where
    abbrev after : Memory R
    after = with_table m i e pt

    old_page : (j : ℕ) → j < e.page_table.page_count → page after i j ≡ page m i j
    old_page j h =
        ground (arith, page-with_table m i e at pt i j, x.kept j h, own_page m i e at pt j)

    new_page :
        (j : ℕ) (p : Entry)
        → e.page_table.page_count ≤ j
        → page after i j ≡ some p
        → (p.present ≡ false) × (p.page_number ≡ j)
    new_page j p h a = x.fresh j p h (ground (arith, page-with_table m i e at pt i j, a))

    other_page : (k j : ℕ) → k ≢ i → page after k j ≡ page m k j
    other_page k j other = ground (arith, page-with_table m i e at pt k j, other)

    -- A page of before is as it was.
    was_there : (k j : ℕ) (p : Entry) → page m k j ≡ some p → page after k j ≡ some p
    was_there k j p h = elim (Bool-cases (k == i)) [
      | inl b ↦
          let here : k ≡ i = (==_iff k i).0 b in
          let own : page m i j ≡ some p = sym (ap (λ k. page m k j) here) ∙ h in
          let inside : j < e.page_table.page_count = omega (
            arith,
            lookup_bound e.page_table.entries j (sym (own_page m i e at pt j) ∙ own),
            (s.valid.tables i e at).sized,
          ) in
          ap (λ k. page after k j) here ∙ old_page j inside ∙ own
      | inr b ↦ other_page k j (λ e. absurd (ground (arith, b, e))) ∙ h
    ]

    fewer : Fewer e.page_table pt
    fewer = record {
      valid = x.valid;
      short = x.short;
      numbered = λ j p h. elim (Bool-cases (ltb j e.page_table.page_count)) [
        | inl b ↦
            s.valid.numbered i j p
              (own_page m i e at pt j ∙ sym (x.kept j (ltb→lt j e.page_table.page_count b)) ∙ h)
        | inr b ↦ (x.fresh j p (ltb-false→le j e.page_table.page_count b) h).1
      ];
      was_present = λ j p h a. elim (Bool-cases (ltb j e.page_table.page_count)) [
        | inl b ↦ (p, sym (x.kept j (ltb→lt j e.page_table.page_count b)) ∙ h, a, refl)
        | inr b ↦ absurd (cc (a, (x.fresh j p (ltb-false→le j e.page_table.page_count b) h).0))
      ];
    }

    -- A page that is present after was there before, as it is.
    came_from :
        (k j : ℕ) (p : Entry) → page after k j ≡ some p → p.present ≡ true → page m k j ≡ some p
    came_from k j p h a = elim (page_cases m i e at pt k j p h) [
      | inr was ↦ was
      | inl (here, own) ↦ elim (Bool-cases (ltb j e.page_table.page_count)) [
        | inl b ↦
            ap (λ k. page m k j) here
            ∙ own_page m i e at pt j
            ∙ sym (x.kept j (ltb→lt j e.page_table.page_count b))
            ∙ own
        | inr b ↦ absurd (cc (a, (x.fresh j p (ltb-false→le j e.page_table.page_count b) own).0))
      ]
    ]

    name_same : (k : ℕ) → name_at after k ≡ name_at m k
    name_same = name-with_table m i e at pt

    block_same :
        (k j : ℕ)
        → block_of serves m.remote (name_at after k) j ≡ block_of serves m.remote (name_at m k) j
    block_same k j = ap (λ n. block_of serves m.remote n j) (name_same k)

    content_same : (k j : ℕ) → content serves after k j ≡ content serves m k j
    content_same k j = elim (Option-cases (page m k j)) [
      | inr (p, h) ↦ elim (Bool-cases p.present) [
        | inl a ↦ rw (was_there k j p h, h, a) refl
        | inr a ↦ rw (was_there k j p h, h, a) (block_same k j)
      ]
      | inl n ↦ elim (Option-cases (page after k j)) [
        | inl n' ↦ rw (n, n') (block_same k j)
        | inr (p, h) ↦ elim (Bool-cases p.present) [
          | inl a ↦ absurd (cc (came_from k j p h a, n))
          | inr a ↦ rw (n, h, a) (block_same k j)
        ]
      ]
    ]

    -- A longer table keeps every content.
    pub extended-Stays : Stays serves m after
    extended-Stays = record {
      sound = record {
        valid = with_table-Valid m i e at pt s.valid fewer;
        same_size = s.same_size;
        clean = λ k j p h a d. s.clean k j p (came_from k j p h a) a d ∙ sym (block_same k j);
      };
      keeps = record {
        names = name_same;
        has = λ k j (p, h). (p, was_there k j p h);
        contents = content_same;
      };
      held = λ f u n. let (k, j, p, h, a, g) = held f u n in (k, j, p, was_there k j p h, a, g);
    }

    pub extended-Shrinks : Shrinks m after
    extended-Shrinks k j p h a = (p, came_from k j p h a, a)

    pub extended-Has : (j : ℕ) → j < pt.page_count → Has after i j
    extended-Has j h =
        let (p, there) = lookup_lt pt.entries j (omega (arith, h, x.valid.sized)) in
        (p, ground (arith, page-with_table m i e at pt i j, there))

  pub own-Has : (j : ℕ) → j < e.page_table.page_count → Has m i j
  own-Has j h =
      let (p, there) =
        lookup_lt e.page_table.entries j (omega (arith, h, (s.valid.tables i e at).sized)) in
      (p, own_page m i e at e.page_table j ∙ there)

  -- On a sound memory where every used frame holds a page, for an entry and a page number below 2
  -- ^ 32, whether memory is granted or not, making the table long enough returns without a fault:
  -- it either leaves the page in the table, with no page present that was not before, or fails;
  -- in both cases no content changes and the memory stays sound.
  pub fit_table_lem :
      (granted : Bool) (j : ℕ)
      → j < 2 ^ 32
      → Ensures
          (λ _ m'. Stays serves m m' × Shrinks m m' × Has m' i j)
          (Stays serves m)
          (fit_table granted i j m)
  unfolding fit_table resize_table on_table
  fit_table_lem granted j limit = rw at (
      if_elim
        (λ (k : M R (Unit {0})).
          Ensures (λ _ m'. Stays serves m m' × Shrinks m m' × Has m' i j) (Stays serves m) (k m))
        (leb e.page_table.page_count j)
        (λ b. rw at (resize_lem (leb→le e.page_table.page_count j b)))
        (λ b. returned tt m (
          stays serves m s held,
          (λ k l p h a. (p, h, a)),
          own-Has j (leb-false→lt e.page_table.page_count j b),
        )))
    where
      next : (j + 1) % 2 ^ 32 ≢ 0 → (j + 1) % 2 ^ 32 ≡ j + 1
      next some_page = omega (arith, some_page, limit)

      resize_lem :
          e.page_table.page_count ≤ j
          → Ensures
              (λ _ m'. Stays serves m m' × Shrinks m m' × Has m' i j)
              (Stays serves m)
              ((if (pt_resize granted e.page_table ((j + 1) % 2 ^ 32)).0 then pure tt else failure)
                (with_table m i e (pt_resize granted e.page_table ((j + 1) % 2 ^ 32)).1))
      resize_lem beyond =
          let (x, success) =
            pt_resize-Extends e.page_table (s.valid.tables i e at) (s.valid.short i e at)
              ((j + 1) % 2 ^ 32) (λ some_page. omega (arith, next some_page, beyond))
              (mod-lt (j + 1) (omega arith)) granted in
          let pt = (pt_resize granted e.page_table ((j + 1) % 2 ^ 32)).1 in
          if_elim
            (λ (k : M R (Unit {0})).
              Ensures (λ _ m'. Stays serves m m' × Shrinks m m' × Has m' i j) (Stays serves m)
                (k (with_table m i e pt)))
            (pt_resize granted e.page_table ((j + 1) % 2 ^ 32)).0
            (λ ok.
              let count = success ok in
              returned tt _ (
                extended-Stays pt x,
                extended-Shrinks pt x,
                extended-Has pt x j
                    (omega (arith, count, next (λ z. x.valid.nonempty (count ∙ z)))),
              ))
            (λ bad. refused _ (extended-Stays pt x))
