-- ===== src/Worker/Memory/Evict.antt =====
-- write_page and release_page: how worker/src/memory/memory_manager.c takes a page out of its
-- frame.
use tp_sistemas_operativos.Base.{
  ℕ, ◌+◌, ◌*◌, ◌≡◌, ◌<◌, inl, inr, refl, sym, ap, ◌∙◌, Bool, true, false, Option, none, some, List,
  length, get_elem?, ◌==◌, ==_iff, Bool-cases, Option-cases, arith, lookup_bound, set, lookup-set,
  if◌then◌else◌, le→leb, if_elim,
}
use tp_sistemas_operativos.Worker.PageTable.{Entry, pt_unmap, unmapped}
use tp_sistemas_operativos.Worker.Memory.State.{
  FileTagEntry, Memory, Storage, Victim, gives, M, then_do, load_bytes,
}
use tp_sistemas_operativos.Worker.Memory.View.{page, name_at, Valid, Unheld}
use tp_sistemas_operativos.Worker.Memory.Outcomes.{
  Ensures, returned, refused, Never, bind-Ensures, then-Ensures, weaken, option_Ensures,
}
use tp_sistemas_operativos.Worker.Memory.Frames.{write_page, release_page, mm_get_frame_address}
use tp_sistemas_operativos.Worker.Memory.Contents.{
  Serves, frame_bytes, block_of, content, Sound, HeldBut, Shrinks, Shrinks-trans,
}
use tp_sistemas_operativos.Worker.Memory.Bytes.{length-piece}
use tp_sistemas_operativos.Worker.Memory.Local.{Local, Elsewhere, where_is, local-Sound}
use tp_sistemas_operativos.Worker.Memory.Keeps.{Keeps, Keeps-refl, Keeps-trans, local_Keeps}
use tp_sistemas_operativos.Worker.Memory.Replace.{Replaced, page_entry, on_table-Replaced}
use tp_sistemas_operativos.Worker.Memory.Steps.{frame_room, used_bound, release_Local, remote_Local}

-- The bytes of a used frame can be read.
pub load_frame :
    {R : Type 0} (m : Memory R) (f : ℕ)
    → Valid m
    → f < m.frame_count
    → load_bytes (f * m.page_size) m.page_size m ≡ gives (frame_bytes m f) m
unfolding load_bytes
load_frame m f v h =
    rw (le→leb (f * m.page_size + m.page_size) (length m.physical_memory) (frame_room m v f h)) refl

pub frame_address :
    {R : Type 0} (m : Memory R) (f : ℕ)
    → f < m.frame_count
    → mm_get_frame_address m f ≡ some (f * m.page_size)
unfolding mm_get_frame_address
frame_address m f h = ground arith

pub length-frame_bytes :
    {R : Type 0} (m : Memory R) (f : ℕ)
    → Valid m
    → f < m.frame_count
    → length (frame_bytes m f) ≡ m.page_size
length-frame_bytes m f v h =
    length-piece (f * m.page_size) m.page_size m.physical_memory (frame_room m v f h)

module _ {R : Type 0} {storage : Storage R} {page_size : ℕ}
    (serves : Serves storage page_size) where
  -- What a release leaves: frame f is free and holds no page.
  pub record Freed (m : Memory R) (f : ℕ) (m' : Memory R) : Type 0 where
    pub sound : Sound serves m'
    pub keeps : Keeps serves m m'
    pub held : HeldBut m' none
    pub unheld : Unheld m' f
    pub unused : get_elem? m'.frames f ≡ some false
    pub shrinks : Shrinks m m'

  -- What any other call leaves.
  pub record Stays (m m' : Memory R) : Type 0 where
    pub sound : Sound serves m'
    pub keeps : Keeps serves m m'
    pub held : HeldBut m' none

  pub Freed-trans :
      {m₁ m₂ m₃ : Memory R} {f : ℕ}
      → Keeps serves m₁ m₂
      → Shrinks m₁ m₂
      → Freed m₂ f m₃
      → Freed m₁ f m₃
  Freed-trans {m₁} {m₂} {m₃} k sh r = record {
    sound = r.sound;
    keeps = Keeps-trans serves k r.keeps;
    held = r.held;
    unheld = r.unheld;
    unused = r.unused;
    shrinks = Shrinks-trans m₁ m₂ m₃ sh r.shrinks;
  }

  module _ (m : Memory R) (s : Sound serves m) (i j : ℕ) (p : Entry) (h : page m i j ≡ some p)
      (present : p.present ≡ true) where
    used : get_elem? m.frames p.frame ≡ some true
    used = s.valid.resident i j p h present

    bound : p.frame < m.frame_count
    bound = used_bound m s.valid p.frame used

    pub page_content : content serves m i j ≡ frame_bytes m p.frame
    page_content = rw (h, present) refl

    module _ (held : HeldBut m none)
        (synced : frame_bytes m p.frame ≡ block_of serves m.remote (name_at m i) j)
        (entries : List FileTagEntry) (r : Replaced m i j (unmapped p) entries)
        (victim : Option Victim) where
      abbrev after : Memory R
      after = record m {
        entries = entries;
        frames = set m.frames p.frame false;
        last_victim = victim;
      }

      local : Local serves m after i j (unmapped p)
      local = release_Local m s i j p h (unmapped p) entries r victim refl refl present

      lookup_frame :
          (g : ℕ)
          → get_elem? after.frames g ≡ (if g == p.frame then some false else get_elem? m.frames g)
      lookup_frame g = lookup-set m.frames p.frame g false (lookup_bound m.frames p.frame used)

      held_after : HeldBut after none
      held_after g u _ = elim (Bool-cases (g == p.frame)) [
        | inl same ↦ absurd (ground (arith, lookup_frame g, same, u))
        | inr other ↦
            let before : get_elem? m.frames g ≡ some true =
              ground (arith, lookup_frame g, other, u) in
            let (k, l, q, e, a, f) = held g before (λ e. absurd (cc e)) in
            (k, l, q, local.elsewhere k l (away k l q e f other) ∙ e, a, f)
      ]
        where
          away :
              (k l : ℕ) (q : Entry)
              → page m k l ≡ some q
              → q.frame ≡ g
              → (g == p.frame) ≡ false
              → Elsewhere i j k l
          away k l q e f other x y =
              let same : q ≡ p = cc (e, h, x, y) in
              let there : g ≡ p.frame = sym f ∙ ap (λ q. q.frame) same in
              absurd (cc (other, (==_iff g p.frame).1 there))

      Unheld-after : Unheld after p.frame
      Unheld-after k l q e a f = elim (where_is i j k l) [
        | inl (x, y) ↦ absurd (cc (e, x, y, r.here, a))
        | inr away ↦
            let (x, y) =
              s.valid.alone k l i j q p (sym (local.elsewhere k l away) ∙ e) h a present f in
            away x y
      ]

      freed : Freed m p.frame after
      freed = record {
        sound = local-Sound serves s local;
        keeps = local_Keeps serves s local (rw (r.here, r.names i) (sym synced ∙ sym page_content));
        held = held_after;
        unheld = Unheld-after;
        unused = ground (arith, lookup_frame p.frame);
        shrinks = λ k l q e a. elim (where_is i j k l) [
          | inl (x, y) ↦ absurd (cc (e, x, y, r.here, a))
          | inr away ↦ (q, sym (local.elsewhere k l away) ∙ e, a)
        ];
      }

    -- A page whose block has its bytes is released: its frame is free, and no content changes.
    pub release_page-Freed :
        HeldBut m none
        → frame_bytes m p.frame ≡ block_of serves m.remote (name_at m i) j
        → Ensures (λ _. Freed m p.frame) Never (release_page storage i j p.frame m)
    unfolding release_page pt_unmap
    release_page-Freed held synced =
        let (e, at, own) = page_entry m i j p h in
        let (entries, done, r) = on_table-Replaced m s.valid i j p h unmapped in
        rw (at, done, used) (returned tt _ (freed held synced entries r _))

    module _ (dirty : p.dirty ≡ true) (e : FileTagEntry) (at : get_elem? m.entries i ≡ some e) where
      abbrev answer : Bool × R
      answer = storage.write_block_to_storage e.file e.tag_name j (frame_bytes m p.frame) m.remote

      name_of : name_at m i ≡ some (e.file, e.tag_name)
      name_of = rw at refl

      others_kept :
          (k l : ℕ)
          → Elsewhere i j k l
          → block_of serves answer.1 (name_at m k) l ≡ block_of serves m.remote (name_at m k) l
      others_kept k l away = elim (Option-cases (name_at m k)) [
        | inl e' ↦ rw e' refl
        | inr (n, e') ↦ rw e' (
            serves.write_keeps e.file e.tag_name j (frame_bytes m p.frame) m.remote n l
              (λ same. away (s.valid.named k i n e' (name_of ∙ ap some (sym same)))))
      ]

      wrote : Local serves m (record m { remote = answer.1 }) i j p
      wrote = remote_Local m s i j p h answer.1 present dirty others_kept

      wrote-Keeps : Keeps serves m (record m { remote = answer.1 })
      wrote-Keeps = local_Keeps serves s wrote (page_content_after ∙ sym page_content)
        where
          page_content_after :
              content serves (record m { remote = answer.1 }) i j ≡ frame_bytes m p.frame
          page_content_after = rw (h, present) refl

      written : answer.0 ≡ true → block_of serves answer.1 (name_at m i) j ≡ frame_bytes m p.frame
      written ok = rw name_of (
          serves.write_done e.file e.tag_name j (frame_bytes m p.frame) m.remote
            (length-frame_bytes m p.frame s.valid bound ∙ s.same_size) ok)

    -- A dirty page that is present is written from its frame: no content changes, and when the
    -- call succeeds the block of the page has the bytes of the frame.
    pub write_page_lem :
        {P : Unit → Memory R → Type 0} {Q : Memory R → Type 0}
        → p.dirty ≡ true
        → ((remote : R)
            → block_of serves remote (name_at m i) j ≡ frame_bytes m p.frame
            → Sound serves (record m { remote = remote })
            → Keeps serves m (record m { remote = remote })
            → P tt (record m { remote = remote }))
        → ((remote : R)
            → Sound serves (record m { remote = remote })
            → Keeps serves m (record m { remote = remote })
            → Q (record m { remote = remote }))
        → Q m
        → Ensures P Q (write_page storage i j p.frame m)
    unfolding write_page
    write_page_lem {P} {Q} dirty done failed idle =
        let (e, at, own) = page_entry m i j p h in
        let local = wrote dirty e at in
        rw (at, frame_address m p.frame bound, load_frame m p.frame s.valid bound)
          (option_Ensures m.storage_socket _ _ (λ _. refused m idle)
            (λ _ _.
              if_elim (λ o. Ensures P Q o) (answer dirty e at).0
                (λ ok. returned tt _ (
                  done _ (written dirty e at ok) (local-Sound serves s local)
                    (wrote-Keeps dirty e at)))
                (λ _. refused _ (failed _ (local-Sound serves s local) (wrote-Keeps dirty e at)))))

  pub stays : (m : Memory R) → Sound serves m → HeldBut m none → Stays m m
  stays m s held = record { sound = s; keeps = Keeps-refl serves m; held = held }

  module _ (m : Memory R) (s : Sound serves m) (held : HeldBut m none) (i j : ℕ) (p : Entry)
      (h : page m i j ≡ some p) (present : p.present ≡ true) where
    module _ {B : Type 0} {P : B → Memory R → Type 0} (k : Unit → M R B)
        (rest : (m' : Memory R) → Freed m p.frame m' → Ensures P (Stays m) (k tt m')) where
      -- A dirty page is written and released, and then the rest.
      pub evict_dirty :
          p.dirty ≡ true
          → Ensures P (Stays m) (
              then_do
                (write_page storage i j p.frame m)
                (λ _ m'. then_do (release_page storage i j p.frame m') k))
      evict_dirty dirty = bind-Ensures (
          write_page_lem m s i j p h present dirty
            (λ remote same s' kept.
              then-Ensures
                (weaken
                  (release_page-Freed (record m { remote = remote }) s' i j p h present held
                    (sym same))
                  (λ _ m' f. f) (λ m' n. absurd n))
                (λ _ m' f. rest m' (Freed-trans kept (λ k l q e a. (q, e, a)) f)))
            (λ remote s' kept. record { sound = s'; keeps = kept; held = held }) (stays m s held))

      -- A clean page is released, and then the rest.
      pub evict_clean :
          p.dirty ≡ false → Ensures P (Stays m) (then_do (release_page storage i j p.frame m) k)
      evict_clean clean =
          then-Ensures
            (weaken (release_page-Freed m s i j p h present held (s.clean i j p h present clean))
              (λ _ m' f. f) (λ m' n. absurd n))
            (λ _ m' f. rest m' f)
