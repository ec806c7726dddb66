-- ===== src/Worker/Memory/Round.antt =====
-- One round of the loop of mm_access_memory in worker/src/memory/memory_manager.c.
use Prim.Native.String.{String}
use tp_sistemas_operativos.Base.{
  ℕ, ◌+◌, ◌*◌, ◌^◌, ◌≡◌, ◌<◌, ◌≤◌, inl, inr, refl, sym, ap, ◌∙◌, Bool, true, false, Option, none,
  some, List, [], length, get_elem?, take, Option-cases, arith, lookup_bound, le→leb,
}
use tp_sistemas_operativos.Worker.PageTable.{Entry, PageTable, change_entry, pt_set_dirty, quiet}
use tp_sistemas_operativos.Worker.Memory.State.{
  FileTagEntry, Memory, Storage, M, gives, then_do, on_table, table_done, load_bytes,
}
use tp_sistemas_operativos.Worker.Memory.View.{page, name_at, Valid}
use tp_sistemas_operativos.Worker.Memory.Frames.{mm_update_page_access}
use tp_sistemas_operativos.Worker.Memory.Access.{ready_page, copy_bytes, put_bytes, table_kept}
use tp_sistemas_operativos.Worker.Memory.Outcomes.{Ensures, returned, weaken, Never, then-Ensures}
use tp_sistemas_operativos.Worker.Memory.Contents.{Serves, Sound, HeldBut, content}
use tp_sistemas_operativos.Worker.Memory.Bytes.{
  spliced, piece, piece_inside, piece-piece, length-spliced,
}
use tp_sistemas_operativos.Worker.Memory.Local.{
  Local, Elsewhere, where_is, local-Sound, local_content,
}
use tp_sistemas_operativos.Worker.Memory.Replace.{Replaced, on_table-Replaced, page_entry}
use tp_sistemas_operativos.Worker.Memory.Steps.{frame_room, used_bound, write_Local}
use tp_sistemas_operativos.Worker.Memory.Evict.{Stays, frame_address, page_content}
use tp_sistemas_operativos.Worker.Memory.Load.{store_lem}
use tp_sistemas_operativos.Worker.Memory.Fault.{ready_page_lem}
use tp_sistemas_operativos.Worker.Memory.Marks.{Stays-trans, mm_update_page_access_lem}

kept_lem :
    {R : Type 0} (m : Memory R) (i : ℕ) (e : FileTagEntry) (r : Option (Bool × PageTable))
    (b : Bool) (m' : Memory R)
    → table_done m i e r ≡ gives b m'
    → table_done m i e (table_kept (quiet r)) ≡ gives tt m'
kept_lem m i e none b m' h = absurd (cc h)
kept_lem m i e (some (c, pt)) b m' h = cc h

-- A call whose result is not looked at.
pub on_table_kept :
    {R : Type 0} (m : Memory R) (i : ℕ) (f : PageTable → Option (Bool × PageTable)) (b : Bool)
    (m' : Memory R)
    → on_table i f m ≡ gives b m'
    → on_table i (λ pt. table_kept (quiet (f pt))) m ≡ gives tt m'
unfolding on_table
on_table_kept m i f b m' h = elim (Option-cases (get_elem? m.entries i)) [
  | inl n ↦ absurd (cc (rw n at h))
  | inr (e, at) ↦ rw at (kept_lem m i e (f e.page_table) b m' (rw at at h))
]

module _ {R : Type 0} {storage : Storage R} {page_size : ℕ}
    (serves : Serves storage page_size) where
  -- What a write into page j of entry i leaves.
  pub record Splices (m : Memory R) (i j o : ℕ) (bytes : List ℕ) (m' : Memory R) : Type 0 where
    pub sound : Sound serves m'
    pub held : HeldBut m' none
    pub names : (k : ℕ) → name_at m' k ≡ name_at m k
    pub here : content serves m' i j ≡ spliced o bytes (content serves m i j)
    pub elsewhere : (k l : ℕ) → Elsewhere i j k l → content serves m' k l ≡ content serves m k l

  module _ (m : Memory R) (s : Sound serves m) (held : HeldBut m none) (i j : ℕ) (p : Entry)
      (h : page m i j ≡ some p) (present : p.present ≡ true) (o count : ℕ)
      (inside : o + count ≤ m.page_size) where
    bound : p.frame < m.frame_count
    bound = used_bound m s.valid p.frame (s.valid.resident i j p h present)

    room : p.frame * m.page_size + o + count ≤ length m.physical_memory
    room = omega (arith, frame_room m s.valid p.frame bound, inside)

    abbrev dirtied : Entry
    dirtied = record p { dirty = true }

    module _ (bytes : List ℕ) (all : length bytes ≡ count) (entries : List FileTagEntry)
        (r : Replaced m i j dirtied entries) where
      within_page : o + length bytes ≤ m.page_size
      within_page = omega (arith, all, inside)

      abbrev wrote : Memory R
      wrote = record m {
        entries = entries;
        physical_memory = spliced (p.frame * m.page_size + o) bytes m.physical_memory;
      }

      local : Local serves m wrote i j dirtied
      local =
          write_Local m s i j p h dirtied entries r o bytes refl present refl refl present
            within_page

      wrote-Splices : Splices m i j o bytes wrote
      wrote-Splices = record {
        sound = local-Sound serves s local;
        held = λ f u n.
            let (k, l, q, h', a, g) = held f u n in
            elim (where_is i j k l) [
              | inl (x, y) ↦
                  let it : p ≡ q = cc (h, h', x, y) in
                  (i, j, dirtied, r.here, present, ap (λ p. p.frame) it ∙ g)
              | inr away ↦ (k, l, q, r.elsewhere k l away ∙ h', a, g)
            ];
        names = r.names;
        here =
            rw (r.here, present)
              (piece_inside (p.frame * m.page_size) m.page_size o bytes m.physical_memory
                  (frame_room m s.valid p.frame bound) within_page
                ∙ sym (ap (spliced o bytes) (page_content serves m s i j p h present)));
        elsewhere = λ k l away. local_content serves s local k l away;
      }

    -- A round that writes puts the bytes into the content of the page.
    pub write_round :
        (bytes : List ℕ)
        → length (take count bytes) ≡ count
        → Ensures
            (λ r m'. (r ≡ []) × Splices m i j o (take count bytes) m')
            Never
            (copy_bytes storage true i j p o count bytes m)
    unfolding copy_bytes put_bytes pt_set_dirty
    write_round bytes all =
        let address = p.frame * m.page_size + o in
        let fitting : address + length (take count bytes) ≤ length m.physical_memory =
          omega (arith, room, all) in
        let memory = spliced address (take count bytes) m.physical_memory in
        let m' = record m { physical_memory = memory } in
        let v : Valid m' =
          other_memory memory
            (length-spliced address (take count bytes) m.physical_memory fitting) in
        let (entries, done, r) = on_table-Replaced m' v i j p h (λ e. record e { dirty = true }) in
        let r' : Replaced m i j dirtied entries = record {
          here = r.here;
          elsewhere = r.elsewhere;
          tables = r.tables;
          short = r.short;
          names = r.names;
        } in
        rw
          (
            frame_address m p.frame bound,
            store_lem m address (take count bytes) fitting,
            on_table_kept m' i (λ pt. change_entry pt j (λ e. record e { dirty = true })) true
                (record m' { entries = entries }) done,
          )
          (returned [] _ (refl, wrote-Splices (take count bytes) all entries r'))
      where
        other_memory :
            (memory : List ℕ)
            → length memory ≡ length m.physical_memory
            → Valid (record m { physical_memory = memory })
        other_memory memory same = record {
          tables = s.valid.tables;
          short = s.valid.short;
          numbered = s.valid.numbered;
          resident = s.valid.resident;
          alone = s.valid.alone;
          named = s.valid.named;
          sized = s.valid.sized;
          counted = s.valid.counted;
          fits = rw same s.valid.fits;
          positive = s.valid.positive;
          pointed = s.valid.pointed;
        }

    -- A round that reads gives a piece of the content of the page.
    pub read_round :
        (bytes : List ℕ)
        → copy_bytes storage false i j p o count bytes m
          ≡ gives (piece o count (content serves m i j)) m
    unfolding copy_bytes load_bytes
    read_round bytes =
        rw
          (
            frame_address m p.frame bound,
            le→leb (p.frame * m.page_size + o + count) (length m.physical_memory) room,
            page_content serves m s i j p h present,
            piece-piece (p.frame * m.page_size) m.page_size o count m.physical_memory inside,
          )
          refl

  -- Before the bytes of a round are copied, the page is ready and the access is marked.
  pub then_ready :
      {B : Type 0} {P : B → Memory R → Type 0} {Q : Memory R → Type 0} (granted : Bool) (i j : ℕ)
      (file tag_name : String) (k : Entry → M R B) (m : Memory R)
      → Sound serves m
      → HeldBut m none
      → name_at m i ≡ some (file, tag_name)
      → j < 2 ^ 32
      → ((p p' : Entry) (m' : Memory R)
          → Stays serves m m'
          → page m' i j ≡ some p'
          → p'.present ≡ true
          → p'.frame ≡ p.frame
          → j + 1 < 2 ^ 32
          → Ensures P Q (k p m'))
      → ((m' : Memory R) → Stays serves m m' → Q m')
      → Ensures P Q (
          then_do
            (ready_page storage granted i file tag_name j m)
            (λ p m'. then_do (mm_update_page_access i j m') (λ _. k p)))
  then_ready granted i j file tag_name k m s held named limit next fail =
      then-Ensures
        (weaken (ready_page_lem serves i j file tag_name granted limit m s held named) (λ p m₁ x. x)
          fail)
        λ p m₁ (stays₁, h₁, a₁).
          then-Ensures
            (weaken (mm_update_page_access_lem serves m₁ stays₁.sound stays₁.held i j p h₁)
              (λ _ m₂ x. x) (λ m₂ n. absurd n))
            λ _ m₂ (stays₂, p₂, h₂, same, _).
              next p p₂ m₂ (Stays-trans serves stays₁.keeps stays₂) h₂ (same.1 ∙ a₁) same.2
                (last m₂ stays₂.sound p₂ h₂)
    where
      last :
          (m₂ : Memory R) → Sound serves m₂ → (p₂ : Entry) → page m₂ i j ≡ some p₂ → j + 1 < 2 ^ 32
      last m₂ s₂ p₂ h₂ =
          let (e, at, own) = page_entry m₂ i j p₂ h₂ in
          omega (
            arith,
            lookup_bound e.page_table.entries j own,
            (s₂.valid.tables i e at).sized,
            s₂.valid.short i e at,
          )
