-- ===== src/Worker/Memory/Load.antt =====
-- How worker/src/memory/memory_manager.c brings a page into the frame that was allocated for it.
use Prim.Native.String.{String}
use tp_sistemas_operativos.Base.{
  ℕ, ◌+◌, ◌-◌, ◌*◌, ◌≡◌, ◌≢◌, ◌<◌, ◌≤◌, inl, inr, refl, sym, ap, ◌∙◌, subst, true, false, none,
  some, List, length, get_elem?, set, take, replicate, ◌==◌, ==_iff, Bool-cases, arith,
  lookup_bound, lookup-set, length-set, if_elim, if◌then◌else◌, leb, le→leb, length-append,
  length-take, length-replicate,
}
use tp_sistemas_operativos.Worker.PageTable.{Entry, mapped, pt_map}
use tp_sistemas_operativos.Worker.Memory.State.{
  FileTagEntry, Memory, Storage, ReadResult, gives, store_bytes,
}
use tp_sistemas_operativos.Worker.Memory.View.{page, name_at, Unheld}
use tp_sistemas_operativos.Worker.Memory.Frames.{mm_free_frame}
use tp_sistemas_operativos.Worker.Memory.Access.{load_page, page_bytes, padded}
use tp_sistemas_operativos.Worker.Memory.Outcomes.{
  Ensures, returned, refused, cleaned-Ensures, option_Ensures,
}
use tp_sistemas_operativos.Worker.Memory.Contents.{
  Serves, Sound, HeldBut, frame_bytes, block_of, content,
}
use tp_sistemas_operativos.Worker.Memory.Bytes.{
  spliced, piece, piece_over, piece_apart, frames_apart, length-spliced,
}
use tp_sistemas_operativos.Worker.Memory.Local.{Local, Elsewhere, local-Sound}
use tp_sistemas_operativos.Worker.Memory.Keeps.{
  Keeps, Keeps-trans, local_Keeps, Aside, aside-Sound, aside-Keeps,
}
use tp_sistemas_operativos.Worker.Memory.Replace.{Replaced, on_table-Replaced}
use tp_sistemas_operativos.Worker.Memory.Steps.{frame_room, used_bound, map_Local}
use tp_sistemas_operativos.Worker.Memory.Evict.{Stays, frame_address}

length-padded : (page_size : ℕ) (bytes : List ℕ) → length (padded page_size bytes) ≡ page_size
length-padded page_size bytes = omega (
  arith,
  length-append (take page_size bytes) (replicate (page_size - length bytes) 0),
  length-take page_size bytes,
  length-replicate {A = ℕ} (page_size - length bytes) 0,
)

pub length-page_bytes :
    (page_size : ℕ) (r : ReadResult) (bytes : List ℕ)
    → page_bytes page_size r ≡ some bytes
    → length bytes ≡ page_size
length-page_bytes page_size (ReadResult.block bs) bytes e =
    let same : padded page_size bs ≡ bytes = cc e in
    sym (ap length same) ∙ length-padded page_size bs
length-page_bytes page_size ReadResult.missing bytes e =
    let same : replicate page_size 0 ≡ bytes = cc e in
    sym (ap length same) ∙ length-replicate page_size 0
length-page_bytes page_size ReadResult.failed bytes e = absurd (cc e)

-- A store within the memory.
pub store_lem :
    {R : Type 0} (m : Memory R) (address : ℕ) (bytes : List ℕ)
    → address + length bytes ≤ length m.physical_memory
    → store_bytes address bytes m
      ≡ gives tt (record m { physical_memory = spliced address bytes m.physical_memory })
unfolding store_bytes
store_lem m address bytes h = rw (le→leb (address + length bytes) (length m.physical_memory) h) refl

module _ {R : Type 0} {storage : Storage R} {page_size : ℕ}
    (serves : Serves storage page_size) where
  -- A frame that is used and holds no page, the only such frame.
  pub record Open (f : ℕ) (m : Memory R) : Type 0 where
    pub sound : Sound serves m
    pub held : HeldBut m (some f)
    pub unheld : Unheld m f
    pub used : get_elem? m.frames f ≡ some true

  abbrev pub Present : ℕ → ℕ → Memory R → Type 0
  Present i j m = (p : Entry) × (page m i j ≡ some p) × (p.present ≡ true)

  module _ (m : Memory R) (f : ℕ) (o : Open f m) (i j : ℕ) (p : Entry) (h : page m i j ≡ some p)
      (absent : p.present ≡ false) (file tag_name : String)
      (named : name_at m i ≡ some (file, tag_name)) where
    bound : f < m.frame_count
    bound = used_bound m o.sound.valid f o.used

    -- What the frame is freed from after a failure.
    record Failed (m' : Memory R) : Type 0 where
      pub open_still : Open f m'
      pub keeps : Keeps serves m m'

    freed : (m' : Memory R) → Failed m' → Stays serves m (mm_free_frame f m')
    unfolding mm_free_frame
    freed m' x =
        if_elim (Stays serves m) (leb m'.frame_count f)
          (λ b.
            absurd (ground (arith, b, used_bound m' x.open_still.sound.valid f x.open_still.used)))
          (λ _. record {
            sound =
                aside-Sound serves m' m'.physical_memory _ m'.remote m'.clock_pointer
                  m'.global_timestamp m'.last_victim x.open_still.sound beside;
            keeps = Keeps-trans serves x.keeps (
                aside-Keeps serves m' m'.physical_memory _ m'.remote m'.clock_pointer
                  m'.global_timestamp m'.last_victim x.open_still.sound beside);
            held = λ g u _. x.open_still.held g (was g u) (λ e. apart g u (cc e));
          })
      where
        lookup :
            (g : ℕ)
            → get_elem? (set m'.frames f false) g
              ≡ (if g == f then some false else get_elem? m'.frames g)
        lookup g = lookup-set m'.frames f g false (lookup_bound m'.frames f x.open_still.used)

        apart : (g : ℕ) → get_elem? (set m'.frames f false) g ≡ some true → f ≢ g
        apart g u e = ground (arith, lookup g, u, e)

        was :
            (g : ℕ)
            → get_elem? (set m'.frames f false) g ≡ some true
            → get_elem? m'.frames g ≡ some true
        was g u = ground (arith, lookup g, u)

        beside :
            Aside serves m' m'.physical_memory
              (set m'.frames f false)
              m'.remote
              m'.clock_pointer
              m'.global_timestamp
              m'.last_victim
        beside = record {
          used = λ k l q e a.
              let before = x.open_still.sound.valid.resident k l q e a in
              let other : q.frame ≢ f = λ same. x.open_still.unheld k l q e a same in
              ground (arith, lookup q.frame, before, other);
          bytes = λ k l q e a. refl;
          blocks = λ n j. refl;
          length_memory = refl;
          length_frames = length-set m'.frames f false;
          pointed = x.open_still.sound.valid.pointed;
        }

    abbrev answer : ReadResult × R
    answer = storage.read_block_from_storage file tag_name j m.remote

    -- After the answer of the storage, whatever is in the frame.
    module _ (memory : List ℕ) (same_length : length memory ≡ length m.physical_memory)
        (others : (g : ℕ)
          → g ≢ f
          → frame_bytes (record m { physical_memory = memory }) g ≡ frame_bytes m g) where
      beside_read :
          Aside serves m memory m.frames answer.1 m.clock_pointer m.global_timestamp m.last_victim
      beside_read = record {
        used = o.sound.valid.resident;
        bytes = λ k l q e a. others q.frame (λ same. o.unheld k l q e a same);
        blocks = λ n l. serves.read_keeps file tag_name j m.remote n l;
        length_memory = same_length;
        length_frames = refl;
        pointed = o.sound.valid.pointed;
      }

      read_still : Failed (record m { physical_memory = memory; remote = answer.1 })
      read_still = record {
        open_still = record {
          sound =
              aside-Sound serves m memory m.frames answer.1 m.clock_pointer m.global_timestamp
                m.last_victim o.sound beside_read;
          held = o.held;
          unheld = o.unheld;
          used = o.used;
        };
        keeps =
            aside-Keeps serves m memory m.frames answer.1 m.clock_pointer m.global_timestamp
              m.last_victim o.sound beside_read;
      }

    -- The bytes are in the frame, and the page is mapped to it.
    module _ (bytes : List ℕ) (e : page_bytes m.page_size answer.0 ≡ some bytes) where
      sized : length bytes ≡ m.page_size
      sized = length-page_bytes m.page_size answer.0 bytes e

      abbrev filled : List ℕ
      filled = spliced (f * m.page_size) bytes m.physical_memory

      room : f * m.page_size + length bytes ≤ length m.physical_memory
      room = omega (arith, frame_room m o.sound.valid f bound, sized)

      abbrev full : Memory R
      full = record m { physical_memory = filled; remote = answer.1 }

      others_stay :
          (g : ℕ) → g ≢ f → frame_bytes (record m { physical_memory = filled }) g ≡ frame_bytes m g
      others_stay g other =
          piece_apart (g * m.page_size) m.page_size (f * m.page_size) bytes m.physical_memory room
            (elim (frames_apart g f m.page_size other) [
              | inl k ↦ inl k
              | inr k ↦ inr (omega (arith, k, sized))
            ])

      full_still : Failed full
      full_still =
          read_still filled (length-spliced (f * m.page_size) bytes m.physical_memory room)
            others_stay

      full_bytes : frame_bytes full f ≡ bytes
      full_bytes =
          ap (λ n. piece (f * m.page_size) n filled) (sym sized)
          ∙ piece_over (f * m.page_size) bytes m.physical_memory room

      full_block : bytes ≡ block_of serves answer.1 (name_at m i) j
      full_block =
          serves.read_gives file tag_name j m.remote bytes
            (subst (λ n. page_bytes n answer.0 ≡ some bytes) o.sound.same_size e)
          ∙ sym (serves.read_keeps file tag_name j m.remote (file, tag_name) j)
          ∙ ap (λ n. block_of serves answer.1 n j) (sym named)

      module _ (entries : List FileTagEntry) (r : Replaced full i j (mapped f p) entries) where
        abbrev loaded : Memory R
        loaded = record full { entries = entries }

        map : Local serves full loaded i j (mapped f p)
        map =
            map_Local full full_still.open_still.sound i j p h (mapped f p) entries r f refl refl
              o.used o.unheld (full_bytes ∙ full_block)

        contents_stay : content serves loaded i j ≡ content serves full i j
        contents_stay = rw (r.here, h, absent) (full_bytes ∙ full_block)

        held_loaded : HeldBut loaded none
        held_loaded g u _ = elim (Bool-cases (g == f)) [
          | inl b ↦ (i, j, mapped f p, r.here, refl, sym ((==_iff g f).0 b))
          | inr b ↦
              let (k, l, q, e', a, at) = o.held g u (λ x. absurd (ground (arith, b, x))) in
              (k, l, q, r.elsewhere k l (away k l q e' a) ∙ e', a, at)
        ]
          where
            away :
                (k l : ℕ) (q : Entry) → page m k l ≡ some q → q.present ≡ true → Elsewhere i j k l
            away k l q e' a x y = absurd (cc (e', h, x, y, a, absent))

        loaded-Stays : Stays serves m loaded
        loaded-Stays = record {
          sound = local-Sound serves full_still.open_still.sound map;
          keeps =
              Keeps-trans serves full_still.keeps
                (local_Keeps serves full_still.open_still.sound map contents_stay);
          held = held_loaded;
        }

    -- The call ends with the page in the frame, or fails and frees the frame; in both cases no
    -- content changes.
    pub load_page_lem :
        Ensures
          (λ _ m'. Stays serves m m' × Present i j m')
          (Stays serves m)
          (load_page storage i file tag_name j f m)
    unfolding load_page pt_map
    load_page_lem =
        cleaned-Ensures {Q = Failed} (mm_free_frame f)
          (rw (frame_address m f bound) (
            option_Ensures (page_bytes m.page_size answer.0) _ _
              (λ _. refused _ (read_still m.physical_memory refl (λ g _. refl)))
              (λ bytes e.
                let (entries, done, r) =
                  on_table-Replaced (full bytes e) (full_still bytes e).open_still.sound.valid i j p
                    h (mapped f) in
                rw
                  (
                    store_lem (record m { remote = answer.1 }) (f * m.page_size) bytes
                        (room bytes e),
                    done,
                  )
                  (returned tt _ (loaded-Stays bytes e entries r, (mapped f p, r.here, refl))))))
          freed
