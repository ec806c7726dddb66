-- ===== src/Worker/Memory/Steps.antt =====
-- The changes that the calls of worker/src/memory/memory_manager.c make to one page: a mark, the
-- release of its frame, its mapping to a frame, a write into its frame.
use tp_sistemas_operativos.Base.{
  ℕ, ◌+◌, ◌*◌, ◌≡◌, ◌≢◌, ◌≤◌, ◌<◌, inl, inr, refl, sym, ap, ◌∙◌, Bool, true, false, Option, some,
  List, length, get_elem?, Bool-cases, arith, lookup_bound, set, length-set, lookup-set,
}
use native.Mathlib.Nat.{mul-le-mul_right}
use tp_sistemas_operativos.Worker.PageTable.{Entry}
use tp_sistemas_operativos.Worker.Memory.State.{FileTagEntry, Memory, Storage, Victim}
use tp_sistemas_operativos.Worker.Memory.View.{page, name_at, Valid, Unheld}
use tp_sistemas_operativos.Worker.Memory.Contents.{Serves, frame_bytes, block_of, content, Sound}
use tp_sistemas_operativos.Worker.Memory.Bytes.{
  spliced, piece, piece_apart, frames_apart, length-spliced,
}
use tp_sistemas_operativos.Worker.Memory.Local.{Local, Elsewhere}
use tp_sistemas_operativos.Worker.Memory.Replace.{Replaced}

-- The frames of a valid memory lie within it.
pub frame_room :
    {R : Type 0} (m : Memory R)
    → Valid m
    → (f : ℕ) → f < m.frame_count
    → f * m.page_size + m.page_size ≤ length m.physical_memory
frame_room m v f h = omega (arith, v.fits, mul-le-mul_right m.page_size h)

pub used_bound :
    {R : Type 0} (m : Memory R)
    → Valid m
    → (f : ℕ) {b : Bool} → get_elem? m.frames f ≡ some b
    → f < m.frame_count
used_bound m v f h = omega (arith, lookup_bound m.frames f h, v.sized)

-- A write within frame f leaves the bytes of the others.
pub other_frame :
    {R : Type 0} (m : Memory R) (f g o : ℕ) (bytes : List ℕ)
    → Valid m
    → f < m.frame_count
    → o + length bytes ≤ m.page_size
    → g ≢ f
    → piece (g * m.page_size) m.page_size (spliced (f * m.page_size + o) bytes m.physical_memory)
      ≡ frame_bytes m g
other_frame m f g o bytes v h inside other =
    piece_apart (g * m.page_size) m.page_size (f * m.page_size + o) bytes m.physical_memory
      (omega (arith, frame_room m v f h))
      (elim (frames_apart g f m.page_size other) [
        | inl k ↦ inl (omega arith)
        | inr k ↦ inr (omega arith)
      ])

module _ {R : Type 0} {storage : Storage R} {page_size : ℕ} {serves : Serves storage page_size}
    (m : Memory R) (s : Sound serves m) (i j : ℕ) (p : Entry) (h : page m i j ≡ some p) where
  apart :
      p.present ≡ true
      → (k l : ℕ) (q : Entry) → page m k l ≡ some q
      → q.present ≡ true
      → Elsewhere i j k l
      → q.frame ≢ p.frame
  apart a k l q e b away same = let (x, y) = s.valid.alone k l i j q p e h b a same in away x y

  number_kept : (p' : Entry) → p'.page_number ≡ p.page_number → p'.page_number ≡ j
  number_kept p' same = same ∙ s.valid.numbered i j p h

  module _ (p' : Entry) (entries : List FileTagEntry) (r : Replaced m i j p' entries) where
    -- The page stays in its frame, or out of every frame.
    pub still_Local :
        p'.page_number ≡ p.page_number
        → p'.present ≡ p.present
        → p'.frame ≡ p.frame
        → (p'.present ≡ true
            → p'.dirty ≡ false
            → frame_bytes m p.frame ≡ block_of serves m.remote (name_at m i) j)
        → Local serves m (record m { entries = entries }) i j p'
    still_Local number present frame synced = record {
      here = r.here;
      elsewhere = r.elsewhere;
      tables = r.tables;
      short = r.short;
      names = r.names;
      number = number_kept p' number;
      mine = λ a. ap (get_elem? m.frames) frame ∙ s.valid.resident i j p h (sym present ∙ a);
      fresh = λ a k l q e b f. s.valid.alone k l i j q p e h b (sym present ∙ a) (f ∙ frame);
      others_used = λ k l q e b away. refl;
      others_bytes = λ k l q e b away. refl;
      others_block = λ k l away. refl;
      synced = λ a d. ap (frame_bytes m) frame ∙ synced a d;
      frames_kept = refl;
      count_kept = refl;
      size_kept = refl;
      memory_kept = refl;
      clock_kept = refl;
    }

    pub still_content :
        p'.present ≡ p.present
        → p'.frame ≡ p.frame
        → content serves (record m { entries = entries }) i j ≡ content serves m i j
    still_content present frame = elim (Bool-cases p.present) [
      | inl a ↦ rw (r.here, h, a, present ∙ a) (ap (frame_bytes m) frame)
      | inr a ↦ rw (r.here, h, a, present ∙ a) (ap (λ n. block_of serves m.remote n j) (r.names i))
    ]

    -- The page leaves its frame, which becomes free.
    pub release_Local :
        (victim : Option Victim)
        → p'.page_number ≡ p.page_number
        → p'.present ≡ false
        → p.present ≡ true
        → Local serves m
            (record m {
              entries = entries;
              frames = set m.frames p.frame false;
              last_victim = victim;
            })
            i
            j
            p'
    release_Local victim number absent present = record {
      here = r.here;
      elsewhere = r.elsewhere;
      tables = r.tables;
      short = r.short;
      names = r.names;
      number = number_kept p' number;
      mine = λ a. absurd (cc (a, absent));
      fresh = λ a. absurd (cc (a, absent));
      others_used = λ k l q e b away.
          let other : q.frame ≢ p.frame = apart present k l q e b away in
          let inside : p.frame < length m.frames =
            lookup_bound m.frames p.frame (s.valid.resident i j p h present) in
          ground (arith, lookup-set m.frames p.frame q.frame false inside, other);
      others_bytes = λ k l q e b away. refl;
      others_block = λ k l away. refl;
      synced = λ a. absurd (cc (a, absent));
      frames_kept = length-set m.frames p.frame false;
      count_kept = refl;
      size_kept = refl;
      memory_kept = refl;
      clock_kept = refl;
    }

    -- The page comes into a used frame that holds no page and has the bytes of its block.
    pub map_Local :
        (frame : ℕ)
        → p'.page_number ≡ p.page_number
        → p'.frame ≡ frame
        → get_elem? m.frames frame ≡ some true
        → Unheld m frame
        → frame_bytes m frame ≡ block_of serves m.remote (name_at m i) j
        → Local serves m (record m { entries = entries }) i j p'
    map_Local frame number here used unheld synced = record {
      here = r.here;
      elsewhere = r.elsewhere;
      tables = r.tables;
      short = r.short;
      names = r.names;
      number = number_kept p' number;
      mine = λ a. ap (get_elem? m.frames) here ∙ used;
      fresh = λ a k l q e b f. absurd (unheld k l q e b (f ∙ here));
      others_used = λ k l q e b away. refl;
      others_bytes = λ k l q e b away. refl;
      others_block = λ k l away. refl;
      synced = λ a d. ap (frame_bytes m) here ∙ synced;
      frames_kept = refl;
      count_kept = refl;
      size_kept = refl;
      memory_kept = refl;
      clock_kept = refl;
    }

    -- A write into the frame of the page, which is dirty from then on.
    pub write_Local :
        (o : ℕ) (bytes : List ℕ)
        → p'.page_number ≡ p.page_number
        → p'.present ≡ true
        → p'.frame ≡ p.frame
        → p'.dirty ≡ true
        → p.present ≡ true
        → o + length bytes ≤ m.page_size
        → Local serves m
            (record m {
              entries = entries;
              physical_memory = spliced (p.frame * m.page_size + o) bytes m.physical_memory;
            })
            i
            j
            p'
    write_Local o bytes number present frame dirty was inside =
        let used : get_elem? m.frames p.frame ≡ some true = s.valid.resident i j p h was in
        let bound : p.frame < m.frame_count = used_bound m s.valid p.frame used in
        record {
          here = r.here;
          elsewhere = r.elsewhere;
          tables = r.tables;
          short = r.short;
          names = r.names;
          number = number_kept p' number;
          mine = λ a. ap (get_elem? m.frames) frame ∙ used;
          fresh = λ a k l q e b f. s.valid.alone k l i j q p e h b was (f ∙ frame);
          others_used = λ k l q e b away. refl;
          others_bytes = λ k l q e b away.
              other_frame m p.frame q.frame o bytes s.valid bound inside (apart was k l q e b away);
          others_block = λ k l away. refl;
          synced = λ a d. absurd (cc (d, dirty));
          frames_kept = refl;
          count_kept = refl;
          size_kept = refl;
          memory_kept =
              length-spliced (p.frame * m.page_size + o) bytes m.physical_memory
                (omega (arith, frame_room m s.valid p.frame bound));
          clock_kept = refl;
        }

  -- The block of a dirty page that is present changes, if any does.
  pub remote_Local :
      (remote : R)
      → p.present ≡ true
      → p.dirty ≡ true
      → ((k l : ℕ)
          → Elsewhere i j k l
          → block_of serves remote (name_at m k) l ≡ block_of serves m.remote (name_at m k) l)
      → Local serves m (record m { remote = remote }) i j p
  remote_Local remote present dirty blocks = record {
    here = h;
    elsewhere = λ k l away. refl;
    tables = s.valid.tables;
    short = s.valid.short;
    names = λ k. refl;
    number = s.valid.numbered i j p h;
    mine = λ a. s.valid.resident i j p h a;
    fresh = λ a k l q e b f. s.valid.alone k l i j q p e h b a f;
    others_used = λ k l q e b away. refl;
    others_bytes = λ k l q e b away. refl;
    others_block = blocks;
    synced = λ a d. absurd (cc (d, dirty));
    frames_kept = refl;
    count_kept = refl;
    size_kept = refl;
    memory_kept = refl;
    clock_kept = refl;
  }
