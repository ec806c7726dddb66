-- ===== src/Worker/Memory/Keeps.antt =====
-- Steps of worker/src/memory/memory_manager.c that leave every page's content as it is.
use Prim.Native.String.{String}
use tp_sistemas_operativos.Base.{
  ℕ, ◌≡◌, ◌≢◌, ◌<◌, inl, inr, refl, sym, ap, ◌∙◌, Bool, true, Option, none, some, List, length,
  get_elem?, Bool-cases, Option-cases,
}
use tp_sistemas_operativos.Worker.PageTable.{Entry}
use tp_sistemas_operativos.Worker.Memory.State.{Memory, Storage, Victim}
use tp_sistemas_operativos.Worker.Memory.View.{page, name_at}
use tp_sistemas_operativos.Worker.Memory.Contents.{Serves, frame_bytes, block_of, content, Sound}
use tp_sistemas_operativos.Worker.Memory.Local.{Local, where_is, local_content}

-- The entry has the page.
abbrev pub Has : {R : Type 0} → Memory R → ℕ → ℕ → Type 0
Has m i j = (p : Entry) × (page m i j ≡ some p)

module _ {R : Type 0} {storage : Storage R} {page_size : ℕ}
    (serves : Serves storage page_size) where
  -- The entries keep their names and their pages, and the pages their contents.
  pub record Keeps (m m' : Memory R) : Type 0 where
    pub names : (i : ℕ) → name_at m' i ≡ name_at m i
    pub has : (i j : ℕ) → Has m i j → Has m' i j
    pub contents : (i j : ℕ) → content serves m' i j ≡ content serves m i j

  pub Keeps-refl : (m : Memory R) → Keeps m m
  Keeps-refl m = record { names = λ _. refl; has = λ _ _ p. p; contents = λ _ _. refl }

  pub Keeps-trans : {m₁ m₂ m₃ : Memory R} → Keeps m₁ m₂ → Keeps m₂ m₃ → Keeps m₁ m₃
  Keeps-trans a b = record {
    names = λ i. b.names i ∙ a.names i;
    has = λ i j p. b.has i j (a.has i j p);
    contents = λ i j. b.contents i j ∙ a.contents i j;
  }

  local-Has :
      {m m' : Memory R} {i j : ℕ} {p' : Entry}
      → Local serves m m' i j p'
      → (k l : ℕ) → Has m k l
      → Has m' k l
  local-Has {m} {m'} {i} {j} {p'} c k l (p, h) = elim (where_is i j k l) [
    | inl (a, b) ↦ (p', ap (λ k. page m' k l) a ∙ ap (λ l. page m' i l) b ∙ c.here)
    | inr away ↦ (p, c.elsewhere k l away ∙ h)
  ]

  pub local_Keeps :
      {m m' : Memory R} {i j : ℕ} {p' : Entry}
      → Sound serves m
      → Local serves m m' i j p'
      → content serves m' i j ≡ content serves m i j
      → Keeps m m'
  local_Keeps {m} {m'} {i} {j} s c same = record {
    names = c.names;
    has = local-Has c;
    contents = λ k l. elim (where_is i j k l) [
      | inl (a, b) ↦
          ap (λ k. content serves m' k l) a
          ∙ ap (λ l. content serves m' i l) b
          ∙ same
          ∙ sym (ap (λ l. content serves m i l) b)
          ∙ sym (ap (λ k. content serves m k l) a)
      | inr away ↦ local_content serves s c k l away
    ];
  }

  -- Changes beside the pages: of frames and bytes that no page is in, of the storage where its
  -- blocks stay, and of what no page depends on.
  module _ (m : Memory R) (memory : List ℕ) (frames : List Bool) (remote : R)
      (clock_pointer now : ℕ) (last_victim : Option Victim) where
    abbrev pub aside : Memory R
    aside = record m {
      physical_memory = memory;
      frames = frames;
      remote = remote;
      clock_pointer = clock_pointer;
      global_timestamp = now;
      last_victim = last_victim;
    }

    pub record Aside : Type 0 where
      pub used :
          (k l : ℕ) (q : Entry)
          → page m k l ≡ some q
          → q.present ≡ true
          → get_elem? frames q.frame ≡ some true
      pub bytes :
          (k l : ℕ) (q : Entry)
          → page m k l ≡ some q
          → q.present ≡ true
          → frame_bytes aside q.frame ≡ frame_bytes m q.frame
      pub blocks :
          (n : String × String) (j : ℕ) → serves.stored remote n j ≡ serves.stored m.remote n j
      pub length_memory : length memory ≡ length m.physical_memory
      pub length_frames : length frames ≡ length m.frames
      pub pointed : m.frame_count ≢ 0 → clock_pointer < m.frame_count

    module _ (s : Sound serves m) (a : Aside) where
      blocks_of :
          (n : Option (String × String)) (j : ℕ)
          → block_of serves remote n j ≡ block_of serves m.remote n j
      blocks_of none j = refl
      blocks_of (some n) j = a.blocks n j

      pub aside-Sound : Sound serves aside
      aside-Sound = record {
        valid = record {
          tables = s.valid.tables;
          short = s.valid.short;
          numbered = s.valid.numbered;
          resident = a.used;
          alone = s.valid.alone;
          named = s.valid.named;
          sized = a.length_frames ∙ s.valid.sized;
          counted = s.valid.counted;
          fits = rw a.length_memory s.valid.fits;
          positive = s.valid.positive;
          pointed = a.pointed;
        };
        same_size = s.same_size;
        clean = λ i j p h b d.
            a.bytes i j p h b ∙ s.clean i j p h b d ∙ sym (blocks_of (name_at m i) j);
      }

      pub aside-Keeps : Keeps m aside
      aside-Keeps = record {
        names = λ i. refl;
        has = λ i j p. p;
        contents = λ i j. elim (Option-cases (page m i j)) [
          | inl e ↦ rw e (blocks_of (name_at m i) j)
          | inr (p, e) ↦ elim (Bool-cases p.present) [
            | inl b ↦ rw (e, b) (a.bytes i j p e b)
            | inr b ↦ rw (e, b) (blocks_of (name_at m i) j)
          ]
        ];
      }
