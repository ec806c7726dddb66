-- ===== src/Worker/Memory/Contents.antt =====
-- What the memory manager of worker/src stands for: the contents of the pages of every file and
-- tag, wherever they are at the moment, in a frame or in the storage. `Serves` is what the manager
-- relies on of read_block_from_storage and write_block_to_storage and of the storage behind them.
use Prim.Native.String.{String}
use tp_sistemas_operativos.Base.{
  ℕ, ◌*◌, ◌≡◌, ◌≢◌, true, false, Option, none, some, List, [], length, get_elem?, take, drop,
}
use tp_sistemas_operativos.Worker.PageTable.{Entry}
use tp_sistemas_operativos.Worker.Memory.State.{Memory, Storage}
use tp_sistemas_operativos.Worker.Memory.View.{page, name_at, Valid}
use tp_sistemas_operativos.Worker.Memory.Access.{page_bytes}

-- The storage keeps a block of page_size bytes for every page. To read changes none of them and
-- gives the bytes of the block when it gives any; to write changes no other block, and when it
-- succeeds the block has the bytes.
pub record Serves {R : Type 0} (storage : Storage R) (page_size : ℕ) : Type 0 where
  pub stored : R → String × String → ℕ → List ℕ
  pub read_keeps :
      (file tag_name : String) (k : ℕ) (r : R) (n : String × String) (j : ℕ)
      → stored (storage.read_block_from_storage file tag_name k r).1 n j ≡ stored r n j
  pub read_gives :
      (file tag_name : String) (k : ℕ) (r : R) (bytes : List ℕ)
      → page_bytes page_size (storage.read_block_from_storage file tag_name k r).0 ≡ some bytes
      → bytes ≡ stored r (file, tag_name) k
  pub write_keeps :
      (file tag_name : String) (k : ℕ) (bytes : List ℕ) (r : R) (n : String × String) (j : ℕ)
      → (n ≡ (file, tag_name) → j ≢ k)
      → stored (storage.write_block_to_storage file tag_name k bytes r).1 n j ≡ stored r n j
  pub write_done :
      (file tag_name : String) (k : ℕ) (bytes : List ℕ) (r : R)
      → length bytes ≡ page_size
      → (storage.write_block_to_storage file tag_name k bytes r).0 ≡ true
      → stored (storage.write_block_to_storage file tag_name k bytes r).1 (file, tag_name) k ≡ bytes

-- The bytes of a frame.
abbrev pub frame_bytes : {R : Type 0} → Memory R → ℕ → List ℕ
frame_bytes m frame = take m.page_size (drop (frame * m.page_size) m.physical_memory)

module _ {R : Type 0} {storage : Storage R} {page_size : ℕ}
    (serves : Serves storage page_size) where
  abbrev pub block_of : R → Option (String × String) → ℕ → List ℕ
  block_of r none j = []
  block_of r (some n) j = serves.stored r n j

  abbrev pub content_of : Memory R → List ℕ → Option Entry → List ℕ
  content_of m block none = block
  content_of m block (some p) = elim p.present [ true ↦ frame_bytes m p.frame | false ↦ block ]

  -- The content of page j of entry i.
  abbrev pub content : Memory R → ℕ → ℕ → List ℕ
  content m i j = content_of m (block_of m.remote (name_at m i) j) (page m i j)

  -- A page that is present and clean has the bytes of its block.
  pub record Sound (m : Memory R) : Type 0 where
    pub valid : Valid m
    pub same_size : m.page_size ≡ page_size
    pub clean :
        (i j : ℕ) (p : Entry)
        → page m i j ≡ some p
        → p.present ≡ true
        → p.dirty ≡ false
        → frame_bytes m p.frame ≡ block_of m.remote (name_at m i) j

-- A used frame holds a page that is present.
abbrev pub Held : {R : Type 0} → Memory R → ℕ → Type 0
Held m frame =
    (i : ℕ) × (j : ℕ) × (p : Entry) × (page m i j ≡ some p) × (p.present ≡ true) × (p.frame ≡ frame)

-- Every used frame holds a page, but for the excepted one.
abbrev pub HeldBut : {R : Type 0} → Memory R → Option ℕ → Type 0
HeldBut m except =
    (frame : ℕ) → get_elem? m.frames frame ≡ some true → except ≢ some frame → Held m frame

-- The pages that are present were present before.
abbrev pub Shrinks : {R : Type 0} → Memory R → Memory R → Type 0
Shrinks m m' =
    (i j : ℕ) (p' : Entry)
    → page m' i j ≡ some p'
    → p'.present ≡ true
    → (p : Entry) × (page m i j ≡ some p) × (p.present ≡ true)

pub Shrinks-trans :
    {R : Type 0} (m₁ m₂ m₃ : Memory R) → Shrinks m₁ m₂ → Shrinks m₂ m₃ → Shrinks m₁ m₃
Shrinks-trans m₁ m₂ m₃ a b i j p h present =
    let (q, h', present') = b i j p h present in a i j q h' present'
