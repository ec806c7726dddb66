-- ===== src/Worker/Memory/Tests/InMemory.antt =====
-- A storage for the runs of worker/src/memory/memory_manager.c that keeps its blocks in a function.
use Prim.Native.String.{String}
use text.Mathlib.Text.{◌==◌ as str_eq}
use text.Mathlib.TextEquality.{eq_iff}
use tp_sistemas_operativos.Base.{
  ℕ, ◌≡◌, ◌≢◌, refl, ap, ◌∙◌, inl, inr, Bool, true, false, ◌&&◌, List, [], ◌++◌, length, ◌==◌,
  Bool-cases, if◌then◌else◌, arith, take_all, append-nil,
}
use tp_sistemas_operativos.Worker.Memory.State.{Storage, ReadResult}
use tp_sistemas_operativos.Worker.Memory.Access.{padded}
use tp_sistemas_operativos.Worker.Memory.Contents.{Serves}

-- The blocks by file, tag and number.
abbrev pub Blocks : Type 0
Blocks = String → String → ℕ → List ℕ

abbrev same_block : String → String → ℕ → String → String → ℕ → Bool
same_block file tag_name k file' tag_name' k' =
    str_eq file' file && (str_eq tag_name' tag_name && k' == k)

abbrev pub in_memory : Storage Blocks
in_memory = record {
  read_block_from_storage = λ file tag_name k r. (ReadResult.block (r file tag_name k), r);
  write_block_to_storage = λ file tag_name k bytes r. (
    true,
    λ file' tag_name' k'.
        if same_block file tag_name k file' tag_name' k' then bytes else r file' tag_name' k',
  );
}

padded_full : (bytes : List ℕ) → length bytes ≡ 4 → padded 4 bytes ≡ bytes
padded_full bytes h =
    rw h (ap (λ xs. xs ++ []) (take_all 4 bytes (omega (arith, h))) ∙ append-nil bytes)

another :
    (file tag_name : String) (k : ℕ) (n : String × String) (j : ℕ)
    → (n ≡ (file, tag_name) → j ≢ k)
    → same_block file tag_name k n.0 n.1 j ≡ false
another file tag_name k n j other = elim (Bool-cases (str_eq n.0 file)) [
  | inr a ↦ ground (arith, a)
  | inl a ↦ elim (Bool-cases (str_eq n.1 tag_name)) [
    | inr b ↦ ground (arith, a, b)
    | inl b ↦
        let file_same = (eq_iff n.0 file).0 a in
        let tag_same = (eq_iff n.1 tag_name).0 b in
        let same : n ≡ (file, tag_name) = cc (file_same, tag_same) in
        let apart = other same in ground (arith, a, b, apart)
  ]
]

the_same : (file tag_name : String) (k : ℕ) → same_block file tag_name k file tag_name k ≡ true
the_same file tag_name k =
    rw ((eq_iff file file).1 refl, (eq_iff tag_name tag_name).1 refl) (ground arith)

pub in_memory-Serves : Serves in_memory 4
in_memory-Serves = record {
  stored = λ r n k. padded 4 (r n.0 n.1 k);
  read_keeps = λ file tag_name k r n j. refl;
  read_gives = λ file tag_name k r bytes h. cc h;
  write_keeps = λ file tag_name k bytes r n j other. rw (another file tag_name k n j other) refl;
  write_done = λ file tag_name k bytes r h ok. rw (the_same file tag_name k) (padded_full bytes h);
}
