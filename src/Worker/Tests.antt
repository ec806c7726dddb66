-- ===== src/Worker/Tests.antt =====
-- Runs of the model of worker/src on a small page table and on one instruction.
use Prim.Native.String.{String}
use text.Mathlib.Text.{◌==◌ as str_eq}
use text.Mathlib.TextEquality.{eq_iff}
use tp_sistemas_operativos.Base.{
  ◌≡◌, ◌↔◌, ◌∙◌, refl, sym, true, false, some, [], ◌∷◌, arith, if◌then◌else◌,
}
use tp_sistemas_operativos.Worker.PageTable.{
  PageTable, blank, pt_create, pt_resize, pt_map, pt_unmap, pt_get_dirty_entries,
}
use tp_sistemas_operativos.Worker.PageTable.Entries.{
  IsValid, PlacedOrRefused, Resized, Created, pt_map-Changes, pt_unmap-Changes, pt_resize-Resized,
  pt_create-Created,
}
use tp_sistemas_operativos.Worker.PageTable.Dirty.{answer, dirty_of, pt_get_dirty_entries_lem}
use tp_sistemas_operativos.Worker.Decode.{
  Operation, Instruction, Strings, read_params, decode_instruction, decode_params,
  get_operation_type, get_file_tag,
}
use tp_sistemas_operativos.Worker.Decode.Words.{Spells, TellsApart}
use tp_sistemas_operativos.Worker.Decode.Grammar.{Line, decode_instruction_iff}

-- Page 0 is dirty in frame 5, page 1 is absent.
abbrev table : PageTable
table = record {
  entries = record (blank 0) { frame = 5; dirty = true; present = true } ∷ blank 1 ∷ [];
  page_count = 2;
  page_size = 16;
}

table-IsValid : IsValid table
table-IsValid = record { sized = refl; nonempty = omega arith }

pt_create-Created_example : Created 3 16 (pt_create true 3 16)
pt_create-Created_example = pt_create-Created 3 16 (omega arith) (omega arith)

pt_resize-Resized_example : Resized table 4 (pt_resize true table 4)
pt_resize-Resized_example = pt_resize-Resized table table-IsValid 4 (omega arith)

pt_map-Changes_example : PlacedOrRefused table 1 6 true (pt_map table 1 6)
pt_map-Changes_example = pt_map-Changes table 1 6 table-IsValid

pt_unmap-Changes_example : PlacedOrRefused table 0 0 false (pt_unmap table 0)
pt_unmap-Changes_example = pt_unmap-Changes table 0 table-IsValid

pt_get_dirty_entries_lem_example :
    pt_get_dirty_entries true table ≡ some (answer (dirty_of table.entries))
pt_get_dirty_entries_lem_example = pt_get_dirty_entries_lem table table-IsValid

-- The strings of one line, split and converted.
abbrev strings : Strings
strings = record {
  string_split = λ s separator.
      if str_eq s "READ a:b 16 8"
      then some ("READ" ∷ "a:b" ∷ "16" ∷ "8" ∷ [])
      else if str_eq s "a:b"
      then some ("a" ∷ "b" ∷ [])
      else some (s ∷ []);
  string_equals_ignore_case = λ s t. str_eq s t;
  atoi = λ s. if str_eq s "16" then 16 else if str_eq s "8" then 8 else 0;
}

abbrev read_instruction : Instruction
read_instruction = record { operation = Operation.read; params = read_params "a" "b" 16 8 }

-- The operation of a word that is the same as another.
same_operation :
    (w k : String) (op : Operation)
    → str_eq w k ≡ true
    → get_operation_type strings k ≡ op
    → get_operation_type strings w ≡ op
same_operation w k op e t = rw ((eq_iff w k).0 e) t

-- The operation that a word spells is the one that the decoder takes it for.
taken : (w : String) (op : Operation) → Spells strings w op → get_operation_type strings w ≡ op
unfolding get_operation_type
taken w Operation.create e = same_operation w "CREATE" _ e refl
taken w Operation.truncate e = same_operation w "TRUNCATE" _ e refl
taken w Operation.write e = same_operation w "WRITE" _ e refl
taken w Operation.read e = same_operation w "READ" _ e refl
taken w Operation.tag e = same_operation w "TAG" _ e refl
taken w Operation.commit e = same_operation w "COMMIT" _ e refl
taken w Operation.flush e = same_operation w "FLUSH" _ e refl
taken w Operation.delete e = same_operation w "DELETE" _ e refl
taken w Operation.end e = same_operation w "END" _ e refl
taken w Operation.unknown e = absurd e

strings-TellsApart : TellsApart strings
strings-TellsApart w op op' h h' = sym (taken w op h) ∙ taken w op' h'

decode_instruction_iff_example :
    (decode_instruction strings "READ a:b 16 8" ≡ some read_instruction)
    ↔ Line strings "READ a:b 16 8" read_instruction
decode_instruction_iff_example =
    decode_instruction_iff strings strings-TellsApart "READ a:b 16 8" read_instruction

-- The line decodes to the instruction.
read_decoded : decode_instruction strings "READ a:b 16 8" ≡ some read_instruction
unfolding decode_instruction decode_params get_operation_type get_file_tag
read_decoded = refl
