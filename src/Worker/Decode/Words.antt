-- ===== src/Worker/Decode/Words.antt =====
-- The words of the operations in worker/src/query_interpreter/query_interpreter.c, in a table of its
-- own. That no text is the same as two of them but for the case of their letters is what the
-- grammar needs of string_equals_ignore_case.
use Prim.Native.String.{String}
use tp_sistemas_operativos.Base.{◌≡◌, Bool, true, false, Option, none, some, if_elim}
use tp_sistemas_operativos.Worker.Decode.{Operation, Strings, get_operation_type}

-- The word that stands for an operation.
abbrev pub keyword : Operation → Option String
keyword Operation.create = some "CREATE"
keyword Operation.truncate = some "TRUNCATE"
keyword Operation.write = some "WRITE"
keyword Operation.read = some "READ"
keyword Operation.tag = some "TAG"
keyword Operation.commit = some "COMMIT"
keyword Operation.flush = some "FLUSH"
keyword Operation.delete = some "DELETE"
keyword Operation.end = some "END"
keyword Operation.unknown = none

module _ (s : Strings) where
  abbrev pub IsWord : String → Option String → Type 0
  IsWord w none = ⊥
  IsWord w (some k) = s.string_equals_ignore_case w k ≡ true

  -- The word of the operation, in letters of either case.
  abbrev pub Spells : String → Operation → Type 0
  Spells w op = IsWord w (keyword op)

  -- No text spells two operations.
  abbrev pub TellsApart : Type 0
  TellsApart = (w : String) (op op' : Operation) → Spells w op → Spells w op' → op ≡ op'

  -- The operation of a word is the one that it spells, and unknown where it spells none.
  pub operation_cases :
      (P : Operation → Type 0) (w : String)
      → ((op : Operation) → Spells w op → P op)
      → (((op : Operation) → Spells w op → ⊥) → P Operation.unknown)
      → P (get_operation_type s w)
  unfolding get_operation_type
  operation_cases P w known unknown = if_elim P (is "CREATE") (known Operation.create) λ n1.
      if_elim P (is "TRUNCATE") (known Operation.truncate) λ n2.
        if_elim P (is "WRITE") (known Operation.write) λ n3.
          if_elim P (is "READ") (known Operation.read) λ n4.
            if_elim P (is "TAG") (known Operation.tag) λ n5.
              if_elim P (is "COMMIT") (known Operation.commit) λ n6.
                if_elim P (is "FLUSH") (known Operation.flush) λ n7.
                  if_elim P (is "DELETE") (known Operation.delete) λ n8.
                    if_elim P (is "END") (known Operation.end) λ n9. unknown λ op h.
                      elim op as (λ op. Spells w op → ⊥) [
                        | Operation.create ↦ λ h. true≢false h n1
                        | Operation.truncate ↦ λ h. true≢false h n2
                        | Operation.write ↦ λ h. true≢false h n3
                        | Operation.read ↦ λ h. true≢false h n4
                        | Operation.tag ↦ λ h. true≢false h n5
                        | Operation.commit ↦ λ h. true≢false h n6
                        | Operation.flush ↦ λ h. true≢false h n7
                        | Operation.delete ↦ λ h. true≢false h n8
                        | Operation.end ↦ λ h. true≢false h n9
                        | Operation.unknown ↦ λ h. h
                      ]
                        h
    where
      is : String → Bool
      is k = s.string_equals_ignore_case w k

      true≢false : {b : Bool} → b ≡ true → b ≡ false → ⊥
      true≢false t f = cc (t, f)

  pub Spells-get_operation_type :
      TellsApart → (w : String) (op : Operation) → Spells w op → get_operation_type s w ≡ op
  Spells-get_operation_type apart w op h =
      operation_cases (λ x. x ≡ op) w (λ op' h'. apart w op' op h' h)
        (λ spells_none. absurd (spells_none op h))
