-- ===== src/Worker/Decode.antt =====
-- worker/src/query_interpreter/query_interpreter.c: the decoding of an instruction. The functions of
-- the commons library and of libc that it calls are parameters: an array of strings is the list of
-- its elements ahead of the NULL that ends it, and the int of atoi is given by its 64 bits.
pub mod Grammar
pub mod Words
use Prim.Native.String.{String}
use tp_sistemas_operativos.Base.{
  ℕ, ◌%◌, ◌^◌, Bool, true, false, Option, none, some, List, [], ◌∷◌, if◌then◌else◌,
}

pub data Operation : Type 0 where
  create truncate write read tag commit flush delete end unknown : Operation

-- The members of the union, and nothing for END.
pub data Params : Type 0 where
  file_tag : (file_name tag_name : String) → Params
  truncate_params : (file_name tag_name : String) (size : ℕ) → Params
  write_params : (file_name tag_name : String) (base : ℕ) (bytes : String) → Params
  read_params : (file_name tag_name : String) (base size : ℕ) → Params
  tag_params : (file_src tag_src file_dst tag_dst : String) → Params
  no_params : Params

pub record Instruction : Type 0 where
  pub operation : Operation
  pub params : Params

pub record Strings : Type 0 where
  pub string_split : String → String → Option (List String)
  pub string_equals_ignore_case : String → String → Bool
  pub atoi : String → ℕ

-- The two first parts of a name, where there are two.
abbrev pub file_and_tag : Option (List String) → Option (String × String)
file_and_tag (some (f ∷ t ∷ _)) = some (f, t)
file_and_tag _ = none

-- The end of a case of the switch, from the file and the tag that it found.
abbrev pub given : Option (String × String) → (String → String → Option Params) → Option Params
given none k = none
given (some (f, t)) k = k f t

abbrev pub instruction : Operation → Option Params → Option Instruction
instruction operation none = none
instruction operation (some params) = some (record { operation = operation; params = params })

module _ (s : Strings) where
  unfoldable pub get_operation_type : String → Operation
  get_operation_type operation_str =
      let is = s.string_equals_ignore_case operation_str in
      if is "CREATE"
      then Operation.create
      else if is "TRUNCATE"
      then Operation.truncate
      else if is "WRITE"
      then Operation.write
      else if is "READ"
      then Operation.read
      else if is "TAG"
      then Operation.tag
      else if is "COMMIT"
      then Operation.commit
      else if is "FLUSH"
      then Operation.flush
      else if is "DELETE"
      then Operation.delete
      else if is "END"
      then Operation.end
      else Operation.unknown

  unfoldable pub get_file_tag : String → Option (String × String)
  get_file_tag file_tag_str = file_and_tag (s.string_split file_tag_str ":")

  abbrev pub with_file_tag : String → (String → String → Option Params) → Option Params
  with_file_tag w k = given (get_file_tag w) k

  -- The cases of the switch, on the words behind the operation.
  unfoldable pub decode_params : Operation → List String → Option Params
  decode_params Operation.create (w ∷ _) = with_file_tag w (λ f t. some (file_tag f t))
  decode_params Operation.commit (w ∷ _) = with_file_tag w (λ f t. some (file_tag f t))
  decode_params Operation.flush (w ∷ _) = with_file_tag w (λ f t. some (file_tag f t))
  decode_params Operation.delete (w ∷ _) = with_file_tag w (λ f t. some (file_tag f t))
  decode_params Operation.truncate (w ∷ size ∷ _) =
      with_file_tag w (λ f t. some (truncate_params f t (s.atoi size)))
  decode_params Operation.write (w ∷ base ∷ bytes ∷ _) =
      with_file_tag w (λ f t. some (write_params f t (s.atoi base % 2 ^ 32) bytes))
  decode_params Operation.read (w ∷ base ∷ size ∷ _) =
      with_file_tag w (λ f t. some (read_params f t (s.atoi base % 2 ^ 32) (s.atoi size)))
  decode_params Operation.tag (src ∷ dst ∷ _) =
      with_file_tag src (λ fs ts. with_file_tag dst (λ fd td. some (tag_params fs ts fd td)))
  decode_params Operation.end _ = some no_params
  decode_params _ _ = none

  abbrev pub decode_words : Option (List String) → Option Instruction
  decode_words (some (w ∷ ws)) =
      instruction (get_operation_type w) (decode_params (get_operation_type w) ws)
  decode_words _ = none

  -- `none` is the result -1.
  unfoldable pub decode_instruction : String → Option Instruction
  decode_instruction raw_instruction = decode_words (s.string_split raw_instruction " ")
