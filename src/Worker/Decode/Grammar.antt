-- ===== src/Worker/Decode/Grammar.antt =====
-- The instructions that worker/src/query_interpreter/query_interpreter.c accepts, as a grammar on
-- the words of a line, and its agreement with the decoder.
use Prim.Native.String.{String}
use tp_sistemas_operativos.Base.{◌%◌, ◌^◌, ◌≡◌, refl, ◌↔◌, Option, none, some, List, [], ◌∷◌, subst}
use tp_sistemas_operativos.Worker.Decode.{
  Operation, Params, file_tag, truncate_params, write_params, read_params, tag_params, no_params,
  Instruction, Strings, get_operation_type, get_file_tag, file_and_tag, given, with_file_tag,
  instruction, decode_words, decode_params, decode_instruction,
}
use tp_sistemas_operativos.Worker.Decode.Words.{
  Spells, TellsApart, operation_cases, Spells-get_operation_type,
}

module _ (s : Strings) where
  -- A name that has a file and a tag.
  pub data Names : String → String → String → Type 0 where
    names :
        {w f t : String} {rest : List String}
        → s.string_split w ":" ≡ some (f ∷ t ∷ rest)
        → Names w f t

  -- The words behind an operation, and what they mean.
  pub data Means : Operation → List String → Params → Type 0 where
    create :
        {w f t : String} {ws : List String}
        → Names w f t
        → Means Operation.create (w ∷ ws) (file_tag f t)
    commit :
        {w f t : String} {ws : List String}
        → Names w f t
        → Means Operation.commit (w ∷ ws) (file_tag f t)
    flush :
        {w f t : String} {ws : List String}
        → Names w f t
        → Means Operation.flush (w ∷ ws) (file_tag f t)
    delete :
        {w f t : String} {ws : List String}
        → Names w f t
        → Means Operation.delete (w ∷ ws) (file_tag f t)
    truncate :
        {w f t size : String} {ws : List String}
        → Names w f t
        → Means Operation.truncate (w ∷ size ∷ ws) (truncate_params f t (s.atoi size))
    write :
        {w f t base bytes : String} {ws : List String}
        → Names w f t
        → Means Operation.write
            (w ∷ base ∷ bytes ∷ ws)
            (write_params f t (s.atoi base % 2 ^ 32) bytes)
    read :
        {w f t base size : String} {ws : List String}
        → Names w f t
        → Means Operation.read
            (w ∷ base ∷ size ∷ ws)
            (read_params f t (s.atoi base % 2 ^ 32) (s.atoi size))
    tag :
        {w v f t g u : String} {ws : List String}
        → Names w f t
        → Names v g u
        → Means Operation.tag (w ∷ v ∷ ws) (tag_params f t g u)
    end : {ws : List String} → Means Operation.end ws no_params

  -- A line of words: an operation, and words with a meaning for it.
  pub data Line : String → Instruction → Type 0 where
    line :
        {raw w : String} {ws : List String} {op : Operation} {params : Params}
        → s.string_split raw " " ≡ some (w ∷ ws)
        → Spells s w op
        → Means op ws params
        → Line raw (record { operation = op; params = params })

  -- An operation that has words with a meaning is not unknown.
  Means-Spells :
      (w : String) {ws : List String} {p : Params}
      → Means (get_operation_type s w) ws p
      → Spells s w (get_operation_type s w)
  Means-Spells w {ws} {p} =
      operation_cases s (λ x. Means x ws p → Spells s w x) w (λ op' h _. h) (λ _ m'. meaningless m')
    where
      meaningless : {ws : List String} {p : Params} → Means Operation.unknown ws p → ⊥
      meaningless m = elim m [ ]

  Names-get_file_tag : {w f t : String} → Names w f t → get_file_tag s w ≡ some (f, t)
  unfolding get_file_tag
  Names-get_file_tag (names e) = rw e

  Means-decode_params :
      {op : Operation} {ws : List String} {p : Params}
      → Means op ws p
      → decode_params s op ws ≡ some p
  unfolding decode_params
  Means-decode_params (create n) = rw (Names-get_file_tag n)
  Means-decode_params (commit n) = rw (Names-get_file_tag n)
  Means-decode_params (flush n) = rw (Names-get_file_tag n)
  Means-decode_params (delete n) = rw (Names-get_file_tag n)
  Means-decode_params (truncate n) = rw (Names-get_file_tag n)
  Means-decode_params (write n) = rw (Names-get_file_tag n)
  Means-decode_params (read n) = rw (Names-get_file_tag n)
  Means-decode_params (tag n m) = rw (Names-get_file_tag n, Names-get_file_tag m)
  Means-decode_params end = refl

  Line-decode_instruction :
      TellsApart s
      → {raw : String} {i : Instruction} → Line raw i
      → decode_instruction s raw ≡ some i
  unfolding decode_instruction
  Line-decode_instruction apart (line e h m) =
      rw (e, Spells-get_operation_type s apart _ _ h, Means-decode_params m)

  -- What an answer says, where there is one.
  abbrev IsName : String → Option (String × String) → Type 0
  IsName w none = Unit
  IsName w (some (f, t)) = Names w f t

  abbrev IsMeaning : Operation → List String → Option Params → Type 0
  IsMeaning op ws none = Unit
  IsMeaning op ws (some p) = Means op ws p

  abbrev IsLine : String → Option Instruction → Type 0
  IsLine raw none = Unit
  IsLine raw (some i) = Line raw i

  get_file_tag-IsName : (w : String) → IsName w (get_file_tag s w)
  unfolding get_file_tag
  get_file_tag-IsName w = from (s.string_split w ":") refl
    where
      from : (r : Option (List String)) → s.string_split w ":" ≡ r → IsName w (file_and_tag r)
      from none e = tt
      from (some []) e = tt
      from (some (f ∷ [])) e = tt
      from (some (f ∷ t ∷ rest)) e = names e

  named :
      (P : Option Params → Type 0) (w : String) (k : String → String → Option Params)
      → P none
      → ((f t : String) → Names w f t → P (k f t))
      → P (with_file_tag s w k)
  named P w k absent present = from (get_file_tag s w) (get_file_tag-IsName w)
    where
      from : (r : Option (String × String)) → IsName w r → P (given r k)
      from none n = absent
      from (some (f, t)) n = present f t n

  decode_params-IsMeaning :
      (op : Operation) (ws : List String) → IsMeaning op ws (decode_params s op ws)
  unfolding decode_params
  decode_params-IsMeaning Operation.create [] = tt
  decode_params-IsMeaning Operation.create (w ∷ ws) =
      named (IsMeaning Operation.create (w ∷ ws)) w _ tt (λ f t n. Means.create n)
  decode_params-IsMeaning Operation.commit [] = tt
  decode_params-IsMeaning Operation.commit (w ∷ ws) =
      named (IsMeaning Operation.commit (w ∷ ws)) w _ tt (λ f t n. Means.commit n)
  decode_params-IsMeaning Operation.flush [] = tt
  decode_params-IsMeaning Operation.flush (w ∷ ws) =
      named (IsMeaning Operation.flush (w ∷ ws)) w _ tt (λ f t n. Means.flush n)
  decode_params-IsMeaning Operation.delete [] = tt
  decode_params-IsMeaning Operation.delete (w ∷ ws) =
      named (IsMeaning Operation.delete (w ∷ ws)) w _ tt (λ f t n. Means.delete n)
  decode_params-IsMeaning Operation.truncate [] = tt
  decode_params-IsMeaning Operation.truncate (w ∷ []) = tt
  decode_params-IsMeaning Operation.truncate (w ∷ size ∷ ws) =
      named (IsMeaning Operation.truncate (w ∷ size ∷ ws)) w _ tt (λ f t n. Means.truncate n)
  decode_params-IsMeaning Operation.write [] = tt
  decode_params-IsMeaning Operation.write (w ∷ []) = tt
  decode_params-IsMeaning Operation.write (w ∷ base ∷ []) = tt
  decode_params-IsMeaning Operation.write (w ∷ base ∷ bytes ∷ ws) =
      named (IsMeaning Operation.write (w ∷ base ∷ bytes ∷ ws)) w _ tt (λ f t n. Means.write n)
  decode_params-IsMeaning Operation.read [] = tt
  decode_params-IsMeaning Operation.read (w ∷ []) = tt
  decode_params-IsMeaning Operation.read (w ∷ base ∷ []) = tt
  decode_params-IsMeaning Operation.read (w ∷ base ∷ size ∷ ws) =
      named (IsMeaning Operation.read (w ∷ base ∷ size ∷ ws)) w _ tt (λ f t n. Means.read n)
  decode_params-IsMeaning Operation.tag [] = tt
  decode_params-IsMeaning Operation.tag (src ∷ []) = tt
  decode_params-IsMeaning Operation.tag (src ∷ dst ∷ ws) =
      named (IsMeaning Operation.tag (src ∷ dst ∷ ws)) src _ tt (λ fs ts n.
        named (IsMeaning Operation.tag (src ∷ dst ∷ ws)) dst _ tt (λ fd td m. Means.tag n m))
  decode_params-IsMeaning Operation.end ws = Means.end
  decode_params-IsMeaning Operation.unknown ws = tt

  decode_instruction-IsLine : (raw : String) → IsLine raw (decode_instruction s raw)
  unfolding decode_instruction
  decode_instruction-IsLine raw = from (s.string_split raw " ") refl
    where
      with_params :
          (w : String) (ws : List String)
          → s.string_split raw " " ≡ some (w ∷ ws)
          → (p : Option Params) → IsMeaning (get_operation_type s w) ws p
          → IsLine raw (instruction (get_operation_type s w) p)
      with_params w ws e none m = tt
      with_params w ws e (some p) m = line e (Means-Spells w m) m

      from : (r : Option (List String)) → s.string_split raw " " ≡ r → IsLine raw (decode_words s r)
      from none e = tt
      from (some []) e = tt
      from (some (w ∷ ws)) e =
          with_params w ws e _ (decode_params-IsMeaning (get_operation_type s w) ws)

  -- Where string_equals_ignore_case takes no text for two of the words of the operations, the
  -- decoder gives an instruction for a text exactly when the text is a line of the grammar that
  -- means it: one of the nine words, and behind it what its operation needs.
  pub decode_instruction_iff :
      TellsApart s
      → (raw : String) (i : Instruction) → (decode_instruction s raw ≡ some i) ↔ Line raw i
  decode_instruction_iff apart raw i =
      (λ e. subst (IsLine raw) e (decode_instruction-IsLine raw), Line-decode_instruction apart)
