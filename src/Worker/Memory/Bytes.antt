-- ===== src/Worker/Memory/Bytes.antt =====
-- The physical memory of worker/src/memory/memory_manager.c, byte by byte, after a memcpy into a
-- frame.
use native.Mathlib.Nat.{mul-le-mul_right}
use tp_sistemas_operativos.Base.{
  ℕ, suc, ◌+◌, ◌-◌, ◌*◌, ◌≡◌, ◌≢◌, ◌≤◌, ◌<◌, ◌⊎◌, inl, inr, refl, sym, ap, ◌∙◌, none, some, List,
  [], ◌∷◌, ◌++◌, length, get_elem?, take, drop, ltb, ltb→lt, ltb-false→le, Bool-cases, drop-append,
  take-append, lookup-append_lt, lookup-append_ge, lookup-take, lookup-drop, lookup_ge, length-take,
  length-append, length-drop, arith,
}

pub extensional {ℓ} :
    {A : Type ℓ} (xs ys : List A) → ((i : ℕ) → get_elem? xs i ≡ get_elem? ys i) → xs ≡ ys
extensional [] [] h = refl
extensional [] (y ∷ ys) h = absurd (cc (h 0))
extensional (x ∷ xs) [] h = absurd (cc (h 0))
extensional (x ∷ xs) (y ∷ ys) h =
    let rest = extensional xs ys (λ i. h (suc i)) in
    let first : some x ≡ some y = h 0 in cc (rest, first)

-- A list with other elements from index a on.
abbrev pub spliced {ℓ} : {A : Type ℓ} → ℕ → List A → List A → List A
spliced a bs xs = take a xs ++ (bs ++ drop (a + length bs) xs)

module _ {ℓ} {A : Type ℓ} (a : ℕ) (bs xs : List A) (room : a + length bs ≤ length xs) where
  pub length-spliced : length (spliced a bs xs) ≡ length xs
  length-spliced = omega (
    arith,
    length-append (take a xs) (bs ++ drop (a + length bs) xs),
    length-append bs (drop (a + length bs) xs),
    length-take a xs,
    length-drop (a + length bs) xs,
    room,
  )

  before : length (take a xs) ≡ a
  before = omega (arith, length-take a xs, room)

  pub lookup-spliced_lt : (i : ℕ) → i < a → get_elem? (spliced a bs xs) i ≡ get_elem? xs i
  lookup-spliced_lt i h =
      lookup-append_lt (take a xs) (bs ++ drop (a + length bs) xs) i (omega (arith, before))
      ∙ lookup-take a xs i h

  shifted :
      (i : ℕ) → get_elem? (spliced a bs xs) (a + i) ≡ get_elem? (bs ++ drop (a + length bs) xs) i
  shifted i =
      ap (λ n. get_elem? (spliced a bs xs) (n + i)) (sym before)
      ∙ lookup-append_ge (take a xs) (bs ++ drop (a + length bs) xs) i

  pub lookup-spliced_in :
      (i : ℕ) → i < length bs → get_elem? (spliced a bs xs) (a + i) ≡ get_elem? bs i
  lookup-spliced_in i h = shifted i ∙ lookup-append_lt bs (drop (a + length bs) xs) i h

  pub lookup-spliced_ge :
      (i : ℕ) → a + length bs ≤ i → get_elem? (spliced a bs xs) i ≡ get_elem? xs i
  lookup-spliced_ge i h =
      ap (get_elem? (spliced a bs xs)) (omega arith)
      ∙ shifted (length bs + (i - (a + length bs)))
      ∙ lookup-append_ge bs (drop (a + length bs) xs) (i - (a + length bs))
      ∙ lookup-drop (a + length bs) xs (i - (a + length bs))
      ∙ ap (get_elem? xs) (omega arith)

-- Outside of what was written, and outside of the list.
pub lookup-spliced_out {ℓ} :
    {A : Type ℓ} (a : ℕ) (bs xs : List A) (i : ℕ)
    → a + length bs ≤ length xs
    → (a ≤ i → ¬ (i < a + length bs))
    → get_elem? (spliced a bs xs) i ≡ get_elem? xs i
lookup-spliced_out a bs xs i room away = elim (Bool-cases (ltb i a)) [
  | inl h ↦ lookup-spliced_lt a bs xs room i (ltb→lt i a h)
  | inr h ↦ elim (Bool-cases (ltb i (a + length bs))) [
    | inl k ↦ absurd (away (ltb-false→le i a h) (ltb→lt i (a + length bs) k))
    | inr k ↦ lookup-spliced_ge a bs xs room i (ltb-false→le i (a + length bs) k)
  ]
]

-- The piece of n elements from index b on.
abbrev pub piece {ℓ} : {A : Type ℓ} → ℕ → ℕ → List A → List A
piece b n xs = take n (drop b xs)

pub lookup-take_ge {ℓ} :
    {A : Type ℓ} (n : ℕ) (xs : List A) (i : ℕ) → n ≤ i → get_elem? (take n xs) i ≡ none
lookup-take_ge n xs i h = lookup_ge (take n xs) i (omega (arith, length-take n xs))

pub lookup-piece {ℓ} :
    {A : Type ℓ} (b n : ℕ) (xs : List A) (i : ℕ)
    → i < n
    → get_elem? (piece b n xs) i ≡ get_elem? xs (b + i)
lookup-piece b n xs i h = lookup-take n (drop b xs) i h ∙ lookup-drop b xs i

pub length-piece {ℓ} :
    {A : Type ℓ} (b n : ℕ) (xs : List A) → b + n ≤ length xs → length (piece b n xs) ≡ n
length-piece b n xs h = omega (arith, length-take n (drop b xs), length-drop b xs)

-- Two lists that agree on the indices of a piece have the same piece.
pub piece_same {ℓ} :
    {A : Type ℓ} (b n : ℕ) (xs ys : List A)
    → ((i : ℕ) → i < n → get_elem? xs (b + i) ≡ get_elem? ys (b + i))
    → piece b n xs ≡ piece b n ys
piece_same b n xs ys h = extensional (piece b n xs) (piece b n ys) λ i.
    elim (Bool-cases (ltb i n)) [
      | inl k ↦
          let inside : i < n = ltb→lt i n k in
          lookup-piece b n xs i inside ∙ h i inside ∙ sym (lookup-piece b n ys i inside)
      | inr k ↦
          let outside : n ≤ i = ltb-false→le i n k in
          lookup-take_ge n (drop b xs) i outside ∙ sym (lookup-take_ge n (drop b ys) i outside)
    ]

-- A piece that lies apart from what was written stays.
pub piece_apart {ℓ} :
    {A : Type ℓ} (b n a : ℕ) (bs xs : List A)
    → a + length bs ≤ length xs
    → (b + n ≤ a) ⊎ (a + length bs ≤ b)
    → piece b n (spliced a bs xs) ≡ piece b n xs
piece_apart b n a bs xs room apart = piece_same b n (spliced a bs xs) xs λ i h.
    lookup-spliced_out a bs xs (b + i) room
      λ low high. elim apart [ inl k ↦ absurd (omega arith) | inr k ↦ absurd (omega arith) ]

-- What was written inside of a piece is written into the piece.
pub piece_inside {ℓ} :
    {A : Type ℓ} (b n o : ℕ) (bs xs : List A)
    → b + n ≤ length xs
    → o + length bs ≤ n
    → piece b n (spliced (b + o) bs xs) ≡ spliced o bs (piece b n xs)
piece_inside b n o bs xs room inside = extensional _ _ same
  where
    whole : (b + o) + length bs ≤ length xs
    whole = omega arith

    part : o + length bs ≤ length (piece b n xs)
    part = omega (arith, length-piece b n xs room)

    inner :
        (i : ℕ)
        → i < n
        → get_elem? (spliced (b + o) bs xs) (b + i) ≡ get_elem? (spliced o bs (piece b n xs)) i
    inner i h = elim (Bool-cases (ltb i o)) [
      | inl k ↦
          lookup-spliced_lt (b + o) bs xs whole (b + i) (omega (arith, ltb→lt i o k))
          ∙ sym (lookup-piece b n xs i h)
          ∙ sym (lookup-spliced_lt o bs (piece b n xs) part i (ltb→lt i o k))
      | inr k ↦ elim (Bool-cases (ltb i (o + length bs))) [
        | inl l ↦
            let written : i - o < length bs =
              omega (arith, ltb→lt i (o + length bs) l, ltb-false→le i o k) in
            ap (get_elem? (spliced (b + o) bs xs)) (omega (arith, ltb-false→le i o k))
            ∙ lookup-spliced_in (b + o) bs xs whole (i - o) written
            ∙ sym (lookup-spliced_in o bs (piece b n xs) part (i - o) written)
            ∙ ap (get_elem? (spliced o bs (piece b n xs))) (omega (arith, ltb-false→le i o k))
        | inr l ↦
            lookup-spliced_ge (b + o) bs xs whole (b + i)
              (omega (arith, ltb-false→le i (o + length bs) l))
            ∙ sym (lookup-piece b n xs i h)
            ∙ sym (lookup-spliced_ge o bs (piece b n xs) part i (ltb-false→le i (o + length bs) l))
      ]
    ]

    same :
        (i : ℕ)
        → get_elem? (piece b n (spliced (b + o) bs xs)) i
          ≡ get_elem? (spliced o bs (piece b n xs)) i
    same i = elim (Bool-cases (ltb i n)) [
      | inl k ↦ lookup-piece b n (spliced (b + o) bs xs) i (ltb→lt i n k) ∙ inner i (ltb→lt i n k)
      | inr k ↦
          lookup-take_ge n (drop b (spliced (b + o) bs xs)) i (ltb-false→le i n k)
          ∙ sym (
              lookup_ge (spliced o bs (piece b n xs)) i (
                omega (
                  arith,
                  length-spliced o bs (piece b n xs) part,
                  length-piece b n xs room,
                  ltb-false→le i n k,
                )))
    ]

-- Frames do not overlap.
pub frames_apart : (f g ps : ℕ) → f ≢ g → (f * ps + ps ≤ g * ps) ⊎ (g * ps + ps ≤ f * ps)
frames_apart f g ps other = elim (Bool-cases (ltb f g)) [
  | inl h ↦ inl (next f g (ltb→lt f g h))
  | inr h ↦ inr (next g f (below (ltb-false→le f g h)))
]
  where
    below : g ≤ f → g < f
    below h = omega (arith, other)

    next : (a b : ℕ) → a < b → a * ps + ps ≤ b * ps
    next a b h = omega (arith, mul-le-mul_right ps h)

-- A piece that was written over as a whole.
pub piece_over {ℓ} :
    {A : Type ℓ} (b : ℕ) (bs xs : List A)
    → b + length bs ≤ length xs
    → piece b (length bs) (spliced b bs xs) ≡ bs
piece_over b bs xs room =
    ap (take (length bs)) (
      drop-append b (take b xs) (bs ++ drop (b + length bs) xs)
        (omega (arith, length-take b xs, room)))
    ∙ take-append (length bs) bs (drop (b + length bs) xs) refl

-- A piece of a piece.
pub piece-piece {ℓ} :
    {A : Type ℓ} (b n o count : ℕ) (xs : List A)
    → o + count ≤ n
    → piece o count (piece b n xs) ≡ piece (b + o) count xs
piece-piece b n o count xs inside =
    extensional (piece o count (piece b n xs)) (piece (b + o) count xs) λ i.
      elim (Bool-cases (ltb i count)) [
        | inl k ↦
            let in_count : i < count = ltb→lt i count k in
            lookup-piece o count (piece b n xs) i in_count
            ∙ lookup-piece b n xs (o + i) (omega arith)
            ∙ ap (get_elem? xs) (omega arith)
            ∙ sym (lookup-piece (b + o) count xs i in_count)
        | inr k ↦
            let out : count ≤ i = ltb-false→le i count k in
            lookup-take_ge count (drop o (piece b n xs)) i out
            ∙ sym (lookup-take_ge count (drop (b + o) xs) i out)
      ]
