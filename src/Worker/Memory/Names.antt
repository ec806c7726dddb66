-- ===== src/Worker/Memory/Names.antt =====
-- The search for an entry by its name in worker/src/memory/memory_manager.c.
use Prim.Native.String.{String}
use text.Mathlib.Text.{◌==◌ as str_eq}
use text.Mathlib.TextEquality.{eq_iff}
use tp_sistemas_operativos.Base.{
  ℕ, zero, suc, ◌+◌, ◌≡◌, ◌↔◌, inl, inr, refl, true, false, none, some, List, [], ◌∷◌, get_elem?,
  Bool-cases, arith,
}
use tp_sistemas_operativos.Worker.Memory.State.{FileTagEntry}
use tp_sistemas_operativos.Worker.Memory.View.{name_in_entry}
use tp_sistemas_operativos.Worker.Memory.Tables.{find_entry, names}

-- An entry that is found has the name.
pub find_entry-some :
    (file tag_name : String) (i : ℕ) (es : List FileTagEntry) (j : ℕ)
    → find_entry file tag_name i es ≡ some j
    → (k : ℕ) × (e : FileTagEntry) × (j ≡ i + k)
      × (get_elem? es k ≡ some e)
      × (names file tag_name e ≡ true)
unfolding find_entry
find_entry-some file tag_name i [] j found = absurd (cc found)
find_entry-some file tag_name i (x ∷ es) j found = elim (Bool-cases (names file tag_name x)) [
  | inl b ↦ (0, x, first b, refl, b)
  | inr b ↦
      let (k, e, at, there, named) =
        find_entry-some file tag_name (i + 1) es j (ground (arith, found, b)) in
      (suc k, e, omega (arith, at), there, named)
]
  where
    first : names file tag_name x ≡ true → j ≡ i + 0
    first b = let here : i ≡ j = ground (arith, found, b) in omega (arith, here)

pub names_iff :
    (file tag_name : String) (e : FileTagEntry)
    → (names file tag_name e ≡ true) ↔ (name_in_entry (some e) ≡ some (file, tag_name))
names_iff file tag_name e = (to, from)
  where
    to : names file tag_name e ≡ true → name_in_entry (some e) ≡ some (file, tag_name)
    to h = elim (Bool-cases (str_eq e.file file)) [
      | inl a ↦ elim (Bool-cases (str_eq e.tag_name tag_name)) [
        | inl b ↦ cc ((eq_iff e.file file).0 a, (eq_iff e.tag_name tag_name).0 b)
        | inr b ↦ absurd (ground (arith, h, a, b))
      ]
      | inr a ↦ absurd (ground (arith, h, a))
    ]

    from : name_in_entry (some e) ≡ some (file, tag_name) → names file tag_name e ≡ true
    from same =
        let a = (eq_iff e.file file).1 (cc same) in
        let b = (eq_iff e.tag_name tag_name).1 (cc same) in ground (arith, a, b)

-- Where no entry is found, none has the name.
pub find_entry-none :
    (file tag_name : String) (i : ℕ) (es : List FileTagEntry)
    → find_entry file tag_name i es ≡ none
    → (k : ℕ) (e : FileTagEntry) → get_elem? es k ≡ some e
    → names file tag_name e ≡ false
unfolding find_entry
find_entry-none file tag_name i [] miss k e h = absurd (cc h)
find_entry-none file tag_name i (x ∷ es) miss zero e h = ground (arith, miss, h)
find_entry-none file tag_name i (x ∷ es) miss (suc k) e h =
    find_entry-none file tag_name (i + 1) es (ground (arith, miss)) k e h
