-- ===== src/Serialization/Message.antt =====
-- Messages of utils/src/connection/serialization.c as lists of fields: what a sender adds to a
-- package and a receiver reads back in the same order, and the bytes that each field stands for.
use tp_sistemas_operativos.Base.{
  ℕ, ◌^◌, ◌≤◌, ◌<◌, Bool, true, false, Option, none, some, List, [], ◌∷◌, ◌++◌, length,
}
use tp_sistemas_operativos.Serialization.Buffer.{max_string_length, max_data_size}
use tp_sistemas_operativos.Serialization.Fields.{be16, be32}
use tp_sistemas_operativos.Serialization.Packages.{
  Package, PackageM, package_create_empty, package_add_uint8, package_add_int8, package_add_uint16,
  package_add_uint32, package_add_string, package_add_data, package_read_uint8, package_read_int8,
  package_read_uint16, package_read_uint32, package_read_string, package_read_data,
}

pub data Field : Type 0 where
  uint8 int8 uint16 uint32 : ℕ → Field
  string bytes : List ℕ → Field

pub data Kind : Type 0 where
  kind8 kind_signed kind16 kind32 kind_string kind_bytes : Kind

abbrev pub kind : Field → Kind
kind (uint8 v) = kind8
kind (int8 v) = kind_signed
kind (uint16 v) = kind16
kind (uint32 v) = kind32
kind (string s) = kind_string
kind (bytes s) = kind_bytes

-- The bytes of a field on the wire: numbers in network byte order, the others behind their length.
abbrev pub encode : Field → List ℕ
encode (uint8 v) = v ∷ []
encode (int8 v) = v ∷ []
encode (uint16 v) = be16 v
encode (uint32 v) = be32 v
encode (string s) = be32 (length s) ++ s
encode (bytes s) = be32 (length s) ++ s

abbrev pub encode_all : List Field → List ℕ
encode_all [] = []
encode_all (f ∷ fs) = encode f ++ encode_all fs

-- The values of a field's C type that a reader takes.
abbrev pub InRange : Field → Type 0
InRange (uint8 v) = v < 2 ^ 8
InRange (int8 v) = v < 2 ^ 8
InRange (uint16 v) = v < 2 ^ 16
InRange (uint32 v) = v < 2 ^ 32
InRange (string s) = length s ≤ max_string_length
InRange (bytes s) = (0 < length s) × (length s ≤ max_data_size)

abbrev pub AllInRange : List Field → Type 0
AllInRange [] = Unit {0}
AllInRange (f ∷ fs) = InRange f × AllInRange fs

unfoldable pub add_field : (ℕ → Bool) → Field → PackageM Bool
add_field alloc (uint8 v) = package_add_uint8 alloc v
add_field alloc (int8 v) = package_add_int8 alloc v
add_field alloc (uint16 v) = package_add_uint16 alloc v
add_field alloc (uint32 v) = package_add_uint32 alloc v
add_field alloc (string s) = package_add_string alloc s
add_field alloc (bytes s) = package_add_data alloc s

abbrev pub as_field : (ℕ → Field) → Option (Option ℕ × Package) → Option (Option Field × Package)
as_field c none = none
as_field c (some (none, p)) = some (none, p)
as_field c (some (some v, p)) = some (some (c v), p)

abbrev pub as_text :
    (List ℕ → Field) → Option (Option (List ℕ) × Package) → Option (Option Field × Package)
as_text c none = none
as_text c (some (none, p)) = some (none, p)
as_text c (some (some v, p)) = some (some (c v), p)

unfoldable pub read_field : (ℕ → Bool) → Kind → PackageM (Option Field)
read_field alloc kind8 p = as_field uint8 (package_read_uint8 p)
read_field alloc kind_signed p = as_field int8 (package_read_int8 p)
read_field alloc kind16 p = as_field uint16 (package_read_uint16 p)
read_field alloc kind32 p = as_field uint32 (package_read_uint32 p)
read_field alloc kind_string p = as_text string (package_read_string alloc p)
read_field alloc kind_bytes p = as_text bytes (package_read_data alloc p)

-- Field after field, up to the first that fails.
unfoldable pub add_all : (ℕ → Bool) → List Field → PackageM Bool
add_all alloc [] p = some (true, p)
add_all alloc (f ∷ fs) p = elim (add_field alloc f p) [
  | none ↦ none
  | some (false, q) ↦ some (false, q)
  | some (true, q) ↦ add_all alloc fs q
]

abbrev pub cons_field :
    Field → Option (Option (List Field) × Package) → Option (Option (List Field) × Package)
cons_field f none = none
cons_field f (some (none, p)) = some (none, p)
cons_field f (some (some fs, p)) = some (some (f ∷ fs), p)

unfoldable pub read_all : (ℕ → Bool) → List Kind → PackageM (Option (List Field))
read_all alloc [] p = some (some [], p)
read_all alloc (k ∷ ks) p = elim (read_field alloc k p) [
  | none ↦ none
  | some (none, q) ↦ some (none, q)
  | some (some f, q) ↦ cons_field f (read_all alloc ks q)
]

-- A package with an operation code and all of the fields.
unfoldable pub build : (ℕ → Bool) → ℕ → List Field → Option (Bool × Package)
build alloc code fields = elim (package_create_empty alloc code) [
  | none ↦ none
  | some p ↦ add_all alloc fields p
]
