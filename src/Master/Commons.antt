-- ===== src/Master/Commons.antt =====
-- The list operations of the commons library that master/src calls, as an interface: the library is
-- not part of the repository. A t_list of pointers is the list of their addresses. The laws are the
-- documented behaviour: an addition goes to the end or to an index, an element that is removed is
-- the first of its address, and a sort leaves a rearrangement in order.
use mathlib.Core.List.{Perm}
use tp_sistemas_operativos.Base.{
  ℕ, arith, ◌≤◌, ◌≡◌, Bool, true, false, List, [], ◌∷◌, ◌++◌, length, ltb, ◌==◌, if◌then◌else◌,
}

abbrev pub All {ℓ κ} : {A : Type ℓ} → (A → Type κ) → List A → Type κ
All P [] = Unit
All P (x ∷ xs) = P x × All P xs

-- In the order of a key, equal keys anywhere.
abbrev pub IsSorted : (ℕ → ℕ) → List ℕ → Type 0
IsSorted key [] = Unit {0}
IsSorted key (x ∷ xs) = All (λ y. key x ≤ key y) xs × IsSorted key xs

-- A list without the first occurrence of an address.
abbrev pub erase : ℕ → List ℕ → List ℕ
erase x [] = []
erase x (y ∷ ys) = if y == x then ys else y ∷ erase x ys

abbrev pub contains : ℕ → List ℕ → Bool
contains x [] = false
contains x (y ∷ ys) = if y == x then true else contains x ys

pub record Commons : Type 0 where
  pub list_add : List ℕ → ℕ → List ℕ
  pub list_add_in_index : List ℕ → ℕ → ℕ → List ℕ
  pub list_remove_element : List ℕ → ℕ → Bool × List ℕ
  pub list_sort : List ℕ → (ℕ → ℕ → Bool) → List ℕ
  pub list_add_lem : (l : List ℕ) (x : ℕ) → list_add l x ≡ l ++ x ∷ []
  pub list_add_in_index_lem :
      (l r : List ℕ) (x : ℕ) → list_add_in_index (l ++ r) (length l) x ≡ l ++ x ∷ r
  pub list_remove_element_lem :
      (l : List ℕ) (x : ℕ) → list_remove_element l x ≡ (contains x l, erase x l)
  pub list_sort-perm : (l : List ℕ) (before : ℕ → ℕ → Bool) → Perm (list_sort l before) l
  pub list_sort-IsSorted :
      (l : List ℕ) (key : ℕ → ℕ) → IsSorted key (list_sort l (λ a b. ltb (key a) (key b)))

pub erase-append : (x : ℕ) (l : List ℕ) → contains x l ≡ false → erase x (l ++ x ∷ []) ≡ l
erase-append x [] h = ground arith
erase-append x (y ∷ l) h = ground (arith, erase-append x l)
