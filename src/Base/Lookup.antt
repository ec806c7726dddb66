-- ===== src/Base/Lookup.antt =====
-- Elements of lists by index, after changes of the list.
use Prim.Native.Nat.{ℕ, zero, suc, ◌+◌, ◌≤◌, ◌<◌}
use mathlib.Core.Path.{◌≡◌, refl}
use mathlib.Core.List.{List, [], ◌∷◌, ◌++◌}
use mathlib.Core.Option.{none, some}
use native.Mathlib.Omega.{arith}
use native.Mathlib.Nat.{zero-add, suc-add}
use tp_sistemas_operativos.Base.Tests.{◌==◌, if◌then◌else◌}
use tp_sistemas_operativos.Base.Lists.{length, get_elem?, set, take, drop}

pub lookup_lt {ℓ} :
    {A : Type ℓ} (xs : List A) (i : ℕ) → i < length xs → (a : A) × (get_elem? xs i ≡ some a)
lookup_lt [] i h = absurd (omega arith)
lookup_lt (x ∷ xs) zero h = (x, refl)
lookup_lt (x ∷ xs) (suc i) h = lookup_lt xs i (omega arith)

pub lookup_ge {ℓ} : {A : Type ℓ} (xs : List A) (i : ℕ) → length xs ≤ i → get_elem? xs i ≡ none
lookup_ge [] i h = refl
lookup_ge (x ∷ xs) zero h = absurd (omega arith)
lookup_ge (x ∷ xs) (suc i) h = lookup_ge xs i (omega arith)

pub lookup-set {ℓ} :
    {A : Type ℓ} (xs : List A) (i j : ℕ) (v : A)
    → i < length xs
    → get_elem? (set xs i v) j ≡ (if j == i then some v else get_elem? xs j)
lookup-set [] i j v h = absurd (omega arith)
lookup-set (x ∷ xs) zero zero v h = refl
lookup-set (x ∷ xs) zero (suc j) v h = ground arith
lookup-set (x ∷ xs) (suc i) zero v h = ground arith
lookup-set (x ∷ xs) (suc i) (suc j) v h =
    let rest = lookup-set xs i j v (omega arith) in ground (arith, rest)

pub lookup-append_lt {ℓ} :
    {A : Type ℓ} (xs ys : List A) (i : ℕ) → i < length xs → get_elem? (xs ++ ys) i ≡ get_elem? xs i
lookup-append_lt [] ys i h = absurd (omega arith)
lookup-append_lt (x ∷ xs) ys zero h = refl
lookup-append_lt (x ∷ xs) ys (suc i) h = lookup-append_lt xs ys i (omega arith)

pub lookup-append_ge {ℓ} :
    {A : Type ℓ} (xs ys : List A) (i : ℕ) → get_elem? (xs ++ ys) (length xs + i) ≡ get_elem? ys i
lookup-append_ge [] ys i = rw zero-add
lookup-append_ge (x ∷ xs) ys i = rw suc-add (lookup-append_ge xs ys i)

pub lookup-take {ℓ} :
    {A : Type ℓ} (n : ℕ) (xs : List A) (i : ℕ) → i < n → get_elem? (take n xs) i ≡ get_elem? xs i
lookup-take zero xs i h = absurd (omega arith)
lookup-take (suc n) [] i h = refl
lookup-take (suc n) (x ∷ xs) zero h = refl
lookup-take (suc n) (x ∷ xs) (suc i) h = lookup-take n xs i (omega arith)

pub lookup_bound {ℓ} :
    {A : Type ℓ} (xs : List A) (i : ℕ) {a : A} → get_elem? xs i ≡ some a → i < length xs
lookup_bound [] i h = absurd (cc)
lookup_bound (x ∷ xs) zero h = omega arith
lookup_bound (x ∷ xs) (suc i) h = omega (arith, lookup_bound xs i h)

pub lookup-drop {ℓ} :
    {A : Type ℓ} (n : ℕ) (xs : List A) (i : ℕ) → get_elem? (drop n xs) i ≡ get_elem? xs (n + i)
lookup-drop zero xs i = rw zero-add
lookup-drop (suc n) [] i = refl
lookup-drop (suc n) (x ∷ xs) i = rw suc-add (lookup-drop n xs i)
