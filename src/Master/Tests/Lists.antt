-- ===== src/Master/Tests/Lists.antt =====
-- An implementation of the list operations that master/src calls, by insertion sort.
use mathlib.Core.List.{Perm}
use mathlib.Core.List.Perm
use tp_sistemas_operativos.Base.{
  ℕ, zero, suc, ◌≤◌, ◌≡◌, refl, ap, Bool, List, [], ◌∷◌, ◌++◌, arith, length, ltb, if◌then◌else◌,
  if_elim, ltb→lt, ltb-false→le,
}
use tp_sistemas_operativos.Master.Commons.{Commons, All, IsSorted, erase, contains}

abbrev insert_at : List ℕ → ℕ → ℕ → List ℕ
insert_at l zero x = x ∷ l
insert_at [] (suc i) x = x ∷ []
insert_at (y ∷ l) (suc i) x = y ∷ insert_at l i x

pub insert_at_lem : (l r : List ℕ) (x : ℕ) → insert_at (l ++ r) (length l) x ≡ l ++ x ∷ r
insert_at_lem [] r x = refl
insert_at_lem (y ∷ l) r x = ap (◌∷◌ y) (insert_at_lem l r x)

abbrev insert_before : (ℕ → ℕ → Bool) → ℕ → List ℕ → List ℕ
insert_before before x [] = x ∷ []
insert_before before x (y ∷ l) = if before x y then x ∷ y ∷ l else y ∷ insert_before before x l

abbrev sort : (ℕ → ℕ → Bool) → List ℕ → List ℕ
sort before [] = []
sort before (x ∷ l) = insert_before before x (sort before l)

insert_before-perm :
    (before : ℕ → ℕ → Bool) (x : ℕ) (l : List ℕ) → Perm (insert_before before x l) (x ∷ l)
insert_before-perm before x [] = Perm.refl _
insert_before-perm before x (y ∷ l) =
    if_elim (λ r. Perm r (x ∷ y ∷ l)) (before x y) (λ _. Perm.refl _)
      (λ _. Perm.trans (Perm.cons y (insert_before-perm before x l)) (Perm.swap x y l))

pub sort-perm : (before : ℕ → ℕ → Bool) (l : List ℕ) → Perm (sort before l) l
sort-perm before [] = Perm.refl _
sort-perm before (x ∷ l) =
    Perm.trans (insert_before-perm before x (sort before l)) (Perm.cons x (sort-perm before l))

module _ (key : ℕ → ℕ) where
  All-insert :
      (k x : ℕ) (l : List ℕ)
      → k ≤ key x
      → All (λ y. k ≤ key y) l
      → All (λ y. k ≤ key y) (insert_before (λ a b. ltb (key a) (key b)) x l)
  All-insert k x [] le h = (le, tt)
  All-insert k x (y ∷ l) le h =
      if_elim (All (λ z. k ≤ key z)) (ltb (key x) (key y)) (λ _. (le, h))
        (λ _. (h.0, All-insert k x l le h.1))

  All-weaken : (j k : ℕ) (l : List ℕ) → j ≤ k → All (λ y. k ≤ key y) l → All (λ y. j ≤ key y) l
  All-weaken j k [] le h = tt
  All-weaken j k (y ∷ l) le h = (omega (arith, h.0), All-weaken j k l le h.1)

  insert-IsSorted :
      (x : ℕ) (l : List ℕ)
      → IsSorted key l
      → IsSorted key (insert_before (λ a b. ltb (key a) (key b)) x l)
  insert-IsSorted x [] s = (tt, tt)
  insert-IsSorted x (y ∷ l) s =
      if_elim (IsSorted key) (ltb (key x) (key y))
        (λ lt. (
          (
            omega (arith, ltb→lt (key x) (key y) lt),
            All-weaken (key x) (key y) l (omega (arith, ltb→lt (key x) (key y) lt)) s.0,
          ),
          s,
        ))
        (λ le.
          (All-insert (key y) x l (ltb-false→le (key x) (key y) le) s.0, insert-IsSorted x l s.1))

  pub sort-IsSorted : (l : List ℕ) → IsSorted key (sort (λ a b. ltb (key a) (key b)) l)
  sort-IsSorted [] = tt
  sort-IsSorted (x ∷ l) = insert-IsSorted x _ (sort-IsSorted l)

abbrev pub commons : Commons
commons = record {
  list_add = λ l x. l ++ x ∷ [];
  list_add_in_index = insert_at;
  list_remove_element = λ l x. (contains x l, erase x l);
  list_sort = λ l before. sort before l;
  list_add_lem = λ l x. refl;
  list_add_in_index_lem = insert_at_lem;
  list_remove_element_lem = λ l x. refl;
  list_sort-perm = λ l before. sort-perm before l;
  list_sort-IsSorted = λ l key. sort-IsSorted key l;
}
