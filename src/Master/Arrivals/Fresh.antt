-- ===== src/Master/Arrivals/Fresh.antt =====
-- A new block in the tables of master/src: its address is in no list, and the other blocks of a
-- list keep their order.
use mathlib.Core.Logic.{∥∥₁_elim}
use mathlib.Core.List.{Mem, mem-cons, not-mem-nil}
use tp_sistemas_operativos.Base.{ℕ, ◌≤◌, ◌≡◌, none, some, List, [], ◌∷◌, arith, inl, inr, ==_iff}
use tp_sistemas_operativos.Master.Commons.{All, IsSorted}
use tp_sistemas_operativos.Master.State.{Query, Store, update}
use tp_sistemas_operativos.Master.Ordering.{IsLive, priority_of}

-- An address without a block is in no list of live blocks.
pub free_lem :
    {A : Type 0} (f : Store A) (p : ℕ) (l : List ℕ)
    → f p ≡ none
    → All (λ x. (a : A) × (f x ≡ some a)) l
    → ¬ Mem p l
free_lem f p [] free live k = not-mem-nil k
free_lem f p (x ∷ l) free ((a, e), live) k =
    ∥∥₁_elim (mem-cons.0 k) (hlevel)
      λ s. elim s [ inl same ↦ cc (free, e, same) | inr h ↦ free_lem f p l free live h ]

module _ (queries : Store Query) (p : ℕ) (q : Query) (free : queries p ≡ none) where
  priority_of-update_free :
      (x : ℕ) → IsLive queries x → priority_of (update queries p (some q)) x ≡ priority_of queries x
  priority_of-update_free x (a, e) = ground (arith, ==_iff x p, e, free)

  All-update_free :
      (x : ℕ) (l : List ℕ)
      → IsLive queries x
      → All (IsLive queries) l
      → All (λ y. priority_of queries x ≤ priority_of queries y) l
      → All
          (λ y.
            priority_of (update queries p (some q)) x ≤ priority_of (update queries p (some q)) y)
          l
  All-update_free x [] live lives h = tt
  All-update_free x (y ∷ l) live lives h = (
    omega (arith, h.0, priority_of-update_free x live, priority_of-update_free y lives.0),
    All-update_free x l live lives.1 h.1,
  )

  pub IsSorted-update_free :
      (l : List ℕ)
      → All (IsLive queries) l
      → IsSorted (priority_of queries) l
      → IsSorted (priority_of (update queries p (some q))) l
  IsSorted-update_free [] live s = tt
  IsSorted-update_free (x ∷ l) live s =
      (All-update_free x l live.0 live.1 s.0, IsSorted-update_free l live.1 s.1)
