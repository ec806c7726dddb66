-- ===== src/Master/Aging/Live.antt =====
-- The blocks of a queue of master/src are live in any order of the queue.
use mathlib.Core.List.{Perm}
use mathlib.Core.List.{Permᴰ}
use mathlib.Core.Path.{ap₂}
use mathlib.Core.Logic.{∥∥₁_elim}
use tp_sistemas_operativos.Base.{
  ℕ, ◌≡◌, refl, sym, ◌∙◌, Bool, true, false, ◌&&◌, Option, none, some, List, [], ◌∷◌,
}
use tp_sistemas_operativos.Master.Commons.{All}
use tp_sistemas_operativos.Master.State.{Query, Store}
use tp_sistemas_operativos.Master.Ordering.{IsLive}

and_left : (a b : Bool) → (a && b) ≡ true → a ≡ true
and_left true b h = refl
and_left false b h = absurd cc

and_right : (a b : Bool) → (a && b) ≡ true → b ≡ true
and_right true b h = h
and_right false b h = absurd cc

and_swap : (a b c : Bool) → (a && (b && c)) ≡ (b && (a && c))
and_swap true b c = refl
and_swap false true c = refl
and_swap false false c = refl

is_live : Option Query → Bool
is_live none = false
is_live (some q) = true

all_live : Store Query → List ℕ → Bool
all_live queries [] = true
all_live queries (p ∷ ps) = is_live (queries p) && all_live queries ps

All-all_live :
    (queries : Store Query) (ps : List ℕ) → All (IsLive queries) ps → all_live queries ps ≡ true
unfolding all_live is_live
All-all_live queries [] h = refl
All-all_live queries (p ∷ ps) ((q, e), h) = rw e (All-all_live queries ps h)

live_cases : (o : Option Query) → is_live o ≡ true → (q : Query) × (o ≡ some q)
unfolding is_live
live_cases none h = absurd cc
live_cases (some q) h = (q, refl)

all_live-All :
    (queries : Store Query) (ps : List ℕ) → all_live queries ps ≡ true → All (IsLive queries) ps
unfolding all_live
all_live-All queries [] h = tt
all_live-All queries (p ∷ ps) h = (
  live_cases (queries p) (and_left (is_live (queries p)) _ h),
  all_live-All queries ps (and_right (is_live (queries p)) _ h),
)

all_live-perm :
    (queries : Store Query) {xs ys : List ℕ}
    → Permᴰ xs ys
    → all_live queries xs ≡ all_live queries ys
unfolding all_live
all_live-perm queries Permᴰ.nil = refl
all_live-perm queries (Permᴰ.cons e h) =
    ap₂ (λ p b. is_live (queries p) && b) e (all_live-perm queries h)
all_live-perm queries (Permᴰ.swap {a} {b} {a'} {b'} {l} e f) =
    rw (e, f) (and_swap (is_live (queries b')) (is_live (queries a')) (all_live queries l))
all_live-perm queries (Permᴰ.trans h k) = all_live-perm queries h ∙ all_live-perm queries k

-- Live blocks are live in any order.
pub IsLive-perm :
    (queries : Store Query) (xs ys : List ℕ)
    → Perm xs ys
    → All (IsLive queries) xs
    → All (IsLive queries) ys
IsLive-perm queries xs ys h live =
    all_live-All queries ys
      (∥∥₁_elim h (hlevel) (λ d. sym (all_live-perm queries d) ∙ All-all_live queries xs live))
