-- ===== src/Master/Invariant.antt =====
-- What holds of the tables of master/src between two calls, and how updates of a block keep it.
use mathlib.Core.Path.{fun_ext}
use mathlib.Core.List.{Nodup, Nodup-cons, Mem, mem-cons_self, mem-cons_of_mem, mem-append_right}
use tp_sistemas_operativos.Base.{
  ℕ, ◌≡◌, refl, subst, true, false, Option, some, List, [], ◌∷◌, ◌++◌, arith, ◌==◌, if_elim, ==_iff,
}
use tp_sistemas_operativos.Master.Commons.{All, IsSorted, contains}
use tp_sistemas_operativos.Master.State.{Master, Query, Worker, Store, update}
use tp_sistemas_operativos.Master.Queries.{by_priority}
use tp_sistemas_operativos.Master.Ordering.{IsLive, priority_of}

abbrev pub IsLiveWorker : Store Worker → ℕ → Type 0
IsLiveWorker workers p = (w : Worker) × (workers p ≡ some w)

-- The listed blocks are live, no query is twice among the ready and running ones, no worker twice
-- among the idle and busy ones, and the ready queue is in the order of priorities where the
-- algorithm is PRIORITY.
pub record WellFormed (m : Master) : Type 0 where
  pub ready_live : All (IsLive m.queries) m.ready_queue
  pub running_live : All (IsLive m.queries) m.running_list
  pub idle_live : All (IsLiveWorker m.workers) m.idle_list
  pub busy_live : All (IsLiveWorker m.workers) m.busy_list
  pub distinct_queries : Nodup (m.ready_queue ++ m.running_list)
  pub distinct_workers : Nodup (m.idle_list ++ m.busy_list)
  pub sorted : by_priority m ≡ true → IsSorted (priority_of m.queries) m.ready_queue

pub All-map {ℓ κ μ} :
    {A : Type ℓ} (P : A → Type κ) (Q : A → Type μ) (l : List A)
    → ((a : A) → P a → Q a)
    → All P l
    → All Q l
All-map P Q [] f h = tt
All-map P Q (x ∷ l) f h = (f x h.0, All-map P Q l f h.1)

pub live-update :
    {A : Type 0} (f : Store A) (p : ℕ) (v : A) (x : ℕ)
    → (a : A) × (f x ≡ some a)
    → (a : A) × (update f p (some v) x ≡ some a)
live-update f p v x (a, e) =
    if_elim (λ o. (a : _) × (o ≡ some a)) (x == p) (λ _. (v, refl)) (λ _. (a, e))

pub update_self : {A : Type 0} (f : Store A) (p : ℕ) (v : Option A) → update f p v p ≡ v
update_self f p v = ground arith

-- A block that keeps its priority keeps the order of every queue.
pub priority_of-update :
    (f : Store Query) (p : ℕ) (old q : Query)
    → f p ≡ some old
    → q.priority ≡ old.priority
    → priority_of (update f p (some q)) ≡ priority_of f
priority_of-update f p old q e same = fun_ext λ x. ground (arith, ==_iff x p)

pub not_contains : (x : ℕ) (l : List ℕ) → ¬ Mem x l → contains x l ≡ false
not_contains x [] h = refl
not_contains x (y ∷ l) h =
    if_elim (λ b. b ≡ false) (y == x)
      (λ e. absurd (h (subst (λ z. Mem z (y ∷ l)) ((==_iff y x).0 e) mem-cons_self)))
      (λ _. not_contains x l (λ k. h (mem-cons_of_mem y k)))

-- The head of a list without repetitions is not in what follows.
pub head_not_contained : (x : ℕ) (l r : List ℕ) → Nodup (x ∷ (l ++ r)) → contains x r ≡ false
head_not_contained x l r h = not_contains x r (λ k. (Nodup-cons.0 h).0 (mem-append_right l k))
