-- ===== src/Master/Dispatch/Keeps.antt =====
-- What a dispatch of master/src/scheduler.c owes the tables, and the moves of a block between lists.
use mathlib.Core.List.{Perm, perm_append_singleton, perm_middle}
use mathlib.Core.List.Perm
use tp_sistemas_operativos.Base.{
  ℕ, ◌≡◌, refl, Bool, true, Option, some, List, [], ◌∷◌, ◌++◌, append_assoc,
}
use tp_sistemas_operativos.Master.State.{Master}
use tp_sistemas_operativos.Master.Invariant.{WellFormed}

-- The call returns, the tables are well formed after it, and the same queries are ready or running
-- and the same workers idle or busy as before.
pub record Keeps (m : Master) (r : Option (Bool × Master)) : Type 0 where
  pub ok : Bool
  pub after : Master
  pub returns : r ≡ some (ok, after)
  pub well_formed : WellFormed after
  pub queries_kept :
      Perm (after.ready_queue ++ after.running_list) (m.ready_queue ++ m.running_list)
  pub workers_kept : Perm (after.idle_list ++ after.busy_list) (m.idle_list ++ m.busy_list)

pub unchanged : (m : Master) → WellFormed m → Keeps m (some (true, m))
unchanged m v = record {
  ok = true;
  after = m;
  returns = refl;
  well_formed = v;
  queries_kept = Perm.refl _;
  workers_kept = Perm.refl _;
}

-- An element that goes from the head of one list to the end of the next.
pub head_to_end : (x : ℕ) (l r : List ℕ) → Perm (l ++ (r ++ x ∷ [])) (x ∷ (l ++ r))
head_to_end x l r = rw (← append_assoc l r (x ∷ [])) (perm_append_singleton x (l ++ r))

-- The same two lists, with the head of the first moved to its end.
pub head_to_own_end : (x : ℕ) (l r : List ℕ) → Perm ((l ++ x ∷ []) ++ r) (x ∷ (l ++ r))
head_to_own_end x l r = Perm.append_right r (perm_append_singleton x l)

pub head_to_middle : (x : ℕ) (b a r : List ℕ) → Perm ((b ++ x ∷ a) ++ r) (x ∷ ((b ++ a) ++ r))
head_to_middle x b a r = Perm.append_right r (perm_middle b a)
