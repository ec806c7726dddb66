-- ===== src/Master/Aging/Queue.antt =====
-- What the aging of master/src/aging.c does to the ready queue.
use mathlib.Core.List.{Perm}
use mathlib.Core.List.Perm
use tp_sistemas_operativos.Base.{
  ℕ, ◌≡◌, ◌≤◌, refl, sym, ◌∙◌, subst, Bool, true, false, ◌||◌, Option, some, List, [], ◌∷◌, ltb,
  arith, if_elim, not, ==_iff, ◌==◌, leb,
}
use tp_sistemas_operativos.Master.Commons.{Commons, All, IsSorted}
use tp_sistemas_operativos.Master.State.{Master, Query, Store, update}
use tp_sistemas_operativos.Master.Queries.{by_priority}
use tp_sistemas_operativos.Master.Ordering.{IsLive, priority_of}
use tp_sistemas_operativos.Master.Invariant.{WellFormed, All-map, live-update, priority_of-update}
use tp_sistemas_operativos.Master.Aging.{
  aged, age_query, age_queries, resorted, age_ready_queue, intervals, elapsed, is_due, is_ready,
}
use tp_sistemas_operativos.Master.Aging.Live.{IsLive-perm}

or_left : (a b : Bool) → (a || b) ≡ false → a ≡ false
or_left false b h = refl
or_left true b h = h

or_right : (a b : Bool) → (a || b) ≡ false → b ≡ false
or_right false b h = h
or_right true b h = absurd cc

module _ (now aging_interval : ℕ) where
  -- The priority is no worse, and is what it was where no change is reported.
  abbrev Lowers : Query → Query × Bool → Type 0
  Lowers q r = (r.0.priority ≤ q.priority) × (r.1 ≡ false → r.0.priority ≡ q.priority)

  aged_le : (q : Query) → (aged now aging_interval q).priority ≤ q.priority
  aged_le q =
      if_elim (λ k. k ≤ q.priority) (leb q.priority (intervals now aging_interval q))
        (λ _. omega arith) (λ _. omega arith)

  age_query-Lowers : (q : Query) → Lowers q (age_query now aging_interval q)
  unfolding age_query
  age_query-Lowers q =
      if_elim (Lowers q) (not (is_ready q.state)) (λ _. (omega arith, λ _. refl))
        (λ _.
          if_elim (Lowers q) (q.ready_timestamp == 0) (λ _. (omega arith, λ _. refl))
            (λ _.
              if_elim (Lowers q) (ltb (elapsed now q) aging_interval)
                (λ _. (omega arith, λ _. refl))
                (λ _.
                  if_elim (Lowers q) (is_due now aging_interval q)
                    (λ _. (aged_le q, λ h. absurd cc)) (λ _. (omega arith, λ _. refl)))))

  -- What a run of the loop leaves of the blocks.
  record Ages (queries : Store Query) (r : Option (Store Query × Bool)) : Type 0 where
    after : Store Query
    changed : Bool
    returns : r ≡ some (after, changed)
    live : (x : ℕ) → IsLive queries x → IsLive after x
    lower : (x : ℕ) → priority_of after x ≤ priority_of queries x
    same : changed ≡ false → priority_of after ≡ priority_of queries

  priority_of_lower :
      (queries : Store Query) (p : ℕ) (q q' : Query)
      → queries p ≡ some q
      → q'.priority ≤ q.priority
      → (x : ℕ) → priority_of (update queries p (some q')) x ≤ priority_of queries x
  priority_of_lower queries p q q' e le x = ground (arith, ==_iff x p, e)

  age_queries-Ages :
      (queries : Store Query) (ps : List ℕ)
      → All (IsLive queries) ps
      → Ages queries (age_queries now aging_interval queries ps)
  unfolding age_queries
  age_queries-Ages queries [] live = record {
    after = queries;
    changed = false;
    returns = refl;
    live = λ x h. h;
    lower = λ x. omega arith;
    same = λ _. refl;
  }
  age_queries-Ages queries (p ∷ ps) ((q, e), live) =
      let r = age_query now aging_interval q in
      let rest =
        age_queries-Ages (update queries p (some r.0)) ps
          (All-map (IsLive queries) _ ps (live-update queries p r.0) live) in
      record {
        after = rest.after;
        changed = r.1 || rest.changed;
        returns = rw (age_queries, e, rest.returns);
        live = λ x h. rest.live x (live-update queries p r.0 x h);
        lower = λ x.
            omega
              (arith, rest.lower x, priority_of_lower queries p q r.0 e (age_query-Lowers q).0 x);
        same = λ h.
            rest.same (or_right r.1 rest.changed h)
            ∙ priority_of-update queries p q r.0 e
                ((age_query-Lowers q).1 (or_left r.1 rest.changed h));
      }

-- What a round of aging leaves of the master: other queues, other orders and other priorities only
-- as stated, and all else as it was.
pub record AgesQueue (m : Master) (r : Option Master) : Type 0 where
  pub after : Master
  pub returns : r ≡ some after
  pub well_formed : WellFormed after
  pub ready_kept : Perm after.ready_queue m.ready_queue
  pub lower : (p : ℕ) → priority_of after.queries p ≤ priority_of m.queries p
  pub others : after ≡ record m { queries = after.queries; ready_queue = after.ready_queue }

module _ (c : Commons) (now : ℕ) (m : Master) (v : WellFormed m) where
  resorted-perm :
      (queries : Store Query) (changed : Bool)
      → Perm (resorted c queries changed m.ready_queue) m.ready_queue
  resorted-perm queries true = c.list_sort-perm _ _
  resorted-perm queries false = Perm.refl _

  resorted-IsSorted :
      (queries : Store Query) (changed : Bool)
      → (changed ≡ false → priority_of queries ≡ priority_of m.queries)
      → by_priority m ≡ true
      → IsSorted (priority_of queries) (resorted c queries changed m.ready_queue)
  resorted-IsSorted queries true same p = c.list_sort-IsSorted m.ready_queue (priority_of queries)
  resorted-IsSorted queries false same p =
      subst (λ key. IsSorted key m.ready_queue) (sym (same refl)) (v.sorted p)

  -- A round of aging on well-formed tables returns and leaves them well formed, the ready queue
  -- in the order of the new priorities under PRIORITY; the same queries are ready as before, no
  -- query's priority is greater than it was, and nothing but the blocks of the queries and the
  -- ready queue changes.
  pub age_ready_queue-AgesQueue : AgesQueue m (age_ready_queue c now m)
  unfolding age_ready_queue
  age_ready_queue-AgesQueue = record {
    after = _;
    returns = rw (age_ready_queue, ages.returns);
    well_formed = record {
      ready_live =
          IsLive-perm ages.after _ _ (Perm.symm moved)
            (All-map (IsLive m.queries) _ m.ready_queue ages.live v.ready_live);
      running_live = All-map (IsLive m.queries) _ m.running_list ages.live v.running_live;
      idle_live = v.idle_live;
      busy_live = v.busy_live;
      distinct_queries =
          Perm.nodup (Perm.append_right m.running_list (Perm.symm moved)) v.distinct_queries;
      distinct_workers = v.distinct_workers;
      sorted = resorted-IsSorted ages.after ages.changed ages.same;
    };
    ready_kept = moved;
    lower = ages.lower;
    others = refl;
  }
    where
      ages :
          Ages now m.aging_interval m.queries
            (age_queries now m.aging_interval m.queries m.ready_queue)
      ages = age_queries-Ages now m.aging_interval m.queries m.ready_queue v.ready_live

      moved : Perm (resorted c ages.after ages.changed m.ready_queue) m.ready_queue
      moved = resorted-perm ages.after ages.changed
