-- ===== src/Master/Dispatch/Preserves.antt =====
-- `try_dispatch` of master/src/scheduler.c keeps the tables well formed and loses nobody.
use mathlib.Core.List.{Perm, Nodup}
use mathlib.Core.List.Perm
use tp_sistemas_operativos.Base.{
  ℕ, ◌≡◌, refl, sym, subst, inl, inr, Bool, true, false, not, ◌||◌, some, List, [], ◌∷◌, ◌++◌, ◌==◌,
  Bool-cases, if_elim,
}
use tp_sistemas_operativos.Master.Commons.{Commons, All, IsSorted}
use tp_sistemas_operativos.Master.State.{Master, Query, Worker, Store, update}
use tp_sistemas_operativos.Master.Queries.{by_priority, enqueue_ready, insert_query_by_priority}
use tp_sistemas_operativos.Master.Ordering.{
  IsLive, priority_of, All-append, All-left, All-right, Inserts, insert_query_by_priority-Inserts,
}
use tp_sistemas_operativos.Master.Invariant.{
  WellFormed, IsLiveWorker, All-map, live-update, update_self, priority_of-update,
  head_not_contained,
}
use tp_sistemas_operativos.Master.Dispatch.{
  dispatch, dispatch_heads, after_checks, try_dispatch, has_pending_preemptions, assign_query,
  assign_worker, release_worker, unassign_query,
}
use tp_sistemas_operativos.Master.Dispatch.Outcomes.{
  Reachable, Unreachable, dispatch_sent, dispatch_unsent, finish_revert,
}
use tp_sistemas_operativos.Master.Dispatch.Keeps.{
  Keeps, unchanged, head_to_end, head_to_own_end, head_to_middle,
}

module _ (c : Commons) (sends : ℕ → Bool) (m : Master) (v : WellFormed m) (query worker : ℕ)
    (qs ws : List ℕ) (q : Query) (w : Worker) (er : m.ready_queue ≡ query ∷ qs)
    (ei : m.idle_list ≡ worker ∷ ws) (eq : m.queries query ≡ some q)
    (ew : m.workers worker ≡ some w) where
  taken : Master
  taken = record m { ready_queue = qs; idle_list = ws }

  queries_distinct : Nodup (query ∷ (qs ++ m.running_list))
  queries_distinct = subst (λ l. Nodup (l ++ m.running_list)) er v.distinct_queries

  workers_distinct : Nodup (worker ∷ (ws ++ m.busy_list))
  workers_distinct = subst (λ l. Nodup (l ++ m.busy_list)) ei v.distinct_workers

  ready_rest : All (IsLive m.queries) qs
  ready_rest = (subst (All (IsLive m.queries)) er v.ready_live).1

  idle_rest : All (IsLiveWorker m.workers) ws
  idle_rest = (subst (All (IsLiveWorker m.workers)) ei v.idle_live).1

  IsSorted-rest : by_priority m ≡ true → IsSorted (priority_of m.queries) qs
  IsSorted-rest p = (subst (IsSorted (priority_of m.queries)) er (v.sorted p)).1

  -- The blocks after the states of the query and the worker have been set.
  module _ (q' : Query) (w' : Worker) (same : q'.priority ≡ q.priority) where
    queries' : Store Query
    queries' = update m.queries query (some q')

    workers' : Store Worker
    workers' = update m.workers worker (some w')

    still-IsLive : (l : List ℕ) → All (IsLive m.queries) l → All (IsLive queries') l
    unfolding queries'
    still-IsLive l h = All-map (IsLive m.queries) _ l (live-update m.queries query q') h

    still_live_workers :
        (l : List ℕ) → All (IsLiveWorker m.workers) l → All (IsLiveWorker workers') l
    unfolding workers'
    still_live_workers l h =
        All-map (IsLiveWorker m.workers) _ l (live-update m.workers worker w') h

    query-IsLive : IsLive queries' query
    unfolding queries'
    query-IsLive = (q', update_self m.queries query (some q'))

    worker_live : IsLiveWorker workers' worker
    unfolding workers'
    worker_live = (w', update_self m.workers worker (some w'))

    still-IsSorted : by_priority m ≡ true → IsSorted (priority_of queries') qs
    unfolding queries'
    still-IsSorted p =
        subst (λ key. IsSorted key qs) (sym (priority_of-update m.queries query q q' eq same))
          (IsSorted-rest p)

  sent-Keeps : Reachable sends w → Keeps m (dispatch c sends query worker taken)
  unfolding taken queries' workers'
  sent-Keeps reach = record {
    ok = true;
    after = _;
    returns = dispatch_sent c sends query worker taken eq ew reach;
    well_formed = record {
      ready_live = still-IsLive (assign_query w q) (assign_worker q w) refl qs ready_rest;
      running_live =
          All-append _ m.running_list (query ∷ [])
            (still-IsLive (assign_query w q) (assign_worker q w) refl m.running_list v.running_live)
            (query-IsLive (assign_query w q) (assign_worker q w) refl, tt);
      idle_live = still_live_workers (assign_query w q) (assign_worker q w) refl ws idle_rest;
      busy_live =
          All-append _ m.busy_list (worker ∷ [])
            (still_live_workers (assign_query w q) (assign_worker q w) refl m.busy_list v.busy_live)
            (worker_live (assign_query w q) (assign_worker q w) refl, tt);
      distinct_queries =
          Perm.nodup (Perm.symm (head_to_end query qs m.running_list)) queries_distinct;
      distinct_workers =
          Perm.nodup (Perm.symm (head_to_end worker ws m.busy_list)) workers_distinct;
      sorted = still-IsSorted (assign_query w q) (assign_worker q w) refl;
    };
    queries_kept = rw er (head_to_end query qs m.running_list);
    workers_kept = rw ei (head_to_end worker ws m.busy_list);
  }

  lost_query : Query
  lost_query = unassign_query (assign_query w q)

  lost_worker : Worker
  lost_worker = release_worker (assign_worker q w)

  -- The master after a dispatch whose package was not sent.
  undone : List ℕ → Master
  undone ready = record m {
    queries = update m.queries query (some lost_query);
    ready_queue = ready;
    workers = update m.workers worker (some lost_worker);
    idle_list = ws ++ worker ∷ [];
  }

  undone-Keeps :
      (ready : List ℕ)
      → Perm (ready ++ m.running_list) (query ∷ (qs ++ m.running_list))
      → All (IsLive (update m.queries query (some lost_query))) ready
      → (by_priority m ≡ true
          → IsSorted (priority_of (update m.queries query (some lost_query))) ready)
      → Keeps m (some (false, undone ready))
  unfolding undone queries' workers' lost_query lost_worker
  undone-Keeps ready moved live sorted = record {
    ok = false;
    after = undone ready;
    returns = refl;
    well_formed = record {
      ready_live = live;
      running_live = still-IsLive lost_query lost_worker refl m.running_list v.running_live;
      idle_live =
          All-append _ ws (worker ∷ [])
            (still_live_workers lost_query lost_worker refl ws idle_rest)
            (worker_live lost_query lost_worker refl, tt);
      busy_live = still_live_workers lost_query lost_worker refl m.busy_list v.busy_live;
      distinct_queries = Perm.nodup (Perm.symm moved) queries_distinct;
      distinct_workers =
          Perm.nodup (Perm.symm (head_to_own_end worker ws m.busy_list)) workers_distinct;
      sorted = sorted;
    };
    queries_kept = rw er moved;
    workers_kept = rw ei (head_to_own_end worker ws m.busy_list);
  }

  put_back : Master
  put_back = record m {
    queries = update m.queries query (some lost_query);
    ready_queue = qs;
    workers = update m.workers worker (some lost_worker);
    idle_list = ws;
  }

  lost-IsLive :
      (l : List ℕ)
      → All (IsLive m.queries) l
      → All (IsLive (update m.queries query (some lost_query))) l
  unfolding queries' lost_query
  lost-IsLive = still-IsLive lost_query lost_worker refl

  lost_query-IsLive : IsLive (update m.queries query (some lost_query)) query
  unfolding queries' lost_query
  lost_query-IsLive = query-IsLive lost_query lost_worker refl

  lost-IsSorted :
      by_priority m ≡ true → IsSorted (priority_of (update m.queries query (some lost_query))) qs
  unfolding queries' lost_query
  lost-IsSorted = still-IsSorted lost_query lost_worker refl

  -- The query goes to the end of the queue.
  back_to_end :
      by_priority m ≡ false
      → Keeps m (
          finish_revert c worker (some (tt, record put_back { ready_queue = c.list_add qs query })))
  unfolding put_back undone finish_revert
  back_to_end fifo =
      rw (c.list_add_lem qs query, c.list_add_lem ws worker)
        (undone-Keeps (qs ++ query ∷ []) (head_to_own_end query qs m.running_list)
          (All-append _ qs (query ∷ []) (lost-IsLive qs ready_rest) (lost_query-IsLive, tt))
          (λ priority. absurd cc))

  -- The query goes behind those of the same or a better priority.
  back_by_priority :
      by_priority m ≡ true
      → Keeps m (finish_revert c worker (insert_query_by_priority c query put_back))
  unfolding put_back undone finish_revert
  back_by_priority priority =
      rw (ins.returns, finish_revert, c.list_add_lem ws worker)
        (undone-Keeps (ins.before ++ query ∷ ins.after)
          (rw ins.whole (head_to_middle query ins.before ins.after m.running_list))
          (All-append _ ins.before (query ∷ ins.after) (All-left _ ins.before ins.after live)
            (lost_query-IsLive, All-right _ ins.before ins.after live))
          (λ p. ins.sorted))
    where
      ins : Inserts query put_back (insert_query_by_priority c query put_back)
      ins =
          insert_query_by_priority-Inserts c query put_back lost_query-IsLive
            (lost-IsLive qs ready_rest) (lost-IsSorted priority)

      live : All (IsLive (update m.queries query (some lost_query))) (ins.before ++ ins.after)
      live =
          subst (All (IsLive (update m.queries query (some lost_query)))) ins.whole
            (lost-IsLive qs ready_rest)

  unsent-Keeps : Unreachable sends w → Keeps m (dispatch c sends query worker taken)
  unfolding taken put_back lost_query lost_worker enqueue_ready
  unsent-Keeps lost =
      rw
        (
          dispatch_unsent c sends query worker taken eq ew lost
              (head_not_contained query qs m.running_list queries_distinct)
              (head_not_contained worker ws m.busy_list workers_distinct),
          enqueue_ready,
        )
        (if_elim (λ r. Keeps m (finish_revert c worker r)) (by_priority m) back_by_priority
          back_to_end)

-- The first loop ends with an answer when the running queries are live.
pending_answers :
    (queries : Store Query) (l : List ℕ)
    → All (IsLive queries) l
    → (b : Bool) × (has_pending_preemptions queries l ≡ some b)
unfolding has_pending_preemptions
pending_answers queries [] live = (false, refl)
pending_answers queries (p ∷ ps) ((q, e), live) =
    let rest = pending_answers queries ps live in
    rw (has_pending_preemptions, e, rest.1)
      (if_elim (λ r. (b : Bool) × (r ≡ some b)) q.preemption_pending (λ _. (true, refl))
        (λ _. (rest.0, refl)))

module _ (c : Commons) (sends : ℕ → Bool) (m : Master) (v : WellFormed m) where
  dispatch-Keeps :
      (query worker : ℕ) (qs ws : List ℕ)
      → m.ready_queue ≡ query ∷ qs
      → m.idle_list ≡ worker ∷ ws
      → Keeps m (dispatch c sends query worker (record m { ready_queue = qs; idle_list = ws }))
  unfolding taken
  dispatch-Keeps query worker qs ws er ei =
      let q = (subst (All (IsLive m.queries)) er v.ready_live).0 in
      let w = (subst (All (IsLiveWorker m.workers)) ei v.idle_live).0 in
      elim (Bool-cases (w.0.socket_fd == 0 || not (sends w.0.socket_fd))) [
        | inl lost ↦ unsent-Keeps c sends m v query worker qs ws q.0 w.0 er ei q.1 w.1 lost
        | inr reach ↦ sent-Keeps c sends m v query worker qs ws q.0 w.0 er ei q.1 w.1 reach
      ]

  heads-Keeps :
      (idle ready : List ℕ)
      → m.idle_list ≡ idle
      → m.ready_queue ≡ ready
      → Keeps m (dispatch_heads c sends idle ready m)
  heads-Keeps [] ready ei er = unchanged m v
  heads-Keeps (worker ∷ ws) [] ei er = unchanged m v
  heads-Keeps (worker ∷ ws) (query ∷ qs) ei er =
      let (answer, e) = pending_answers m.queries m.running_list v.running_live in
      rw e (checks answer)
    where
      checks : (answer : Bool) → Keeps m (after_checks c sends query qs worker ws (some answer) m)
      checks true = unchanged m v
      checks false = dispatch-Keeps query worker qs ws er ei

  -- On well-formed tables, whatever packages get through, try_dispatch returns; the tables are
  -- well formed after it, and the same queries are ready or running and the same workers idle or
  -- busy as before.
  pub try_dispatch-Keeps : Keeps m (try_dispatch c sends m)
  unfolding try_dispatch
  try_dispatch-Keeps = heads-Keeps m.idle_list m.ready_queue refl refl
