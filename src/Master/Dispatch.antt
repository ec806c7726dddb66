-- ===== src/Master/Dispatch.antt =====
-- master/src/scheduler.c: the dispatch of a ready query to an idle worker. `sends` says for each
-- socket whether a package of the call reaches it. Both mutexes are held throughout, so the call is
-- one step of the master.
pub mod Outcomes
pub mod Keeps
pub mod Preserves
use tp_sistemas_operativos.Base.{
  ℕ, Bool, true, false, not, ◌||◌, Option, none, some, List, [], ◌∷◌, ◌==◌, if◌then◌else◌,
}
use tp_sistemas_operativos.Master.Commons.{Commons}
use tp_sistemas_operativos.Master.State.{
  Query, QueryState, Worker, WorkerState, Store, start_query, M, pure, ◌>>=◌, ◌>>◌, modify,
  load_query, load_worker, set_query, set_worker, send_message,
}
use tp_sistemas_operativos.Master.Queries.{enqueue_ready}

-- The first loop over the running queries: does one wait for its eviction?
unfoldable pub has_pending_preemptions : Store Query → List ℕ → Option Bool
has_pending_preemptions queries [] = some false
has_pending_preemptions queries (p ∷ ps) =
    let rest = has_pending_preemptions queries ps in
    elim (queries p) [ none ↦ none | some q ↦ if q.preemption_pending then some true else rest ]

unfoldable pub send_query_to_worker : (ℕ → Bool) → Worker → Query → M Bool
unfolding send_message
send_query_to_worker sends worker query =
    if worker.socket_fd == 0 || not (sends worker.socket_fd) then pure false else do
      send_message
          (start_query worker.socket_fd query.query_id query.program_counter query.query_file_path)
      pure true

abbrev pub assign_worker : Query → Worker → Worker
assign_worker q w = record w { current_query_id = some q.query_id; state = WorkerState.busy }

abbrev pub assign_query : Worker → Query → Query
assign_query w q = record q {
  assigned_worker_id = some w.worker_id;
  preemption_pending = false;
  state = QueryState.running;
}

abbrev pub release_worker : Worker → Worker
release_worker w = record w { current_query_id = none; state = WorkerState.idle }

abbrev pub unassign_query : Query → Query
unassign_query q = record q { assigned_worker_id = none; state = QueryState.ready }

module _ (c : Commons) where
  -- The lists and states after a package that was not sent.
  unfoldable pub revert_dispatch : ℕ → ℕ → M (Unit {0})
  unfolding set_query set_worker
  revert_dispatch query worker = do
    set_worker worker release_worker
    set_query query unassign_query
    modify λ m. record m {
      running_list = (c.list_remove_element m.running_list query).1;
      busy_list = (c.list_remove_element m.busy_list worker).1;
    }
    enqueue_ready c query
    modify (λ m. record m { idle_list = c.list_add m.idle_list worker })

  -- The query and the worker have been removed from the heads of their lists.
  unfoldable pub dispatch : (ℕ → Bool) → ℕ → ℕ → M Bool
  unfolding load_query load_worker set_query set_worker send_query_to_worker revert_dispatch
  dispatch sends query worker = do
    q ← load_query query
    w ← load_worker worker
    set_worker worker (assign_worker q)
    set_query query (assign_query w)
    modify λ m. record m {
      running_list = c.list_add m.running_list query;
      busy_list = c.list_add m.busy_list worker;
    }
    sent ← send_query_to_worker sends (assign_worker q w) (assign_query w q)
    if sent then pure true else do revert_dispatch query worker; pure false

  abbrev pub after_checks : (ℕ → Bool) → ℕ → List ℕ → ℕ → List ℕ → Option Bool → M Bool
  after_checks sends query queries worker workers none m = none
  after_checks sends query queries worker workers (some true) m = some (true, m)
  after_checks sends query queries worker workers (some false) m =
      dispatch sends query worker (record m { ready_queue = queries; idle_list = workers })

  abbrev pub dispatch_heads : (ℕ → Bool) → (idle_list ready_queue : List ℕ) → M Bool
  dispatch_heads sends [] ready_queue m = some (true, m)
  dispatch_heads sends (worker ∷ workers) [] m = some (true, m)
  dispatch_heads sends (worker ∷ workers) (query ∷ queries) m =
      after_checks sends query queries worker workers
        (has_pending_preemptions m.queries m.running_list) m

  -- `true` is the result 0.
  unfoldable pub try_dispatch : (ℕ → Bool) → M Bool
  try_dispatch sends m = dispatch_heads sends m.idle_list m.ready_queue m
