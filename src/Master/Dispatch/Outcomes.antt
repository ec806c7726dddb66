-- ===== src/Master/Dispatch/Outcomes.antt =====
-- The two outcomes of the dispatch of a query to a worker in master/src/scheduler.c.
use tp_sistemas_operativos.Base.{
  ℕ, ◌≡◌, Bool, true, false, not, ◌||◌, Option, none, some, [], ◌∷◌, ◌++◌, arith, ◌==◌,
}
use tp_sistemas_operativos.Master.Commons.{Commons, contains, erase-append}
use tp_sistemas_operativos.Master.State.{Master, Query, Worker, start_query, update, update-update}
use tp_sistemas_operativos.Master.Queries.{enqueue_ready}
use tp_sistemas_operativos.Master.Dispatch.{
  dispatch, assign_query, assign_worker, release_worker, unassign_query,
}

-- The package reaches the worker.
abbrev pub Reachable : (ℕ → Bool) → Worker → Type 0
Reachable sends w = (w.socket_fd == 0 || not (sends w.socket_fd)) ≡ false

abbrev pub Unreachable : (ℕ → Bool) → Worker → Type 0
Unreachable sends w = (w.socket_fd == 0 || not (sends w.socket_fd)) ≡ true

-- The end of a dispatch that is undone, from what putting the query back gave.
unfoldable pub finish_revert : Commons → ℕ → Option (Unit {0} × Master) → Option (Bool × Master)
finish_revert c worker none = none
finish_revert c worker (some (u, m)) =
    some (false, record m { idle_list = c.list_add m.idle_list worker })

module _ (c : Commons) (sends : ℕ → Bool) (query worker : ℕ) (m : Master) {q : Query} {w : Worker}
    (eq : m.queries query ≡ some q) (ew : m.workers worker ≡ some w) where
  abbrev dispatched : Master
  dispatched = record m {
    queries = update m.queries query (some (assign_query w q));
    running_list = m.running_list ++ query ∷ [];
    workers = update m.workers worker (some (assign_worker q w));
    busy_list = m.busy_list ++ worker ∷ [];
  }

  pub dispatch_sent :
      Reachable sends w
      → dispatch c sends query worker m
        ≡ some (
          true,
          record dispatched {
            outbox =
                m.outbox
                ++ start_query w.socket_fd q.query_id q.program_counter q.query_file_path ∷ [];
          },
        )
  unfolding dispatch
  dispatch_sent reach =
      ground (arith, c.list_add_lem m.running_list query, c.list_add_lem m.busy_list worker)

  abbrev pub reverted : Master
  reverted = record m {
    queries = update m.queries query (some (unassign_query (assign_query w q)));
    workers = update m.workers worker (some (release_worker (assign_worker q w)));
  }

  pub dispatch_unsent :
      Unreachable sends w
      → contains query m.running_list ≡ false
      → contains worker m.busy_list ≡ false
      → dispatch c sends query worker m ≡ finish_revert c worker (enqueue_ready c query reverted)
  unfolding dispatch finish_revert
  dispatch_unsent lost fresh_query fresh_worker = ground (
    arith,
    c.list_add_lem m.running_list query,
    c.list_add_lem m.busy_list worker,
    c.list_remove_element_lem (m.running_list ++ query ∷ []) query,
    c.list_remove_element_lem (m.busy_list ++ worker ∷ []) worker,
    erase-append query m.running_list fresh_query,
    erase-append worker m.busy_list fresh_worker,
    update-update m.queries query (some (assign_query w q))
        (some (unassign_query (assign_query w q))),
    update-update m.workers worker (some (assign_worker q w))
        (some (release_worker (assign_worker q w))),
  )
