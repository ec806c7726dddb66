-- ===== src/Master/Queries.antt =====
-- master/src/query_control_manager.c: new queries, and the ready queue in the order of priorities.
-- The clock enters as the argument `now`; memory for a control block is granted, as the code
-- assumes.
use Prim.Native.String.{String}
use text.Mathlib.Text.{◌==◌ as str_eq}
use tp_sistemas_operativos.Base.{
  ℕ, ◌+◌, Bool, false, Option, none, some, List, [], ◌∷◌, ltb, if◌then◌else◌,
}
use tp_sistemas_operativos.Master.Commons.{Commons}
use tp_sistemas_operativos.Master.State.{
  Master, Query, QueryState, Store, M, pure, ◌>>=◌, ◌>>◌, gets, modify, update, load_query,
}

-- master->scheduling_algorithm is "PRIORITY".
abbrev pub by_priority : Master → Bool
by_priority m = str_eq m.scheduling_algorithm "PRIORITY"

-- The index of the first query that the new one goes before, from index i on: `some none` when
-- there is none, `none` for a block that is not live.
unfoldable pub insertion_index : Store Query → ℕ → ℕ → List ℕ → Option (Option ℕ)
insertion_index queries priority i [] = some none
insertion_index queries priority i (p ∷ ps) =
    let rest = insertion_index queries priority (i + 1) ps in
    elim (queries p) [
      | none ↦ none
      | some existing ↦ if ltb priority existing.priority then some (some i) else rest
    ]

module _ (c : Commons) where
  unfoldable pub insert_query_by_priority : ℕ → M (Unit {0})
  unfolding load_query
  insert_query_by_priority new_qcb = do
    q ← load_query new_qcb
    m ← gets (λ m. m)
    elim (insertion_index m.queries q.priority 0 m.ready_queue) [
      | none ↦ λ _. none
      | some none ↦ modify (λ m. record m { ready_queue = c.list_add m.ready_queue new_qcb })
      | some (some i) ↦
          modify (λ m. record m { ready_queue = c.list_add_in_index m.ready_queue i new_qcb })
    ]

  -- The ready queue takes a query in the way of the scheduling algorithm.
  unfoldable pub enqueue_ready : ℕ → M (Unit {0})
  unfolding insert_query_by_priority
  enqueue_ready p m =
      if by_priority m
      then insert_query_by_priority p m
      else some (tt, record m { ready_queue = c.list_add m.ready_queue p })

  -- The new block is at the next free address.
  unfoldable pub create_query : ℕ → ℕ → String → ℕ → ℕ → M ℕ
  create_query now query_id query_file_path priority socket_fd = do
    qcb ← gets (λ m. m.next_address)
    modify λ m. record m {
      next_address = m.next_address + 1;
      queries = update m.queries qcb (
          some (record {
            socket_fd = socket_fd;
            query_id = query_id;
            query_file_path = query_file_path;
            priority = priority;
            initial_priority = priority;
            ready_timestamp = now;
            assigned_worker_id = none;
            program_counter = 0;
            preemption_pending = false;
            cleaned_up = false;
            state = QueryState.ready;
          }));
      query_list = c.list_add m.query_list qcb;
    }
    enqueue_ready qcb
    modify (λ m. record m { total_queries = m.total_queries + 1 })
    pure qcb

unfoldable pub generate_query_id : M ℕ
generate_query_id m = some (m.next_query_id, record m { next_query_id = m.next_query_id + 1 })
