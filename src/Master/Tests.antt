-- ===== src/Master/Tests.antt =====
-- Runs of the model of master/src on small tables.
mod Lists
use mathlib.Core.List.{Nodup-cons, Nodup-nil, not-mem-nil, Mem, mem-cons}
use mathlib.Core.Logic.{∥∥₁_elim}
use tp_sistemas_operativos.Base.{
  inl, inr, ℕ, ◌≡◌, refl, Bool, true, false, Option, none, some, List, [], ◌∷◌, arith, ◌==◌, ◌+◌,
  if◌then◌else◌,
}
use tp_sistemas_operativos.Master.State.{Master, Query, QueryState, Worker, WorkerState, Store}
use tp_sistemas_operativos.Master.Ordering.{Inserts, insert_query_by_priority-Inserts}
use tp_sistemas_operativos.Master.Invariant.{WellFormed}
use tp_sistemas_operativos.Master.Queries.{insert_query_by_priority}
use tp_sistemas_operativos.Master.Dispatch.{try_dispatch}
use tp_sistemas_operativos.Master.Dispatch.Keeps.{Keeps}
use tp_sistemas_operativos.Master.Dispatch.Preserves.{try_dispatch-Keeps}
use tp_sistemas_operativos.Master.Arrivals.{manage_query_file_path, manage_worker_handshake}
use tp_sistemas_operativos.Master.Arrivals.Queries.{Admits, manage_query_file_path-Admits}
use tp_sistemas_operativos.Master.Arrivals.Workers.{Registers, manage_worker_handshake-Registers}
use tp_sistemas_operativos.Master.Aging.{age_ready_queue}
use tp_sistemas_operativos.Master.Aging.Queue.{AgesQueue, age_ready_queue-AgesQueue}
use Lists.{commons}

-- A ready query with an identifier, a priority and the time since when it waits.
abbrev query : ℕ → ℕ → ℕ → Query
query id urgency since = record {
  socket_fd = 10 + id;
  query_id = id;
  query_file_path = "q.sql";
  priority = urgency;
  initial_priority = urgency;
  ready_timestamp = since;
  assigned_worker_id = none;
  program_counter = 0;
  preemption_pending = false;
  cleaned_up = false;
  state = QueryState.ready;
}

abbrev worker : Worker
worker = record { worker_id = 4; socket_fd = 20; current_query_id = none; state = WorkerState.idle }

abbrev some_queries : Store Query
some_queries p =
    if p == 0
    then some (query 0 2 100)
    else if p == 1
    then some (query 1 5 100)
    else if p == 2
    then some (query 2 3 400)
    else none

abbrev some_workers : Store Worker
some_workers p = if p == 7 then some worker else none

-- Two queries wait and one worker is idle; the query at address 2 is in no queue.
abbrev tables : Master
tables = record {
  queries = some_queries;
  query_list = 0 ∷ 1 ∷ 2 ∷ [];
  ready_queue = 0 ∷ 1 ∷ [];
  running_list = [];
  completed_list = [];
  canceled_list = [];
  total_queries = 3;
  next_query_id = 3;
  workers = some_workers;
  worker_list = 7 ∷ [];
  idle_list = 7 ∷ [];
  busy_list = [];
  disconnected_list = [];
  total_workers_connected = 1;
  aging_interval = 250;
  scheduling_algorithm = "PRIORITY";
  multiprogramming_level = 1;
  next_address = 8;
  outbox = [];
}

tables-WellFormed : WellFormed tables
tables-WellFormed = record {
  ready_live = ((query 0 2 100, refl), ((query 1 5 100, refl), tt));
  running_live = tt;
  idle_live = ((worker, refl), tt);
  busy_live = tt;
  distinct_queries = Nodup-cons.1 (
    λ k.
        ∥∥₁_elim (mem-cons.0 k) (hlevel)
          (λ s. elim s [ inl e ↦ omega arith | inr h ↦ not-mem-nil h ]),
    Nodup-cons.1 (not-mem-nil, Nodup-nil),
  );
  distinct_workers = Nodup-cons.1 (not-mem-nil, Nodup-nil);
  sorted = λ _. ((omega arith, tt), (tt, tt));
}

insert_query_by_priority-Inserts_example :
    Inserts 2 tables (insert_query_by_priority commons 2 tables)
insert_query_by_priority-Inserts_example =
    insert_query_by_priority-Inserts commons 2 tables (query 2 3 400, refl)
      ((query 0 2 100, refl), ((query 1 5 100, refl), tt)) ((omega arith, tt), (tt, tt))

-- Sockets other than 20 are closed.
abbrev sends : ℕ → Bool
sends socket = socket == 20

try_dispatch-Keeps_example : Keeps tables (try_dispatch commons sends tables)
try_dispatch-Keeps_example = try_dispatch-Keeps commons sends tables tables-WellFormed

age_ready_queue-AgesQueue_example : AgesQueue tables (age_ready_queue commons 700 tables)
age_ready_queue-AgesQueue_example = age_ready_queue-AgesQueue commons 700 tables tables-WellFormed

manage_query_file_path-Admits_example :
    Admits tables (manage_query_file_path commons sends true 700 (some (some "r.sql", 1)) 30 tables)
manage_query_file_path-Admits_example =
    manage_query_file_path-Admits commons sends tables tables-WellFormed refl 700 30 true
      (some (some "r.sql", 1))

manage_worker_handshake-Registers_example :
    Registers true tables (manage_worker_handshake commons sends 5 20 tables)
manage_worker_handshake-Registers_example =
    manage_worker_handshake-Registers commons sends tables tables-WellFormed refl 5 20 (omega arith)
