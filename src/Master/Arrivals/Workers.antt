-- ===== src/Master/Arrivals/Workers.antt =====
-- What the handshake of a worker in master/src/worker_manager.c does to the tables.
use mathlib.Core.List.{Perm, Nodup-cons, Mem}
use mathlib.Core.List.Perm
use tp_sistemas_operativos.Base.{
  ℕ, ◌+◌, ◌≡◌, ◌≢◌, refl, Bool, true, false, Option, none, some, List, [], ◌∷◌, ◌++◌, ◌==◌, arith,
  not, if◌then◌else◌,
}
use tp_sistemas_operativos.Master.Commons.{Commons, All}
use tp_sistemas_operativos.Master.State.{
  Master, Worker, WorkerState, update, ◌>>=◌, pure, worker_ack,
}
use tp_sistemas_operativos.Master.Ordering.{All-append}
use tp_sistemas_operativos.Master.Invariant.{
  WellFormed, IsLiveWorker, All-map, live-update, update_self,
}
use tp_sistemas_operativos.Master.Dispatch.{try_dispatch}
use tp_sistemas_operativos.Master.Dispatch.Keeps.{Keeps, head_to_own_end}
use tp_sistemas_operativos.Master.Dispatch.Preserves.{try_dispatch-Keeps}
use tp_sistemas_operativos.Master.Arrivals.{package_to, create_worker, manage_worker_handshake}
use tp_sistemas_operativos.Master.Arrivals.Answers.{Answered, package_to-Answered}
use tp_sistemas_operativos.Master.Arrivals.Fresh.{free_lem}

-- What the handshake of a worker leaves.
pub record Registers (sent : Bool) (m : Master) (r : Option (Bool × Master)) : Type 0 where
  pub after : Master
  pub returns : r ≡ some (sent, after)
  pub well_formed : WellFormed after
  pub workers_kept :
      Perm (after.idle_list ++ after.busy_list) (m.next_address ∷ (m.idle_list ++ m.busy_list))
  pub queries_kept :
      Perm (after.ready_queue ++ after.running_list) (m.ready_queue ++ m.running_list)

module _ (c : Commons) (sends : ℕ → Bool) (m : Master) (v : WellFormed m)
    (free : m.workers m.next_address ≡ none) (worker_id client_socket : ℕ) where
  block : Worker
  block = record {
    worker_id = worker_id;
    socket_fd = client_socket;
    current_query_id = none;
    state = WorkerState.idle;
  }

  -- The tables with the new worker, when its answer is due.
  registered : Master
  registered = record m {
    next_address = m.next_address + 1;
    workers = update m.workers m.next_address (some block);
    worker_list = c.list_add m.worker_list m.next_address;
    total_workers_connected = m.total_workers_connected + 1;
    multiprogramming_level = m.total_workers_connected + 1;
    idle_list = m.idle_list ++ m.next_address ∷ [];
  }

  still-IsLiveWorker :
      (l : List ℕ)
      → All (IsLiveWorker m.workers) l
      → All (IsLiveWorker (update m.workers m.next_address (some block))) l
  still-IsLiveWorker l h =
      All-map (IsLiveWorker m.workers) _ l (live-update m.workers m.next_address block) h

  fresh_everywhere : ¬ Mem m.next_address (m.idle_list ++ m.busy_list)
  fresh_everywhere =
      free_lem m.workers m.next_address _ free
        (All-append _ m.idle_list m.busy_list v.idle_live v.busy_live)

  answered :
      Answered sends client_socket registered
        (package_to sends client_socket (worker_ack client_socket) registered)
  answered = package_to-Answered sends client_socket (worker_ack client_socket) registered

  final : Master
  final = record registered { outbox = answered.messages }

  moved :
      Perm
        ((m.idle_list ++ m.next_address ∷ []) ++ m.busy_list)
        (m.next_address ∷ (m.idle_list ++ m.busy_list))
  moved = head_to_own_end m.next_address m.idle_list m.busy_list

  final-WellFormed : WellFormed final
  unfolding final registered
  final-WellFormed = record {
    ready_live = v.ready_live;
    running_live = v.running_live;
    idle_live =
        All-append _ m.idle_list (m.next_address ∷ []) (still-IsLiveWorker m.idle_list v.idle_live)
          ((block, update_self m.workers m.next_address (some block)), tt);
    busy_live = still-IsLiveWorker m.busy_list v.busy_live;
    distinct_queries = v.distinct_queries;
    distinct_workers =
        Perm.nodup (Perm.symm moved) (Nodup-cons.1 (fresh_everywhere, v.distinct_workers));
    sorted = v.sorted;
  }

  created :
      create_worker c worker_id client_socket m
      ≡ some
          (m.next_address, record registered { multiprogramming_level = m.multiprogramming_level })
  unfolding create_worker registered block
  created = rw (create_worker, c.list_add_lem m.idle_list m.next_address)

  -- The end of the call, from whether the answer was sent.
  answered_then :
      (sent : Bool)
      → Registers sent m
          ((if not sent then pure false else do dispatched ← try_dispatch c sends; pure true) final)
  unfolding final registered
  answered_then false = record {
    after = final;
    returns = refl;
    well_formed = final-WellFormed;
    workers_kept = moved;
    queries_kept = Perm.refl _;
  }
  answered_then true =
      rw (kept.returns, ◌>>=◌)
        (record {
          after = kept.after;
          returns = refl;
          well_formed = kept.well_formed;
          workers_kept = Perm.trans kept.workers_kept moved;
          queries_kept = kept.queries_kept;
        })
    where
      kept : Keeps final (try_dispatch c sends final)
      kept = try_dispatch-Keeps c sends final final-WellFormed

  -- On well-formed tables whose next address holds no worker, the handshake of a worker with an
  -- identifier other than 0 returns, with 0 exactly when its socket takes the answer; the tables
  -- are well formed after it, the new worker and those that were idle or busy are idle or busy,
  -- and the same queries are ready or running as before.
  pub manage_worker_handshake-Registers :
      worker_id ≢ 0
      → Registers
          (sends client_socket)
          m
          (manage_worker_handshake c sends worker_id client_socket m)
  unfolding manage_worker_handshake registered final answered
  manage_worker_handshake-Registers given = rw (← answered.taken) (
      rw (manage_worker_handshake, nonzero, created, ◌>>=◌, answered.returns)
        (answered_then answered.sent))
    where
      nonzero : (worker_id == 0) ≡ false
      nonzero = ground (arith, given)
