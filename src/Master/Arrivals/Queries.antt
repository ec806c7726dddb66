-- ===== src/Master/Arrivals/Queries.antt =====
-- What the arrival of a query in master/src/query_control_manager.c does to the tables.
use Prim.Native.String.{String}
use mathlib.Core.List.{Perm, Nodup-cons, Mem, perm_append_singleton, perm_middle}
use mathlib.Core.List.Perm
use tp_sistemas_operativos.Base.{
  ℕ, ◌+◌, ◌≡◌, refl, ap, subst, Bool, true, false, Option, none, some, List, [], ◌∷◌, ◌++◌, if_elim,
}
use tp_sistemas_operativos.Master.Commons.{Commons, All, IsSorted}
use tp_sistemas_operativos.Master.State.{
  M, Master, Query, QueryState, Message, update, ◌>>=◌, connection_ok,
}
use tp_sistemas_operativos.Master.Queries.{
  by_priority, enqueue_ready, insert_query_by_priority, create_query, generate_query_id,
}
use tp_sistemas_operativos.Master.Ordering.{
  IsLive, priority_of, All-append, All-left, All-right, Inserts, insert_query_by_priority-Inserts,
}
use tp_sistemas_operativos.Master.Invariant.{WellFormed, All-map, live-update, update_self}
use tp_sistemas_operativos.Master.Dispatch.{try_dispatch}
use tp_sistemas_operativos.Master.Dispatch.Keeps.{Keeps}
use tp_sistemas_operativos.Master.Dispatch.Preserves.{try_dispatch-Keeps}
use tp_sistemas_operativos.Master.Arrivals.{package_to, manage_query_file_path}
use tp_sistemas_operativos.Master.Arrivals.Answers.{Answered, package_to-Answered}
use tp_sistemas_operativos.Master.Arrivals.Fresh.{free_lem, IsSorted-update_free}

-- A query has been put into the ready queue, and nothing else has changed.
record Enqueued (p : ℕ) (m : Master) (r : Option (Unit {0} × Master)) : Type 0 where
  ready : List ℕ
  returns : r ≡ some (tt, record m { ready_queue = ready })
  moved : Perm ready (p ∷ m.ready_queue)
  live : All (IsLive m.queries) ready
  sorted : by_priority m ≡ true → IsSorted (priority_of m.queries) ready

module _ (c : Commons) (p : ℕ) (m : Master) (live : IsLive m.queries p)
    (lives : All (IsLive m.queries) m.ready_queue)
    (sorted : by_priority m ≡ true → IsSorted (priority_of m.queries) m.ready_queue) where
  last-Enqueued :
      by_priority m ≡ false
      → Enqueued p m (some (tt, record m { ready_queue = c.list_add m.ready_queue p }))
  last-Enqueued fifo = rw (c.list_add_lem m.ready_queue p) (record {
    ready = m.ready_queue ++ p ∷ [];
    returns = refl;
    moved = perm_append_singleton p m.ready_queue;
    live = All-append _ m.ready_queue (p ∷ []) lives (live, tt);
    sorted = λ priority. absurd cc;
  })

  inserted-Enqueued : by_priority m ≡ true → Enqueued p m (insert_query_by_priority c p m)
  inserted-Enqueued priority = record {
    ready = ins.before ++ p ∷ ins.after;
    returns = ins.returns;
    moved = rw ins.whole (perm_middle ins.before ins.after);
    live =
        All-append _ ins.before (p ∷ ins.after) (All-left _ ins.before ins.after parts)
          (live, All-right _ ins.before ins.after parts);
    sorted = λ _. ins.sorted;
  }
    where
      ins : Inserts p m (insert_query_by_priority c p m)
      ins = insert_query_by_priority-Inserts c p m live lives (sorted priority)

      parts : All (IsLive m.queries) (ins.before ++ ins.after)
      parts = subst (All (IsLive m.queries)) ins.whole lives

  enqueue_ready-Enqueued : Enqueued p m (enqueue_ready c p m)
  unfolding enqueue_ready
  enqueue_ready-Enqueued = if_elim (Enqueued p m) (by_priority m) inserted-Enqueued last-Enqueued

-- What the arrival of a query leaves.
pub record Admits (m : Master) (r : Option (Bool × Master)) : Type 0 where
  pub after : Master
  pub returns : r ≡ some (true, after)
  pub well_formed : WellFormed after
  pub queries_kept :
      Perm
        (after.ready_queue ++ after.running_list)
        (m.next_address ∷ (m.ready_queue ++ m.running_list))
  pub workers_kept : Perm (after.idle_list ++ after.busy_list) (m.idle_list ++ m.busy_list)

module _ (c : Commons) (sends : ℕ → Bool) (m : Master) (v : WellFormed m)
    (free : m.queries m.next_address ≡ none) (now query_priority client_socket : ℕ)
    (query_path : String) where
  block : Query
  block = record {
    socket_fd = client_socket;
    query_id = m.next_query_id;
    query_file_path = query_path;
    priority = query_priority;
    initial_priority = query_priority;
    ready_timestamp = now;
    assigned_worker_id = none;
    program_counter = 0;
    preemption_pending = false;
    cleaned_up = false;
    state = QueryState.ready;
  }

  -- The tables with the new block, before it is in the ready queue.
  listed : List Message → Master
  listed messages = record m {
    next_query_id = m.next_query_id + 1;
    outbox = messages;
    next_address = m.next_address + 1;
    queries = update m.queries m.next_address (some block);
    query_list = c.list_add m.query_list m.next_address;
  }

  still-IsLive :
      (l : List ℕ)
      → All (IsLive m.queries) l
      → All (IsLive (update m.queries m.next_address (some block))) l
  still-IsLive l h = All-map (IsLive m.queries) _ l (live-update m.queries m.next_address block) h

  listed-Enqueued :
      (messages : List Message)
      → Enqueued m.next_address (listed messages) (enqueue_ready c m.next_address (listed messages))
  unfolding listed
  listed-Enqueued messages =
      enqueue_ready-Enqueued c m.next_address (listed messages)
        (block, update_self m.queries m.next_address (some block))
        (still-IsLive m.ready_queue v.ready_live)
        (λ p.
          IsSorted-update_free m.queries m.next_address block free m.ready_queue v.ready_live
            (v.sorted p))

  -- The tables that the dispatch finds.
  admitted : List Message → List ℕ → Master
  admitted messages ready = record (listed messages) {
    ready_queue = ready;
    total_queries = m.total_queries + 1;
  }

  fresh_everywhere : ¬ Mem m.next_address (m.ready_queue ++ m.running_list)
  fresh_everywhere =
      free_lem m.queries m.next_address _ free
        (All-append _ m.ready_queue m.running_list v.ready_live v.running_live)

  module _ (messages : List Message) (ready : List ℕ)
      (moved : Perm ready (m.next_address ∷ m.ready_queue))
      (live : All (IsLive (update m.queries m.next_address (some block))) ready)
      (sorted : by_priority m ≡ true
        → IsSorted (priority_of (update m.queries m.next_address (some block))) ready) where
    admitted-WellFormed : WellFormed (admitted messages ready)
    unfolding admitted listed
    admitted-WellFormed = record {
      ready_live = live;
      running_live = still-IsLive m.running_list v.running_live;
      idle_live = v.idle_live;
      busy_live = v.busy_live;
      distinct_queries =
          Perm.nodup (Perm.symm (Perm.append_right m.running_list moved))
            (Nodup-cons.1 (fresh_everywhere, v.distinct_queries));
      distinct_workers = v.distinct_workers;
      sorted = sorted;
    }

    admitted_after :
        Keeps (admitted messages ready) (try_dispatch c sends (admitted messages ready))
    admitted_after = try_dispatch-Keeps c sends (admitted messages ready) admitted-WellFormed

  created :
      (messages : List Message)
      → create_query c now m.next_query_id query_path query_priority client_socket
          (record m { next_query_id = m.next_query_id + 1; outbox = messages })
        ≡ some (m.next_address, admitted messages (listed-Enqueued messages).ready)
  unfolding create_query admitted listed block
  created messages =
      ap
        (λ (r : Option (Unit {0} × Master)). elim r [
          | none ↦ none
          | some (_, m') ↦ some (m.next_address, record m' { total_queries = m'.total_queries + 1 })
        ])
        (listed-Enqueued messages).returns

  arrival-Admits : Admits m (
      manage_query_file_path c sends true now
        (some (some query_path, query_priority))
        client_socket
        m)
  unfolding manage_query_file_path generate_query_id admitted listed
  arrival-Admits =
      rw
        (
          manage_query_file_path,
          generate_query_id,
          ◌>>=◌,
          answered.returns,
          created answered.messages,
          kept.returns,
        )
        (record {
          after = kept.after;
          returns = refl;
          well_formed = kept.well_formed;
          queries_kept = Perm.trans kept.queries_kept (Perm.append_right m.running_list e.moved);
          workers_kept = kept.workers_kept;
        })
    where
      answered :
          Answered sends client_socket
            (record m { next_query_id = m.next_query_id + 1 })
            (package_to sends client_socket
              (connection_ok client_socket)
              (record m { next_query_id = m.next_query_id + 1 }))
      answered = package_to-Answered sends client_socket (connection_ok client_socket) _

      e :
          Enqueued m.next_address
            (listed answered.messages)
            (enqueue_ready c m.next_address (listed answered.messages))
      e = listed-Enqueued answered.messages

      kept :
          Keeps
            (admitted answered.messages e.ready)
            (try_dispatch c sends (admitted answered.messages e.ready))
      kept = admitted_after answered.messages e.ready e.moved e.live e.sorted

-- What the arrival leaves for each package, and for memory granted or not.
abbrev pub Arrival : Bool → Option (Option String × ℕ) → Master → Option (Bool × Master) → Type 0
Arrival granted none m r = r ≡ some (false, m)
Arrival false (some _) m r = r ≡ some (false, record m { next_query_id = m.next_query_id + 1 })
Arrival true (some (none, _)) m r = r ≡ none
Arrival true (some (some _, _)) m r = Admits m r

module _ (c : Commons) (sends : ℕ → Bool) (m : Master) (v : WellFormed m)
    (free : m.queries m.next_address ≡ none) (now client_socket : ℕ) where
  unreadable_lem :
      (sent : Option (Bool × Master)) (k : Bool → M Bool)
      → ((b : Bool) (m' : Master) → k b m' ≡ none)
      → (elim sent as (λ _. Option (Bool × Master)) [ none ↦ none | some (a, m') ↦ k a m' ]) ≡ none
  unreadable_lem none k e = refl
  unreadable_lem (some (a, m')) k e = e a m'

  -- On well-formed tables whose next address holds no query, whatever packages get through, the
  -- arrival of a query returns -1 and changes nothing where its package is NULL; returns -1 and
  -- has only taken an identifier where the package of the answer is not granted; faults where the
  -- answer is granted and the path cannot be read; and otherwise returns 0: the tables are well
  -- formed after it, the new query and those that were ready or running are ready or running, and
  -- the same workers are idle or busy as before.
  pub manage_query_file_path-Admits :
      (granted : Bool) (response_package : Option (Option String × ℕ))
      → Arrival granted response_package m
          (manage_query_file_path c sends granted now response_package client_socket m)
  unfolding manage_query_file_path generate_query_id
  manage_query_file_path-Admits true none = refl
  manage_query_file_path-Admits false none = refl
  manage_query_file_path-Admits false (some (query_path, query_priority)) = refl
  manage_query_file_path-Admits true (some (none, query_priority)) =
      unreadable_lem
        (package_to sends client_socket (connection_ok client_socket)
          (record m { next_query_id = m.next_query_id + 1 }))
        _ (λ b m'. refl)
  manage_query_file_path-Admits true (some (some query_path, query_priority)) =
      arrival-Admits c sends m v free now query_priority client_socket query_path
