-- ===== src/Master/Arrivals.antt =====
-- master/src/query_control_manager.c and worker_manager.c: the arrival of a query and of a worker.
-- What the package gave is an argument. Memory for a control block is granted. The steps of a call follow each other with no other thread's in between. `true` is the result 0.
pub mod Answers
pub mod Fresh
pub mod Queries
pub mod Workers
use Prim.Native.String.{String}
use tp_sistemas_operativos.Base.{
  ℕ, ◌+◌, Bool, true, false, not, Option, none, some, List, [], ◌∷◌, ◌==◌, if◌then◌else◌,
}
use tp_sistemas_operativos.Master.Commons.{Commons}
use tp_sistemas_operativos.Master.State.{
  Master, Worker, WorkerState, Message, connection_ok, query_handshake, worker_ack, M, pure, ◌>>=◌,
  ◌>>◌, gets, modify, update, send_message,
}
use tp_sistemas_operativos.Master.Queries.{create_query, generate_query_id}
use tp_sistemas_operativos.Master.Dispatch.{try_dispatch}

-- A package to a socket, which may not take it.
unfoldable pub package_to : (ℕ → Bool) → ℕ → Message → M Bool
unfolding send_message
package_to sends socket message =
    if not (sends socket) then pure false else do send_message message; pure true

-- The answer to the handshake of a query control; `false` is the result -2.
unfoldable pub manage_query_handshake : (ℕ → Bool) → ℕ → M Bool
manage_query_handshake sends client_socket =
    package_to sends client_socket (query_handshake client_socket)

module _ (c : Commons) (sends : ℕ → Bool) where
  -- create_query copies the path with strdup, which faults on NULL. It returns no NULL itself.
  abbrev pub query_from : ℕ → ℕ → Option String → ℕ → ℕ → M ℕ
  query_from now query_id none priority socket_fd = λ _. none
  query_from now query_id (some query_path) priority socket_fd =
      create_query c now query_id query_path priority socket_fd

  -- `granted` says whether package_create_empty gives a package. The package of the query control is
  -- NULL or gives the path, itself NULL where it cannot be read, and what query_priority then holds.
  -- Whether the answer was sent is not looked at, nor the result of the dispatch. `false` is the
  -- result -1.
  unfoldable pub manage_query_file_path : Bool → ℕ → Option (Option String × ℕ) → ℕ → M Bool
  manage_query_file_path granted now none client_socket = pure false
  manage_query_file_path granted now (some (query_path, query_priority)) client_socket = do
    assigned_id ← generate_query_id
    if not granted then pure false else do
      sent ← package_to sends client_socket (connection_ok client_socket)
      qcb ← query_from now assigned_id query_path query_priority client_socket
      dispatched ← try_dispatch c sends
      pure true

module _ (c : Commons) where
  unfoldable pub create_worker : ℕ → ℕ → M ℕ
  create_worker worker_id socket_fd = do
    wcb ← gets (λ m. m.next_address)
    modify λ m. record m {
      next_address = m.next_address + 1;
      workers = update m.workers wcb (
          some (record {
            worker_id = worker_id;
            socket_fd = socket_fd;
            current_query_id = none;
            state = WorkerState.idle;
          }));
      worker_list = c.list_add m.worker_list wcb;
      total_workers_connected = m.total_workers_connected + 1;
      idle_list = c.list_add m.idle_list wcb;
    }
    pure wcb

module _ (c : Commons) (sends : ℕ → Bool) where
  -- A worker whose answer cannot be sent stays in the tables.
  unfoldable pub manage_worker_handshake : ℕ → ℕ → M Bool
  manage_worker_handshake worker_id client_socket = if worker_id == 0 then pure false else do
    wcb ← create_worker c worker_id client_socket
    modify (λ m. record m { multiprogramming_level = m.total_workers_connected })
    sent ← package_to sends client_socket (worker_ack client_socket)
    if not sent then pure false else do dispatched ← try_dispatch c sends; pure true
