-- ===== src/Master/State.antt =====
-- master/src/query_control_manager.h, worker_manager.h and init_master.h: the control blocks of
-- queries and workers, the tables that list them, and the memory in which they live. A block is
-- reached by its address, so that the lists share it; reading or writing a block that is not live
-- is a fault, `none`. An int that is -1 for "no value" is an Option; descriptors, identifiers and
-- priorities are not negative. `next_query_id` is the source's counter plus one, since that starts at
-- -1. `outbox` is what has been sent, oldest first.
use Prim.Native.String.{String}
use mathlib.Core.Path.{fun_ext}
use tp_sistemas_operativos.Base.{
  ℕ, arith, ◌≡◌, Bool, Option, none, some, List, [], ◌∷◌, ◌++◌, ◌==◌, if◌then◌else◌,
}

pub data QueryState : Type 0 where
  new ready running completed canceled : QueryState

pub record Query : Type 0 where
  pub socket_fd : ℕ
  pub query_id : ℕ
  pub query_file_path : String
  pub priority : ℕ
  pub initial_priority : ℕ
  pub ready_timestamp : ℕ
  pub assigned_worker_id : Option ℕ
  pub program_counter : ℕ
  pub preemption_pending : Bool
  pub cleaned_up : Bool
  pub state : QueryState

pub data WorkerState : Type 0 where
  disconnected idle busy : WorkerState

pub record Worker : Type 0 where
  pub worker_id : ℕ
  pub socket_fd : ℕ
  pub current_query_id : Option ℕ
  pub state : WorkerState

-- The packages that the master sends, with the socket and the fields of each.
pub data Message : Type 0 where
  connection_ok : (socket : ℕ) → Message
  worker_ack : (socket : ℕ) → Message
  query_handshake : (socket : ℕ) → Message
  start_query : (socket query_id program_counter : ℕ) → String → Message
  preempt_request : (socket query_id : ℕ) → Message
  end_query : (socket query_id : ℕ) → Message
  finished_with_error : (socket query_id : ℕ) → String → Message

abbrev pub Store : Type 0 → Type 0
Store A = ℕ → Option A

abbrev pub update : {A : Type 0} → Store A → ℕ → Option A → Store A
update f p v q = if q == p then v else f q

pub update-update :
    {A : Type 0} (f : Store A) (p : ℕ) (v w : Option A) → update (update f p v) p w ≡ update f p w
update-update f p v w = fun_ext λ q. ground arith

pub record Master : Type 0 where
  pub queries : Store Query
  pub query_list : List ℕ
  pub ready_queue : List ℕ
  pub running_list : List ℕ
  pub completed_list : List ℕ
  pub canceled_list : List ℕ
  pub total_queries : ℕ
  pub next_query_id : ℕ
  pub workers : Store Worker
  pub worker_list : List ℕ
  pub idle_list : List ℕ
  pub busy_list : List ℕ
  pub disconnected_list : List ℕ
  pub total_workers_connected : ℕ
  pub aging_interval : ℕ
  pub scheduling_algorithm : String
  pub multiprogramming_level : ℕ
  pub next_address : ℕ
  pub outbox : List Message

-- An operation returns a value and the master after it, or faults.
abbrev pub M : Type 0 → Type 0
M A = Master → Option (A × Master)

abbrev pub pure : {A : Type 0} → A → M A
pure a m = some (a, m)

infixl 5 ◌>>=◌ ◌>>◌
abbrev pub ◌>>=◌ : {A B : Type 0} → M A → (A → M B) → M B
◌>>=◌ f k m = elim (f m) [ none ↦ none | some (a, m') ↦ k a m' ]

abbrev pub ◌>>◌ : {B : Type 0} → M (Unit {0}) → M B → M B
f >> k = f >>= λ _. k

abbrev pub gets : {A : Type 0} → (Master → A) → M A
gets f m = some (f m, m)

abbrev pub modify : (Master → Master) → M (Unit {0})
modify f m = some (tt, f m)

unfoldable pub load_query : ℕ → M Query
load_query p m = elim (m.queries p) [ none ↦ none | some q ↦ some (q, m) ]

unfoldable pub load_worker : ℕ → M Worker
load_worker p m = elim (m.workers p) [ none ↦ none | some w ↦ some (w, m) ]

-- An update of the fields of a live block.
unfoldable pub set_query : ℕ → (Query → Query) → M (Unit {0})
set_query p f m = elim (m.queries p) [
  | none ↦ none
  | some q ↦ some (tt, record m { queries = update m.queries p (some (f q)) })
]

unfoldable pub set_worker : ℕ → (Worker → Worker) → M (Unit {0})
set_worker p f m = elim (m.workers p) [
  | none ↦ none
  | some w ↦ some (tt, record m { workers = update m.workers p (some (f w)) })
]

unfoldable pub send_message : Message → M (Unit {0})
send_message message = modify (λ m. record m { outbox = m.outbox ++ message ∷ [] })
