-- ===== src/Master/Aging.antt =====
-- The aging of the ready queue in master/src/aging.c: one round of aging_thread_func between taking
-- and releasing the mutex of the queries, at time `now`, with a positive aging interval. Times are
-- uint64_t; the number of intervals is an int, negative from 2 ^ 31 on.
pub mod Live
pub mod Queue
use tp_sistemas_operativos.Base.{
  ℕ, ◌+◌, ◌-◌, ◌*◌, ◌/◌, ◌%◌, ◌^◌, Bool, true, false, not, ◌&&◌, ◌||◌, Option, none, some, List, [],
  ◌∷◌, ltb, leb, ◌==◌, if◌then◌else◌,
}
use tp_sistemas_operativos.Master.Commons.{Commons}
use tp_sistemas_operativos.Master.State.{Master, Query, QueryState, Store, update}
use tp_sistemas_operativos.Master.Ordering.{priority_of}

-- state != QUERY_STATE_READY is the other way round.
abbrev pub is_ready : QueryState → Bool
is_ready QueryState.ready = true
is_ready _ = false

abbrev pub elapsed : ℕ → Query → ℕ
elapsed now q = (2 ^ 64 + now - q.ready_timestamp) % 2 ^ 64

abbrev pub intervals : ℕ → ℕ → Query → ℕ
intervals now aging_interval q = elapsed now q / aging_interval % 2 ^ 32

-- The block with a better priority.
abbrev pub aged : ℕ → ℕ → Query → Query
aged now aging_interval q =
    let decrements = intervals now aging_interval q in
    record q {
      priority = if leb q.priority decrements then 0 else q.priority - decrements;
      ready_timestamp = (q.ready_timestamp + decrements * aging_interval) % 2 ^ 64;
    }

abbrev pub is_due : ℕ → ℕ → Query → Bool
is_due now aging_interval q =
    ltb 0 (intervals now aging_interval q)
    && ltb (intervals now aging_interval q) (2 ^ 31)
    && ltb 0 q.priority

-- The body of the loop on a block, and whether it set priorities_changed.
unfoldable pub age_query : ℕ → ℕ → Query → Query × Bool
age_query now aging_interval q =
    if not (is_ready q.state)
    then (q, false)
    else if q.ready_timestamp == 0
    then (record q { ready_timestamp = now }, false)
    else if ltb (elapsed now q) aging_interval
    then (q, false)
    else if is_due now aging_interval q
    then (aged now aging_interval q, true)
    else (q, false)

-- The loop over the ready queue; a block that is not live is a fault.
unfoldable pub age_queries : ℕ → ℕ → Store Query → List ℕ → Option (Store Query × Bool)
age_queries now aging_interval queries [] = some (queries, false)
age_queries now aging_interval queries (p ∷ ps) = elim (queries p) [
  | none ↦ none
  | some q ↦
      let r = age_query now aging_interval q in
      elim (age_queries now aging_interval (update queries p (some r.0)) ps) [
        | none ↦ none
        | some (after, changed) ↦ some (after, r.1 || changed)
      ]
]

module _ (c : Commons) where
  -- The queue after the loop: sorted again where a priority changed.
  abbrev pub resorted : Store Query → Bool → List ℕ → List ℕ
  resorted queries priorities_changed ready_queue =
      if priorities_changed
      then c.list_sort ready_queue (λ a b. ltb (priority_of queries a) (priority_of queries b))
      else ready_queue

  unfoldable pub age_ready_queue : ℕ → Master → Option Master
  age_ready_queue now m = elim (age_queries now m.aging_interval m.queries m.ready_queue) [
    | none ↦ none
    | some (queries, priorities_changed) ↦ some (record m {
      queries = queries;
      ready_queue = resorted queries priorities_changed m.ready_queue;
    })
  ]
