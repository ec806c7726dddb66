-- ===== src/Master/Ordering.antt =====
-- The order of the ready queue that master/src/query_control_manager.c keeps: an insertion goes
-- behind every query of the same or a better priority.
use mathlib.Core.Path.{ap₂}
use native.Mathlib.Nat.{zero-add}
use tp_sistemas_operativos.Base.{
  ℕ, ◌+◌, ◌≤◌, ◌<◌, ◌≡◌, refl, ap, subst, append-nil, ◌∙◌, ◌⊎◌, inl, inr, Option, none, some, List,
  [], ◌∷◌, ◌++◌, arith, length, ltb, if_elim, ltb→lt, ltb-false→le,
}
use tp_sistemas_operativos.Master.Commons.{Commons, All, IsSorted}
use tp_sistemas_operativos.Master.State.{Master, Query, Store, ◌>>=◌}
use tp_sistemas_operativos.Master.Queries.{insertion_index, insert_query_by_priority}

-- The priority of a live block.
abbrev pub priority_at : Option Query → ℕ
priority_at none = 0
priority_at (some q) = q.priority

abbrev pub priority_of : Store Query → ℕ → ℕ
priority_of queries p = priority_at (queries p)

abbrev pub IsLive : Store Query → ℕ → Type 0
IsLive queries p = (q : Query) × (queries p ≡ some q)

-- Where the loop of an insertion stops: behind `before`, which does not come after the new query,
-- and ahead of `after`, whose first query does.
pub record Split (queries : Store Query) (priority i : ℕ) (ps : List ℕ) (r : Option (Option ℕ))
    : Type 0 where
  pub before : List ℕ
  pub after : List ℕ
  pub whole : ps ≡ before ++ after
  pub not_later : All (λ p. priority_of queries p ≤ priority) before
  pub stops :
      ((after ≡ []) × (r ≡ some none))
      ⊎ ((p : ℕ) × (rest : List ℕ) × (after ≡ p ∷ rest)
          × (priority < priority_of queries p)
          × (r ≡ some (some (i + length before))))

module _ (queries : Store Query) (priority : ℕ) where
  Split-here :
      (i p : ℕ) (ps : List ℕ)
      → priority < priority_of queries p
      → Split queries priority i (p ∷ ps) (some (some i))
  Split-here i p ps lt = record {
    before = [];
    after = p ∷ ps;
    whole = refl;
    not_later = tt;
    stops = inr (p, ps, refl, lt, ap (λ (n : ℕ). some (some n)) (omega arith));
  }

  Split-cons :
      (i p : ℕ) (ps : List ℕ) {r : Option (Option ℕ)}
      → priority_of queries p ≤ priority
      → Split queries priority (i + 1) ps r
      → Split queries priority i (p ∷ ps) r
  Split-cons i p ps le s = record {
    before = p ∷ s.before;
    after = s.after;
    whole = ap (◌∷◌ p) s.whole;
    not_later = (le, s.not_later);
    stops = elim s.stops [
      | inl e ↦ inl e
      | inr (h, rest, e, lt, at) ↦
          inr (h, rest, e, lt, at ∙ ap (λ (n : ℕ). some (some n)) (omega arith))
    ];
  }

  pub insertion_index-Split :
      (i : ℕ) (ps : List ℕ)
      → All (IsLive queries) ps
      → Split queries priority i ps (insertion_index queries priority i ps)
  unfolding insertion_index
  insertion_index-Split i [] live = record {
    before = [];
    after = [];
    whole = refl;
    not_later = tt;
    stops = inl (refl, refl);
  }
  insertion_index-Split i (p ∷ ps) live =
      let q = live.0.0 in
      let e : queries p ≡ some q = live.0.1 in
      let key : priority_of queries p ≡ q.priority = rw e in
      rw (e, insertion_index)
        (if_elim (Split queries priority i (p ∷ ps)) (ltb priority q.priority)
          (λ t. Split-here i p ps (omega (arith, ltb→lt priority q.priority t, key)))
          (λ f.
            Split-cons i p ps (omega (arith, ltb-false→le priority q.priority f, key))
              (insertion_index-Split (i + 1) ps live.1)))

module _ (key : ℕ → ℕ) (x : ℕ) where
  All-trans :
      (y : ℕ) (ps : List ℕ)
      → key x ≤ key y
      → All (λ p. key y ≤ key p) ps
      → All (λ p. key x ≤ key p) ps
  All-trans y [] le h = tt
  All-trans y (p ∷ ps) le h = (omega (arith, h.0), All-trans y ps le h.1)

  All-lt :
      (k y : ℕ) (ps : List ℕ) → k < key y → All (λ p. key y ≤ key p) ps → All (λ p. k < key p) ps
  All-lt k y [] le h = tt
  All-lt k y (p ∷ ps) le h = (omega (arith, h.0), All-lt k y ps le h.1)

pub All-append {ℓ κ} :
    {A : Type ℓ} (P : A → Type κ) (xs ys : List A) → All P xs → All P ys → All P (xs ++ ys)
All-append P [] ys hx hy = hy
All-append P (x ∷ xs) ys hx hy = (hx.0, All-append P xs ys hx.1 hy)

pub All-left {ℓ κ} : {A : Type ℓ} (P : A → Type κ) (xs ys : List A) → All P (xs ++ ys) → All P xs
All-left P [] ys h = tt
All-left P (x ∷ xs) ys h = (h.0, All-left P xs ys h.1)

pub All-right {ℓ κ} : {A : Type ℓ} (P : A → Type κ) (xs ys : List A) → All P (xs ++ ys) → All P ys
All-right P [] ys h = h
All-right P (x ∷ xs) ys h = All-right P xs ys h.1

IsSorted-right : (key : ℕ → ℕ) (xs ys : List ℕ) → IsSorted key (xs ++ ys) → IsSorted key ys
IsSorted-right key [] ys h = h
IsSorted-right key (x ∷ xs) ys h = IsSorted-right key xs ys h.1

-- A key goes between the smaller or equal ones and the greater ones.
IsSorted-insert :
    (key : ℕ → ℕ) (x : ℕ) (before after : List ℕ)
    → IsSorted key (before ++ after)
    → All (λ p. key p ≤ key x) before
    → All (λ p. key x < key p) after
    → IsSorted key (before ++ x ∷ after)
IsSorted-insert key x [] after s b a = (All_le after a, s)
  where
    All_le : (ps : List ℕ) → All (λ p. key x < key p) ps → All (λ p. key x ≤ key p) ps
    All_le [] h = tt
    All_le (p ∷ ps) h = (omega (arith, h.0), All_le ps h.1)
IsSorted-insert key x (y ∷ before) after s b a = (
  All-append (λ p. key y ≤ key p) before (x ∷ after) (All-left _ before after s.0)
      (b.0, All-right _ before after s.0),
  IsSorted-insert key x before after s.1 b.1 a,
)

-- What an insertion does to the ready queue, and that it does nothing else.
pub record Inserts (new_qcb : ℕ) (m : Master) (r : Option (Unit {0} × Master)) : Type 0 where
  pub before : List ℕ
  pub after : List ℕ
  pub whole : m.ready_queue ≡ before ++ after
  pub returns : r ≡ some (tt, record m { ready_queue = before ++ new_qcb ∷ after })
  pub not_later : All (λ p. priority_of m.queries p ≤ priority_of m.queries new_qcb) before
  pub later : All (λ p. priority_of m.queries new_qcb < priority_of m.queries p) after
  pub sorted : IsSorted (priority_of m.queries) (before ++ new_qcb ∷ after)

with_ready : Master → List ℕ → Option (Unit {0} × Master)
with_ready m l = some (tt, record m { ready_queue = l })

insert_query_by_priority-Split :
    (c : Commons) (new_qcb : ℕ) (m : Master) (q : Query)
    → m.queries new_qcb ≡ some q
    → (s : Split m.queries q.priority 0 m.ready_queue
        (insertion_index m.queries q.priority 0 m.ready_queue))
    → insert_query_by_priority c new_qcb m ≡ with_ready m (s.before ++ new_qcb ∷ s.after)
unfolding insert_query_by_priority with_ready
insert_query_by_priority-Split c new_qcb m q e s = elim s.stops [
  | inl (none_after, at) ↦
      rw (e, ◌>>=◌, at)
        (ap (with_ready m)
          (c.list_add_lem m.ready_queue new_qcb ∙ rw (s.whole, none_after, append-nil)))
  | inr (p, rest, first, lt, at) ↦
      rw (e, ◌>>=◌, at)
        (ap (with_ready m) (
          ap₂ (λ l i. c.list_add_in_index l i new_qcb) s.whole (zero-add (length s.before))
          ∙ c.list_add_in_index_lem s.before s.after new_qcb))
]

later_in_order :
    (queries : Store Query) (priority i : ℕ) (ps : List ℕ) (r : Option (Option ℕ))
    → (s : Split queries priority i ps r) → IsSorted (priority_of queries) ps
    → All (λ p. priority < priority_of queries p) s.after
later_in_order queries priority i ps r s sorted = elim s.stops [
  | inl (none_after, _) ↦ rw none_after tt
  | inr (p, rest, first, lt, _) ↦ rw first (
    lt,
    All-lt (priority_of queries) p priority p rest lt
        (subst (IsSorted (priority_of queries)) first (
          IsSorted-right (priority_of queries) s.before s.after
            (subst (IsSorted (priority_of queries)) s.whole sorted))).0,
  )
]

-- Into a ready queue of live blocks in the order of their priorities, a live query is inserted
-- behind every query of a better or the same priority and ahead of all others; the queue stays in
-- order, and nothing else changes.
pub insert_query_by_priority-Inserts :
    (c : Commons) (new_qcb : ℕ) (m : Master)
    → IsLive m.queries new_qcb
    → All (IsLive m.queries) m.ready_queue
    → IsSorted (priority_of m.queries) m.ready_queue
    → Inserts new_qcb m (insert_query_by_priority c new_qcb m)
unfolding with_ready
insert_query_by_priority-Inserts c new_qcb m (q, e) live sorted = record {
  before = s.before;
  after = s.after;
  whole = s.whole;
  returns = insert_query_by_priority-Split c new_qcb m q e s;
  not_later = early;
  later = late;
  sorted =
      IsSorted-insert (priority_of m.queries) new_qcb s.before s.after
        (subst (IsSorted (priority_of m.queries)) s.whole sorted) early late;
}
  where
    s :
        Split m.queries q.priority 0 m.ready_queue
          (insertion_index m.queries q.priority 0 m.ready_queue)
    s = insertion_index-Split m.queries q.priority 0 m.ready_queue live

    key : q.priority ≡ priority_of m.queries new_qcb
    key = rw e

    early : All (λ p. priority_of m.queries p ≤ priority_of m.queries new_qcb) s.before
    early = subst (λ k. All (λ p. priority_of m.queries p ≤ k) s.before) key s.not_later

    late : All (λ p. priority_of m.queries new_qcb < priority_of m.queries p) s.after
    late =
        subst (λ k. All (λ p. k < priority_of m.queries p) s.after) key
          (later_in_order m.queries q.priority 0 m.ready_queue _ s sorted)
