-- ===== src/Worker/Memory/Outcomes.antt =====
-- Calls of worker/src/memory/memory_manager.c that neither fault nor run forever, with what holds
-- of the memory when they give a value and when they fail.
use tp_sistemas_operativos.Base.{Option, none, some, refl, ◌≡◌}
use tp_sistemas_operativos.Worker.Memory.State.{Memory, Outcome, fails, gives, M, then_do, cleaned}

pub data Ensures {R A : Type 0} (P : A → Memory R → Type 0) (Q : Memory R → Type 0)
    : Outcome R A → Type 0 where
  returned : (a : A) (m : Memory R) → P a m → Ensures P Q (gives a m)
  refused : (m : Memory R) → Q m → Ensures P Q (fails m)

module _ {R A : Type 0} {P : A → Memory R → Type 0} {Q : Memory R → Type 0} where
  pub then-Ensures :
      {B : Type 0} {P' : B → Memory R → Type 0} {k : A → M R B} {o : Outcome R A}
      → Ensures P Q o
      → ((a : A) (m : Memory R) → P a m → Ensures P' Q (k a m))
      → Ensures P' Q (then_do o k)
  then-Ensures (returned a m p) f = f a m p
  then-Ensures (refused m q) f = refused m q

  pub weaken :
      {P' : A → Memory R → Type 0} {Q' : Memory R → Type 0} {o : Outcome R A}
      → Ensures P Q o
      → ((a : A) (m : Memory R) → P a m → P' a m)
      → ((m : Memory R) → Q m → Q' m)
      → Ensures P' Q' o
  weaken (returned a m p) f g = returned a m (f a m p)
  weaken (refused m q) f g = refused m (g m q)

  pub cleaned-Ensures :
      {Q' : Memory R → Type 0} (f : Memory R → Memory R) {o : Outcome R A}
      → Ensures P Q o
      → ((m : Memory R) → Q m → Q' (f m))
      → Ensures P Q' (cleaned o f)
  cleaned-Ensures f (returned a m p) g = returned a m p
  cleaned-Ensures f (refused m q) g = refused (f m) (g m q)

-- No memory.
abbrev pub Never : {R : Type 0} → Memory R → Type 0
Never m = ⊥

module _ {R A B : Type 0} {P : B → Memory R → Type 0} {Q : Memory R → Type 0} where
  -- A call, and then the rest.
  pub bind-Ensures :
      {k : A → M R B} {o : Outcome R A}
      → Ensures (λ a m. Ensures P Q (k a m)) Q o
      → Ensures P Q (then_do o k)
  bind-Ensures e = then-Ensures e (λ a m p. p)

  -- A call that looks at a value that may be missing.
  pub option_Ensures :
      (o : Option A) (x : M R B) (f : A → M R B) {m : Memory R}
      → (o ≡ none → Ensures P Q (x m))
      → ((a : A) → o ≡ some a → Ensures P Q (f a m))
      → Ensures P Q ((elim o as (λ _. M R B) [ none ↦ x | some a ↦ f a ]) m)
  option_Ensures none x f missing there = missing refl
  option_Ensures (some a) x f missing there = there a refl
