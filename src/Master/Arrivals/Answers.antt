-- ===== src/Master/Arrivals/Answers.antt =====
-- A package that master/src sends in answer to an arrival.
use tp_sistemas_operativos.Base.{
  ℕ, ◌≡◌, refl, sym, Bool, true, false, Option, List, [], ◌∷◌, ◌++◌, some, Bool-cases, inl, inr,
}
use tp_sistemas_operativos.Master.State.{Master, Message, send_message}
use tp_sistemas_operativos.Master.Arrivals.{package_to}

-- The answer is sent or not, and nothing but the outbox changes.
pub record Answered (sends : ℕ → Bool) (socket : ℕ) (m : Master) (r : Option (Bool × Master))
    : Type 0 where
  pub sent : Bool
  pub messages : List Message
  pub returns : r ≡ some (sent, record m { outbox = messages })
  pub taken : sent ≡ sends socket

pub package_to-Answered :
    (sends : ℕ → Bool) (socket : ℕ) (message : Message) (m : Master)
    → Answered sends socket m (package_to sends socket message m)
unfolding package_to send_message
package_to-Answered sends socket message m = elim (Bool-cases (sends socket)) [
  | inl e ↦
      rw e
        (record { sent = true; messages = m.outbox ++ message ∷ []; returns = refl; taken = sym e })
  | inr e ↦ rw e (record { sent = false; messages = m.outbox; returns = refl; taken = sym e })
]
