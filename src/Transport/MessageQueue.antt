-- ===== src/Transport/MessageQueue.antt =====
-- The queue of a session in src/server/transport/websocket-server.ts: operations go before presence
-- and pings, and one message at a time is taken from the front.
use sync_engine.Base.{ℕ, Bool, true, false, List, [], ◌∷◌, ◌++◌, ltb, if◌then◌else◌}
use sync_engine.Base.Text.{Text}
use sync_engine.Server.Handler.{OperationMessage}
use sync_engine.Transport.Presence.{PresenceUpdate}

-- The messages that the schema lets through, with the time of a ping.
pub data ClientMessage : Type 0 where
  join_again : ClientMessage
  operation : OperationMessage → ClientMessage
  presence : Text → PresenceUpdate → ClientMessage
  ping : ℕ → ClientMessage

abbrev pub is_operation : ClientMessage → Bool
is_operation (operation msg) = true
is_operation join_again = false
is_operation (presence doc_id update) = false
is_operation (ping at) = false

pub record Queued : Type 0 where
  pub priority : ℕ
  pub msg : ClientMessage

abbrev pub priority_of : ClientMessage → ℕ
priority_of msg = if is_operation msg then 0 else 1

abbrev pub queued : ClientMessage → Queued
queued msg = record { priority = priority_of msg; msg = msg }

-- The loop that looks for the first entry of a greater priority number, and the push behind it.
unfoldable pub place : Queued → List Queued → List Queued
place q [] = q ∷ []
place q (r ∷ queue) =
    let further = r ∷ place q queue in if ltb q.priority r.priority then q ∷ r ∷ queue else further

-- What happens to the queue: a message arrives, or the loop shifts the front.
pub data QueueEvent : Type 0 where
  arrives : ClientMessage → QueueEvent
  shifts : QueueEvent

-- The queue, and the messages that the loop has taken, the earliest first.
pub record QueueState : Type 0 where
  pub queue : List Queued
  pub taken : List ClientMessage

unfoldable pub shift : List Queued → List ClientMessage → QueueState
shift [] taken = record { queue = []; taken = taken }
shift (q ∷ queue) taken = record { queue = queue; taken = taken ++ q.msg ∷ [] }

unfoldable pub queue_step : QueueEvent → QueueState → QueueState
unfolding place shift
queue_step (arrives msg) s = record s { queue = place (queued msg) s.queue }
queue_step shifts s = shift s.queue s.taken

unfoldable pub queue_run : List QueueEvent → QueueState → QueueState
unfolding queue_step
queue_run [] s = s
queue_run (e ∷ events) s = queue_run events (queue_step e s)
