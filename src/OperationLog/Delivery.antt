-- ===== src/OperationLog/Delivery.antt =====
-- A whole sequence of arrivals at the log.
pub mod Progress
pub mod Step
pub mod AnyOrder
use sync_engine.Base.{ℕ, zero, ◌≡◌, ◌≢◌, ◌<◌, List, [], ◌∷◌, map, All}
use sync_engine.Op.{OperationEnvelope, Operation}
use sync_engine.Rga.{Rga}
use sync_engine.OperationLog.{PendingOp, OperationLog, client_key, apply_or_buffer}

-- `applyOrBuffer` for each envelope that arrives.
unfoldable pub deliver : List OperationEnvelope → OperationLog → Rga → OperationLog × Rga
unfolding apply_or_buffer
deliver [] log d = (log, d)
deliver (e ∷ es) log d = let (log', d', applied) = apply_or_buffer e 0 log d in deliver es log' d'

abbrev pub op_of : OperationEnvelope → Operation
op_of e = e.op

abbrev pub pending_op : PendingOp → Operation
pending_op p = p.envelope.op

-- Two envelopes that the log tells apart: by their number, if the first has one, and by their
-- session and client number.
abbrev pub Apart : OperationEnvelope → OperationEnvelope → Type 0
Apart e f = (e.seq ≡ f.seq → e.seq ≡ 0) × (client_key e ≢ client_key f)

abbrev pub AllApart : List OperationEnvelope → Type 0
AllApart [] = Unit
AllApart (e ∷ es) = All (λ f. Apart f e) es × AllApart es
