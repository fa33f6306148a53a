-- ===== src/OperationLog.antt =====
-- src/crdt/operation-log.ts: `OperationLog`, which applies operations as they arrive and holds back
-- those whose causal predecessors are missing.
pub mod Flush
pub mod Bounds
pub mod Delivery
mod Tests
use sync_engine.Base.{
  ℕ, zero, suc, ◌+◌, Bool, true, false, ◌&&◌, ◌||◌, List, [], ◌∷◌, ◌++◌, length, ltb, leb, ◌==◌,
  if◌then◌else◌,
}
use sync_engine.Base.Text.{Text, codes, ◌===◌}
use sync_engine.Op.{OperationEnvelope, decimal}
use sync_engine.Rga.{Rga, add_key, apply_operation}

pub record PendingOp : Type 0 where
  pub envelope : OperationEnvelope
  pub attempts : ℕ
  pub first_seen : ℕ

-- The two sets are their membership tests; `reloads` counts the calls of `onCausalGapExceeded`.
pub record OperationLog : Type 0 where
  pub applied_seqs : ℕ → Bool
  pub applied_client_keys : Text → Bool
  pub buffer : List PendingOp
  pub max_buffer_size : ℕ
  pub max_applied_seq : ℕ
  pub reloads : ℕ

-- `new OperationLog(maxBufferSize)`
unfoldable pub empty_log : ℕ → OperationLog
empty_log size = record {
  applied_seqs = λ s. false;
  applied_client_keys = λ k. false;
  buffer = [];
  max_buffer_size = size;
  max_applied_seq = 0;
  reloads = 0;
}

-- `${sessionId}:${clientSeq}`
unfoldable pub client_key : OperationEnvelope → Text
client_key e = e.session_id ++ (codes ":" ++ decimal e.client_seq)

unfoldable pub has_applied : OperationEnvelope → OperationLog → Bool
has_applied e log =
    (ltb 0 e.seq && log.applied_seqs e.seq) || log.applied_client_keys (client_key e)

unfoldable pub record_applied : OperationEnvelope → OperationLog → OperationLog
record_applied e log = record log {
  applied_seqs = if ltb 0 e.seq then (λ s. s == e.seq || log.applied_seqs s) else log.applied_seqs;
  max_applied_seq =
      if ltb 0 e.seq && ltb log.max_applied_seq e.seq then e.seq else log.max_applied_seq;
  applied_client_keys = add_key (client_key e) log.applied_client_keys;
}

abbrev pub retried : PendingOp → PendingOp
retried p = record p { attempts = p.attempts + 1 }

-- The `for` of `flushBuffer`: the operations that are still pending, the log, the document, and
-- whether one was applied.
unfoldable pub flush_pass :
    List PendingOp → OperationLog → Rga → List PendingOp × OperationLog × Rga × Bool
unfolding record_applied
flush_pass [] log d = ([], log, d, false)
flush_pass (p ∷ ps) log d =
    let (d', applied) = apply_operation p.envelope.op d in
    let (still, log', d'', progress) =
      flush_pass ps (if applied then record_applied p.envelope log else log) d' in
    (if applied then still else retried p ∷ still, log', d'', applied || progress)

-- The `while` of `flushBuffer`, with fuel.
unfoldable pub flush_loop : ℕ → OperationLog → Rga → OperationLog × Rga
unfolding flush_pass
flush_loop zero log d = (log, d)
flush_loop (suc fuel) log d = elim log.buffer [
  | [] ↦ (log, d)
  | p ∷ ps ↦
      let (still, log', d', progress) = flush_pass (p ∷ ps) log d in
      let log'' = record log' { buffer = still } in
      let rest = flush_loop fuel log'' d' in if progress then rest else (log'', d')
]

-- Each round that makes progress shortens the buffer, so that one round more than it is long is
-- enough.
unfoldable pub flush_buffer : OperationLog → Rga → OperationLog × Rga
unfolding flush_loop
flush_buffer log d = flush_loop (suc (length log.buffer)) log d

-- `forceApplyBuffer`: the buffer is dropped and a reload requested.
unfoldable pub force_apply_buffer : OperationLog → OperationLog
force_apply_buffer log = record log { buffer = []; reloads = log.reloads + 1 }

abbrev pub buffered : OperationEnvelope → ℕ → OperationLog → OperationLog
buffered e now log =
    if ltb (length log.buffer) log.max_buffer_size
    then record log {
      buffer = log.buffer ++ record { envelope = e; attempts = 1; first_seen = now } ∷ [];
    }
    else log

abbrev pub overflow_checked : OperationLog → OperationLog
overflow_checked log =
    if leb log.max_buffer_size (length log.buffer) then force_apply_buffer log else log

-- `now` is `Date.now()`.
unfoldable pub apply_or_buffer :
    OperationEnvelope → ℕ → OperationLog → Rga → OperationLog × Rga × Bool
unfolding has_applied record_applied flush_buffer force_apply_buffer
apply_or_buffer e now log d =
    if has_applied e log
    then (log, d, true)
    else let (d', applied) = apply_operation e.op d in
      let (log', d'') = flush_buffer (record_applied e log) d' in
      if applied then (log', d'', true) else (overflow_checked (buffered e now log), d', false)
