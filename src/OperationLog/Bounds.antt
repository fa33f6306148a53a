-- ===== src/OperationLog/Bounds.antt =====
-- What the log keeps: the greatest sequence number and the size of the buffer.
use sync_engine.Base.{
  ℕ, zero, suc, ◌≤◌, ◌<◌, ◌≡◌, refl, Bool, true, false, List, [], ◌∷◌, length, arith, if◌then◌else◌,
  Bool-cases, List-cases, inl, inr, length-append,
}
use sync_engine.Op.{OperationEnvelope}
use sync_engine.Rga.{Rga, apply_operation}
use sync_engine.OperationLog.{
  PendingOp, OperationLog, has_applied, record_applied, flush_pass, flush_loop, flush_buffer,
  force_apply_buffer, apply_or_buffer,
}
use sync_engine.OperationLog.Flush.{flush_pass-length}

-- No recorded sequence number is above `maxAppliedSeq`, which is zero or recorded.
abbrev pub SeqsBounded : OperationLog → Type 0
SeqsBounded log =
    ((s : ℕ) → log.applied_seqs s ≡ true → s ≤ log.max_applied_seq)
    × ((0 < log.max_applied_seq) → log.applied_seqs log.max_applied_seq ≡ true)

record_applied-SeqsBounded :
    (e : OperationEnvelope) (log : OperationLog)
    → SeqsBounded log
    → SeqsBounded (record_applied e log)
unfolding record_applied
record_applied-SeqsBounded e log h = (λ s k. ground (arith, h.0 s), λ k. ground (arith, h.1))

record_if-SeqsBounded :
    (b : Bool) (e : OperationEnvelope) (log : OperationLog)
    → SeqsBounded log
    → SeqsBounded (if b then record_applied e log else log)
record_if-SeqsBounded true e log h = record_applied-SeqsBounded e log h
record_if-SeqsBounded false e log h = h

flush_pass-SeqsBounded :
    (ps : List PendingOp) (log : OperationLog) (d : Rga)
    → SeqsBounded log
    → SeqsBounded (flush_pass ps log d).1
unfolding flush_pass
flush_pass-SeqsBounded [] log d h = h
flush_pass-SeqsBounded (p ∷ ps) log d h =
    flush_pass-SeqsBounded ps
      (if (apply_operation p.envelope.op d).1 then record_applied p.envelope log else log)
      (apply_operation p.envelope.op d).0
      (record_if-SeqsBounded (apply_operation p.envelope.op d).1 p.envelope log h)

flush_loop-SeqsBounded :
    (fuel : ℕ) (log : OperationLog) (d : Rga)
    → SeqsBounded log
    → SeqsBounded (flush_loop fuel log d).0
unfolding flush_loop
flush_loop-SeqsBounded zero log d h = h
flush_loop-SeqsBounded (suc fuel) log d h = elim (List-cases log.buffer) [
  | inl empty ↦ ground (arith, empty, h)
  | inr (p, ps, full) ↦ ground (
    arith,
    full,
    flush_pass-SeqsBounded (p ∷ ps) log d h,
    flush_loop-SeqsBounded fuel
        (record (flush_pass (p ∷ ps) log d).1 { buffer = (flush_pass (p ∷ ps) log d).0 })
        (flush_pass (p ∷ ps) log d).2,
  )
]

flush_pass-max_buffer_size :
    (ps : List PendingOp) (log : OperationLog) (d : Rga)
    → (flush_pass ps log d).1.max_buffer_size ≡ log.max_buffer_size
unfolding flush_pass record_applied
flush_pass-max_buffer_size [] log d = refl
flush_pass-max_buffer_size (p ∷ ps) log d = ground (
  arith,
  flush_pass-max_buffer_size ps
      (if (apply_operation p.envelope.op d).1 then record_applied p.envelope log else log)
      (apply_operation p.envelope.op d).0,
)

pub flush_loop-length :
    (fuel : ℕ) (log : OperationLog) (d : Rga)
    → (length (flush_loop fuel log d).0.buffer ≤ length log.buffer)
      × ((flush_loop fuel log d).0.max_buffer_size ≡ log.max_buffer_size)
unfolding flush_loop
flush_loop-length zero log d = ground arith
flush_loop-length (suc fuel) log d = elim (List-cases log.buffer) [
  | inl empty ↦ ground (arith, empty)
  | inr (p, ps, full) ↦ ground (
    arith,
    full,
    flush_pass-length (p ∷ ps) log d,
    flush_pass-max_buffer_size (p ∷ ps) log d,
    flush_loop-length fuel
        (record (flush_pass (p ∷ ps) log d).1 { buffer = (flush_pass (p ∷ ps) log d).0 })
        (flush_pass (p ∷ ps) log d).2,
  )
]

-- Where the limit is at least one, `applyOrBuffer` keeps the buffer strictly shorter than
-- `maxBufferSize` and keeps that limit, whether it applies, buffers or drops.
pub apply_or_buffer-length :
    (e : OperationEnvelope) (now : ℕ) (log : OperationLog) (d : Rga)
    → length log.buffer < log.max_buffer_size
    → (length (apply_or_buffer e now log d).0.buffer < log.max_buffer_size)
      × ((apply_or_buffer e now log d).0.max_buffer_size ≡ log.max_buffer_size)
unfolding apply_or_buffer flush_buffer record_applied force_apply_buffer
apply_or_buffer-length e now log d h = ground (
  arith,
  length-append log.buffer (record { envelope = e; attempts = 1; first_seen = now } ∷ []),
  flush_loop-length (suc (length log.buffer)) (record_applied e log) (apply_operation e.op d).0,
)

-- `applyOrBuffer` keeps the tracked maximum right: no applied sequence number is above it, and it
-- is zero or one of them.
pub apply_or_buffer-SeqsBounded :
    (e : OperationEnvelope) (now : ℕ) (log : OperationLog) (d : Rga)
    → SeqsBounded log
    → SeqsBounded (apply_or_buffer e now log d).0
unfolding apply_or_buffer flush_buffer force_apply_buffer
apply_or_buffer-SeqsBounded e now log d h = elim (Bool-cases (has_applied e log)) [
  | inl seen ↦ ground (arith, seen, h)
  | inr fresh ↦ elim (Bool-cases (apply_operation e.op d).1) [
    | inl applied ↦ ground (
      arith,
      fresh,
      applied,
      flush_loop-SeqsBounded (suc (length (record_applied e log).buffer)) (record_applied e log)
          (apply_operation e.op d).0 (record_applied-SeqsBounded e log h),
    )
    | inr gap ↦ ground (arith, fresh, gap, h)
  ]
]
