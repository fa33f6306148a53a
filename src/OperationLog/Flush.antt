-- ===== src/OperationLog/Flush.antt =====
-- What `flushBuffer` leaves behind, and the bounds that the log keeps.
use sync_engine.Base.{
  ℕ, zero, suc, ◌≤◌, ◌<◌, ◌≡◌, refl, sym, subst, true, false, List, [], ◌∷◌, length, arith, All,
  if◌then◌else◌, Bool-cases, List-cases, inl, inr,
}
use sync_engine.Op.{OperationEnvelope, Operation, insert, delete, format, rollback}
use sync_engine.Base.Text.{===_refl}
use sync_engine.Rga.{Rga, apply_operation}
use sync_engine.OperationLog.{
  PendingOp, OperationLog, client_key, has_applied, record_applied, flush_pass, flush_loop,
  flush_buffer, apply_or_buffer,
}

-- An operation that cannot be applied leaves the document as it was.
pub apply_operation_failed :
    (op : Operation) (d : Rga) → (apply_operation op d).1 ≡ false → (apply_operation op d).0 ≡ d
unfolding apply_operation
apply_operation_failed (insert x) d h = ground arith
apply_operation_failed (delete u) d h = ground arith
apply_operation_failed (format f) d h = ground arith
apply_operation_failed (rollback u) d h = refl

-- No operation of the list can be applied to the document.
abbrev pub AllBlocked : List PendingOp → Rga → Type 0
AllBlocked ps d = All (λ p. (apply_operation p.envelope.op d).1 ≡ false) ps

flush_pass_blocked :
    (ps : List PendingOp) (log : OperationLog) (d : Rga)
    → (flush_pass ps log d).3 ≡ false
    → AllBlocked (flush_pass ps log d).0 d × ((flush_pass ps log d).2 ≡ d)
unfolding flush_pass
flush_pass_blocked [] log d h = (tt, refl)
flush_pass_blocked (p ∷ ps) log d h = elim (Bool-cases (apply_operation p.envelope.op d).1) [
  | inl applied ↦ absurd (ground arith)
  | inr blocked ↦
      ground
        (arith, flush_pass_blocked ps log d, apply_operation_failed p.envelope.op d, blocked, h)
]

pub flush_pass-length :
    (ps : List PendingOp) (log : OperationLog) (d : Rga)
    → (length (flush_pass ps log d).0 ≤ length ps)
      × ((flush_pass ps log d).3 ≡ true → length (flush_pass ps log d).0 < length ps)
unfolding flush_pass
flush_pass-length [] log d = ground arith
flush_pass-length (p ∷ ps) log d = ground (
  arith,
  flush_pass-length ps
      (if (apply_operation p.envelope.op d).1 then record_applied p.envelope log else log)
      (apply_operation p.envelope.op d).0,
)

AllBlocked-retry : (log : OperationLog) (d : Rga) → log.buffer ≡ [] → AllBlocked log.buffer d
AllBlocked-retry log d h = subst (λ ps. AllBlocked ps d) (sym h) tt

flush_loop_blocked :
    (fuel : ℕ) (log : OperationLog) (d : Rga)
    → length log.buffer < fuel
    → AllBlocked (flush_loop fuel log d).0.buffer (flush_loop fuel log d).1
unfolding flush_loop
flush_loop_blocked zero log d h = absurd (ground arith)
flush_loop_blocked (suc fuel) log d h = elim (List-cases log.buffer) [
  | inl empty ↦ ground (arith, AllBlocked-retry log d empty, empty)
  | inr (p, ps, full) ↦ elim (Bool-cases (flush_pass (p ∷ ps) log d).3) [
    | inl progress ↦ ground (
      arith,
      full,
      progress,
      flush_pass-length (p ∷ ps) log d,
      flush_loop_blocked fuel
          (record (flush_pass (p ∷ ps) log d).1 { buffer = (flush_pass (p ∷ ps) log d).0 })
          (flush_pass (p ∷ ps) log d).2,
    )
    | inr stuck ↦ ground (arith, full, stuck, flush_pass_blocked (p ∷ ps) log d)
  ]
]

-- An operation whose `seq` or whose session and client sequence number was recorded is answered
-- `true` and changes neither the log nor the document.
pub redelivery :
    (e : OperationEnvelope) (now : ℕ) (log : OperationLog) (d : Rga)
    → has_applied e log ≡ true
    → apply_or_buffer e now log d ≡ (log, d, true)
unfolding apply_or_buffer
redelivery e now log d h = ground arith

pub has_applied-record_applied :
    (e : OperationEnvelope) (log : OperationLog) → has_applied e (record_applied e log) ≡ true
unfolding has_applied record_applied
has_applied-record_applied e log = ground (arith, ===_refl (client_key e))

has_applied_kept :
    (e f : OperationEnvelope) (log : OperationLog)
    → has_applied e log ≡ true
    → has_applied e (record_applied f log) ≡ true
unfolding has_applied record_applied
has_applied_kept e f log h = ground arith

flush_pass_kept :
    (e : OperationEnvelope) (ps : List PendingOp) (log : OperationLog) (d : Rga)
    → has_applied e log ≡ true
    → has_applied e (flush_pass ps log d).1 ≡ true
unfolding flush_pass
flush_pass_kept e [] log d h = h
flush_pass_kept e (p ∷ ps) log d h = ground (
  arith,
  flush_pass_kept e ps
      (if (apply_operation p.envelope.op d).1 then record_applied p.envelope log else log)
      (apply_operation p.envelope.op d).0,
  has_applied_kept e p.envelope log h,
)

flush_loop_kept :
    (e : OperationEnvelope) (fuel : ℕ) (log : OperationLog) (d : Rga)
    → has_applied e log ≡ true
    → has_applied e (flush_loop fuel log d).0 ≡ true
unfolding flush_loop has_applied
flush_loop_kept e zero log d h = h
flush_loop_kept e (suc fuel) log d h = elim (List-cases log.buffer) [
  | inl empty ↦ ground (arith, empty, h)
  | inr (p, ps, full) ↦ ground (
    arith,
    full,
    flush_pass_kept e (p ∷ ps) log d h,
    flush_loop_kept e fuel
        (record (flush_pass (p ∷ ps) log d).1 { buffer = (flush_pass (p ∷ ps) log d).0 })
        (flush_pass (p ∷ ps) log d).2,
  )
]

-- After `flushBuffer` no operation that is still in the buffer can be applied to the document: the
-- loop stops only when nothing more can be done.
pub flush_complete :
    (log : OperationLog) (d : Rga) → AllBlocked (flush_buffer log d).0.buffer (flush_buffer log d).1
unfolding flush_buffer
flush_complete log d = flush_loop_blocked (suc (length log.buffer)) log d (omega arith)

-- An envelope that `applyOrBuffer` has answered with `true` is answered with `true` again when it
-- is delivered once more, and the second delivery changes neither the log nor the document.
pub exactly_once :
    (e : OperationEnvelope) (now later : ℕ) (log : OperationLog) (d : Rga)
    → (apply_or_buffer e now log d).2 ≡ true
    → let (log', d', applied) = apply_or_buffer e now log d in
      apply_or_buffer e later log' d' ≡ (log', d', true)
unfolding apply_or_buffer flush_buffer
exactly_once e now later log d h = elim (Bool-cases (has_applied e log)) [
  | inl seen ↦ ground (arith, redelivery e later log d)
  | inr fresh ↦ ground (
    arith,
    redelivery e later
        (flush_loop (suc (length (record_applied e log).buffer)) (record_applied e log)
          (apply_operation e.op d).0).0
        (flush_loop (suc (length (record_applied e log).buffer)) (record_applied e log)
          (apply_operation e.op d).0).1,
    flush_loop_kept e (suc (length (record_applied e log).buffer)) (record_applied e log)
        (apply_operation e.op d).0 (has_applied-record_applied e log),
  )
]
