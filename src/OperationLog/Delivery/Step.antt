-- ===== src/OperationLog/Delivery/Step.antt =====
-- One arrival: the invariant of a log that is given each of a set of operations once.
use mathlib.Core.List.{Perm, perm_middle}
use mathlib.Core.List.Perm
use sync_engine.Base.{
  ℕ, suc, ◌+◌, ◌<◌, ◌≡◌, refl, sym, subst, ◌∙◌, ap, true, false, List, [], ◌∷◌, ◌++◌, map, arith,
  All, All-append, length, length-append, Bool-cases, inl, inr, append_assoc,
}
use sync_engine.Base.Text.{===_iff}
use sync_engine.Op.{OperationEnvelope, Operation}
use sync_engine.Rga.{Rga, apply_operation}
use sync_engine.Rga.Commute.{Succeeds, after}
use sync_engine.Rga.Converge.{run, AllSucceed}
use sync_engine.OperationLog.{
  PendingOp, OperationLog, client_key, has_applied, record_applied, flush_pass, flush_buffer,
  apply_or_buffer,
}
use sync_engine.OperationLog.Flush.{AllBlocked, apply_operation_failed, flush_complete}
use sync_engine.OperationLog.Bounds.{flush_loop-length}
use sync_engine.OperationLog.Delivery.{op_of, pending_op, Apart, AllApart}
use sync_engine.OperationLog.Delivery.Progress.{
  Progress, AllSucceed-append, flush_loop_keeps, flush_loop-Progress,
}

abbrev pub ApartFrom : OperationEnvelope → List PendingOp → Type 0
ApartFrom e ps = All (λ p. Apart e p.envelope) ps

record_unseen :
    (e f : OperationEnvelope) (log : OperationLog)
    → Apart e f
    → has_applied e log ≡ false
    → has_applied e (record_applied f log) ≡ false
unfolding has_applied record_applied
record_unseen e f log h k = ground (arith, ===_iff (client_key f) (client_key e))

flush_pass_unseen :
    (e : OperationEnvelope) (ps : List PendingOp) (log : OperationLog) (d : Rga)
    → has_applied e log ≡ false
    → ApartFrom e ps
    → (has_applied e (flush_pass ps log d).1 ≡ false) × ApartFrom e (flush_pass ps log d).0
unfolding flush_pass
flush_pass_unseen e [] log d h a = (h, tt)
flush_pass_unseen e (p ∷ ps) log d h a = elim (Bool-cases (apply_operation p.envelope.op d).1) [
  | inl applied ↦ rw applied (
      flush_pass_unseen e ps (record_applied p.envelope log) (after p.envelope.op d)
        (record_unseen e p.envelope log a.0 h) a.1)
  | inr blocked ↦
      let (unseen, apart) = flush_pass_unseen e ps log (apply_operation p.envelope.op d).0 h a.1 in
      rw blocked (unseen, (a.0, apart))
]

abbrev pub Unseen : OperationEnvelope → OperationLog → Type 0
Unseen e log = (has_applied e log ≡ false) × ApartFrom e log.buffer

flush_buffer-Unseen :
    (e : OperationEnvelope) (log : OperationLog) (d : Rga)
    → Unseen e log
    → Unseen e (flush_buffer log d).0
unfolding flush_buffer has_applied
flush_buffer-Unseen e log d h =
    flush_loop_keeps (λ log' d'. Unseen e log')
      (λ log' d' u. flush_pass_unseen e log'.buffer log' d' u.0 u.1) (suc (length log.buffer)) log d
      h

All-map2 :
    {A : Type 0} {P Q R : A → Type 0} (f : (a : A) → P a → Q a → R a) (l : List A)
    → All P l
    → All Q l
    → All R l
All-map2 f [] h k = tt
All-map2 f (a ∷ l) h k = (f a h.0 k.0, All-map2 f l h.1 k.1)

-- The log and the document while `rest` is still to arrive, of operations that can be applied in
-- the order `order` to the document `d0`.
pub record Delivered (order : List Operation) (d0 : Rga) (rest : List OperationEnvelope)
    (log : OperationLog) (d : Rga) : Type 0 where
  pub applied : List Operation
  pub reached : d ≡ run applied d0
  pub causal : AllSucceed applied d0
  pub all : Perm order (applied ++ (map pending_op log.buffer ++ map op_of rest))
  pub blocked : AllBlocked log.buffer d
  pub unseen : All (λ e. Unseen e log) rest
  pub apart : AllApart rest
  pub room : length log.buffer + length rest < log.max_buffer_size

regroup :
    (x : Operation) (a b c e : List Operation)
    → a ++ (x ∷ ((b ++ c) ++ e)) ≡ (a ++ (x ∷ b)) ++ (c ++ e)
regroup x a b c e = simp append_assoc

flushed : OperationEnvelope → OperationLog → Rga → OperationLog × Rga
unfolding flush_buffer record_applied
flushed e log d = flush_buffer (record_applied e log) (after e.op d)

flushed-Progress :
    (e : OperationEnvelope) (log : OperationLog) (d : Rga)
    → Progress log.buffer (after e.op d) (flushed e log d).0.buffer (flushed e log d).1
unfolding flushed
flushed-Progress e log d =
    flush_loop-Progress (suc (length log.buffer)) (record_applied e log) (after e.op d)

flushed-room :
    (e : OperationEnvelope) (log : OperationLog) (d : Rga) (n : ℕ)
    → length log.buffer + suc n < log.max_buffer_size
    → length (flushed e log d).0.buffer + n < (flushed e log d).0.max_buffer_size
unfolding flushed
flushed-room e log d n h =
    ground
      (arith, flush_loop-length (suc (length log.buffer)) (record_applied e log) (after e.op d), h)

flushed-AllBlocked :
    (e : OperationEnvelope) (log : OperationLog) (d : Rga)
    → AllBlocked (flushed e log d).0.buffer (flushed e log d).1
unfolding flushed
flushed-AllBlocked e log d = flush_complete (record_applied e log) (after e.op d)

flushed-Unseen :
    (e f : OperationEnvelope) (log : OperationLog) (d : Rga)
    → Apart f e
    → Unseen f log
    → Unseen f (flushed e log d).0
unfolding flushed
flushed-Unseen e f log d a u =
    flush_buffer-Unseen f (record_applied e log) (after e.op d)
      (record_unseen f e log a u.0, unfold record_applied in u.1)

step_applied :
    (order : List Operation) (d0 : Rga) (e : OperationEnvelope) (rest : List OperationEnvelope)
    (log : OperationLog) (d : Rga)
    → Succeeds e.op d
    → Delivered order d0 (e ∷ rest) log d
    → Delivered order d0 rest (flushed e log d).0 (flushed e log d).1
step_applied order d0 e rest log d h v =
    let (done, reached, causal, perm) = flushed-Progress e log d in
    let (both, ran) =
      AllSucceed-append v.applied (e.op ∷ done) d0 v.causal
        (subst (AllSucceed (e.op ∷ done)) v.reached (h, causal)) in
    record {
      applied = v.applied ++ e.op ∷ done;
      reached = reached ∙ unfold run in (ap (λ x. run (e.op ∷ done) x) v.reached ∙ sym ran);
      causal = both;
      all =
          subst (Perm order)
            (regroup e.op v.applied done (map pending_op (flushed e log d).0.buffer)
              (map op_of rest))
            (Perm.trans v.all (
              Perm.append_left v.applied (
                Perm.trans (perm_middle (map pending_op log.buffer) (map op_of rest))
                  (Perm.cons e.op (Perm.append_right (map op_of rest) perm)))));
      blocked = flushed-AllBlocked e log d;
      unseen = All-map2 (λ f a u. flushed-Unseen e f log d a u) rest v.apart.0 v.unseen.1;
      apart = v.apart.1;
      room = flushed-room e log d (length rest) v.room;
    }

waiting : OperationEnvelope → OperationLog → OperationLog
waiting e log = record log {
  buffer = log.buffer ++ record { envelope = e; attempts = 1; first_seen = 0 } ∷ [];
}

waiting-room :
    (e : OperationEnvelope) (log : OperationLog) (n : ℕ)
    → length log.buffer + suc n < log.max_buffer_size
    → length (waiting e log).buffer + n < (waiting e log).max_buffer_size
unfolding waiting
waiting-room e log n h = ground (
  arith,
  length-append log.buffer (record { envelope = e; attempts = 1; first_seen = 0 } ∷ []),
  h,
)

waiting-Unseen :
    (e f : OperationEnvelope) (log : OperationLog)
    → Apart f e
    → Unseen f log
    → Unseen f (waiting e log)
unfolding waiting has_applied
waiting-Unseen e f log a u = (u.0, All-append (λ p. Apart f p.envelope) log.buffer _ u.1 (a, tt))

map-snoc :
    (ps : List PendingOp) (p : PendingOp) (ops : List Operation)
    → map pending_op ps ++ (p.envelope.op ∷ ops) ≡ map pending_op (ps ++ p ∷ []) ++ ops
map-snoc [] p ops = refl
map-snoc (q ∷ ps) p ops = ap (λ l. q.envelope.op ∷ l) (map-snoc ps p ops)

step_gap :
    (order : List Operation) (d0 : Rga) (e : OperationEnvelope) (rest : List OperationEnvelope)
    (log : OperationLog) (d : Rga)
    → (apply_operation e.op d).1 ≡ false
    → Delivered order d0 (e ∷ rest) log d
    → Delivered order d0 rest (waiting e log) d
unfolding waiting
step_gap order d0 e rest log d h v = record {
  applied = v.applied;
  reached = v.reached;
  causal = v.causal;
  all =
      subst (λ l. Perm order (v.applied ++ l))
        (map-snoc log.buffer (record { envelope = e; attempts = 1; first_seen = 0 })
          (map op_of rest))
        v.all;
  blocked =
      All-append (λ p. (apply_operation p.envelope.op d).1 ≡ false) log.buffer _ v.blocked (h, tt);
  unseen =
      All-map2 (λ f a u. unfold waiting in waiting-Unseen e f log a u) rest v.apart.0 v.unseen.1;
  apart = v.apart.1;
  room = unfold waiting in waiting-room e log (length rest) v.room;
}

-- What `applyOrBuffer` does with an envelope that is new.
apply_or_buffer-applied :
    (e : OperationEnvelope) (log : OperationLog) (d : Rga)
    → has_applied e log ≡ false
    → Succeeds e.op d
    → apply_or_buffer e 0 log d ≡ ((flushed e log d).0, (flushed e log d).1, true)
unfolding apply_or_buffer flushed
apply_or_buffer-applied e log d fresh h = ground (arith, fresh, h)

apply_or_buffer-gap :
    (e : OperationEnvelope) (log : OperationLog) (d : Rga) (n : ℕ)
    → has_applied e log ≡ false
    → (apply_operation e.op d).1 ≡ false
    → length log.buffer + suc n < log.max_buffer_size
    → apply_or_buffer e 0 log d ≡ (waiting e log, d, false)
unfolding apply_or_buffer waiting
apply_or_buffer-gap e log d n fresh h room = ground (
  arith,
  fresh,
  h,
  room,
  apply_operation_failed e.op d h,
  length-append log.buffer (record { envelope = e; attempts = 1; first_seen = 0 } ∷ []),
)

pub apply_or_buffer-Delivered :
    (order : List Operation) (d0 : Rga) (e : OperationEnvelope) (rest : List OperationEnvelope)
    (log : OperationLog) (d : Rga)
    → Delivered order d0 (e ∷ rest) log d
    → Delivered order d0 rest (apply_or_buffer e 0 log d).0 (apply_or_buffer e 0 log d).1
apply_or_buffer-Delivered order d0 e rest log d v = elim (Bool-cases (apply_operation e.op d).1) [
  | inl h ↦
      subst (λ r. Delivered order d0 rest r.0 r.1)
        (sym (apply_or_buffer-applied e log d v.unseen.0.0 h))
        (step_applied order d0 e rest log d h v)
  | inr h ↦
      subst (λ r. Delivered order d0 rest r.0 r.1)
        (sym (apply_or_buffer-gap e log d (length rest) v.unseen.0.0 h v.room))
        (step_gap order d0 e rest log d h v)
]
