-- ===== src/OperationLog/Delivery/AnyOrder.antt =====
-- All operations arrive once, in any order.
use mathlib.Core.List.{Perm, append-nil}
use sync_engine.Base.{
  ℕ, ◌<◌, ◌≡◌, refl, sym, subst, ◌∙◌, ap, List, [], ◌∷◌, ◌++◌, map, arith, All, length,
}
use sync_engine.Op.{OperationEnvelope, Operation}
use sync_engine.Rga.{Rga}
use sync_engine.Rga.Converge.{run, AllSucceed, Consistent, Consistent-AgreeOn, convergence}
use sync_engine.Rga.Causal.{Blocked, none-Blocked}
use sync_engine.OperationLog.{PendingOp, OperationLog, empty_log, has_applied, apply_or_buffer}
use sync_engine.OperationLog.Flush.{AllBlocked}
use sync_engine.OperationLog.Delivery.{deliver, op_of, pending_op, AllApart}
use sync_engine.OperationLog.Delivery.Step.{Delivered, apply_or_buffer-Delivered, Unseen}

deliver-Delivered :
    (order : List Operation) (d0 : Rga) (rest : List OperationEnvelope) (log : OperationLog)
    (d : Rga)
    → Delivered order d0 rest log d
    → Delivered order d0 [] (deliver rest log d).0 (deliver rest log d).1
unfolding deliver
deliver-Delivered order d0 [] log d v = v
deliver-Delivered order d0 (e ∷ rest) log d v =
    deliver-Delivered order d0 rest (apply_or_buffer e 0 log d).0 (apply_or_buffer e 0 log d).1
      (apply_or_buffer-Delivered order d0 e rest log d v)

All-Unseen : (size : ℕ) (es : List OperationEnvelope) → All (λ e. Unseen e (empty_log size)) es
unfolding empty_log has_applied
All-Unseen size [] = tt
All-Unseen size (e ∷ es) = ((ground arith, tt), All-Unseen size es)

ops-Blocked :
    (ps : List PendingOp) (d : Rga) → AllBlocked ps d → All (λ b. Blocked b d) (map pending_op ps)
ops-Blocked [] d h = tt
ops-Blocked (p ∷ ps) d h = (h.0, ops-Blocked ps d h.1)

no_ops : (ps : List PendingOp) → length (map pending_op ps) ≡ 0 → ps ≡ []
no_ops [] h = refl
no_ops (p ∷ ps) h = absurd (ground arith)

-- Once everything has arrived, nothing waits and the document is that of the causal order.
settled :
    (order : List Operation) (d0 : Rga) (log : OperationLog) (d : Rga)
    → Consistent order
    → AllSucceed order d0
    → Delivered order d0 [] log d
    → (log.buffer ≡ []) × (d ≡ run order d0)
settled order d0 log d c h v =
    let ops = map pending_op log.buffer in
    let p : Perm order (v.applied ++ ops) =
      subst (λ l. Perm order (v.applied ++ l)) (append-nil ops) v.all in
    let none_left =
      none-Blocked order v.applied ops d0 (Consistent-AgreeOn order c) h v.causal p
        (subst (λ x. All (λ b. Blocked b x) ops) v.reached (ops-Blocked log.buffer d v.blocked)) in
    let empty = no_ops log.buffer none_left in
    let q : Perm order v.applied =
      subst (Perm order) (ap (λ ps. v.applied ++ map pending_op ps) empty ∙ append-nil v.applied)
        p in
    (empty, v.reached ∙ sym (convergence order v.applied d0 c q h v.causal))

-- Envelopes that the log tells apart, given to an empty log once each and in any order whatever,
-- are all applied in the end: nothing waits, and the document is the one that their operations give
-- in an order in which each can be applied when its turn comes, provided that there is such an
-- order, that the operations are consistent and that they are fewer than the buffer may hold.
pub delivery_in_any_order :
    (order : List Operation) (arrivals : List OperationEnvelope) (size : ℕ) (d : Rga)
    → Consistent order
    → AllSucceed order d
    → Perm order (map op_of arrivals)
    → AllApart arrivals
    → length arrivals < size
    → ((deliver arrivals (empty_log size) d).0.buffer ≡ [])
      × ((deliver arrivals (empty_log size) d).1 ≡ run order d)
delivery_in_any_order order arrivals size d c h p apart room =
    settled order d (deliver arrivals (empty_log size) d).0 (deliver arrivals (empty_log size) d).1
      c h
      (deliver-Delivered order d arrivals (empty_log size) d (record {
        applied = [];
        reached = unfold run in refl;
        causal = tt;
        all = unfold empty_log in p;
        blocked = unfold empty_log in tt;
        unseen = All-Unseen size arrivals;
        apart = apart;
        room = unfold empty_log in omega (arith, room);
      }))
