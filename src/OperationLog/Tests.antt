-- ===== src/OperationLog/Tests.antt =====
-- Deliveries out of order and twice, after tests/unit/crdt, and the theorems at them.
use mathlib.Core.List.Perm
use sync_engine.Rga.Converge.{run, AllSucceed, Consistent}
use sync_engine.OperationLog.Delivery.{deliver, AllApart}
use sync_engine.OperationLog.Delivery.AnyOrder.{delivery_in_any_order}
use sync_engine.Base.{
  ◌∷◌, List, ◌≢◌, ℕ, ◌<◌, ◌≡◌, refl, Bool, true, false, none, some, Option, [], length, arith, find,
}
use sync_engine.Base.Text.{Text, ===_iff, codes, ◌===◌, text_lt}
use sync_engine.Op.{Uid, uid_key, decimal, str, Operation, insert, OperationEnvelope}
use sync_engine.Rga.{Rga, empty_rga, apply_operation, get_node, scan_insert, insert_after}
use sync_engine.Rga.Read.{to_text}
use sync_engine.OperationLog.{OperationLog, empty_log, client_key, flush_buffer, apply_or_buffer}
use sync_engine.OperationLog.Flush.{AllBlocked, flush_complete, exactly_once}
use sync_engine.OperationLog.Bounds.{
  SeqsBounded, apply_or_buffer-length, apply_or_buffer-SeqsBounded,
}

abbrev first_uid : Uid
first_uid = record { clock = 1; site_id = codes "a" }

abbrev second_uid : Uid
second_uid = record { clock = 2; site_id = codes "a" }

abbrev typed : Uid → Option Uid → Operation
typed uid after = insert (record { uid = uid; after = after; value = str (codes "x") })

abbrev envelope_of : ℕ → Operation → OperationEnvelope
envelope_of seq op = record {
  id = decimal seq;
  doc_id = codes "d";
  session_id = codes "s";
  user_id = codes "u";
  op = op;
  seq = seq;
  client_seq = seq;
  timestamp = codes "t";
  vector_clock = [];
  nonce = decimal seq;
}

abbrev first_op : OperationEnvelope
first_op = envelope_of 1 (typed first_uid none)

abbrev second_op : OperationEnvelope
second_op = envelope_of 2 (typed second_uid (some first_uid))

abbrev after_gap : OperationLog × Rga × Bool
after_gap = apply_or_buffer second_op 0 (empty_log 100) empty_rga

-- The operation that came too early waits, and goes in behind its predecessor.
out_of_order_run :
    let (log, d, applied) = after_gap in
    let (log', d', applied') = apply_or_buffer first_op 0 log d in
    (applied ≡ false)
    × (length log.buffer ≡ 1)
    × (applied' ≡ true)
    × (length log'.buffer ≡ 0)
    × (to_text d' ≡ codes "xx")
unfolding apply_or_buffer empty_log empty_rga to_text ◌===◌ uid_key decimal text_lt get_node
    scan_insert insert_after client_key apply_operation find
out_of_order_run = (refl, refl, refl, refl, refl)

flush_complete_example :
    AllBlocked
      (flush_buffer after_gap.0 after_gap.1).0.buffer
      (flush_buffer after_gap.0 after_gap.1).1
flush_complete_example = flush_complete after_gap.0 after_gap.1

exactly_once_example :
    let (log', d', applied) = apply_or_buffer first_op 0 (empty_log 100) empty_rga in
    apply_or_buffer first_op 9 log' d' ≡ (log', d', true)
unfolding apply_or_buffer empty_log empty_rga ◌===◌ uid_key decimal text_lt get_node scan_insert
    insert_after client_key apply_operation find
exactly_once_example = exactly_once first_op 0 9 (empty_log 100) empty_rga refl

apply_or_buffer-length_example :
    (length (apply_or_buffer second_op 0 (empty_log 2) empty_rga).0.buffer < 2)
    × ((apply_or_buffer second_op 0 (empty_log 2) empty_rga).0.max_buffer_size ≡ 2)
unfolding empty_log
apply_or_buffer-length_example =
    apply_or_buffer-length second_op 0 (empty_log 2) empty_rga (omega arith)

apply_or_buffer-SeqsBounded_example :
    SeqsBounded (apply_or_buffer first_op 0 (empty_log 100) empty_rga).0
unfolding empty_log
apply_or_buffer-SeqsBounded_example =
    apply_or_buffer-SeqsBounded first_op 0 (empty_log 100) empty_rga
      (λ s h. ground arith, λ h. ground arith)

differ : (s t : Text) → (s === t) ≡ false → s ≢ t
differ s t h e = ground (arith, ===_iff s t, e, h)

abbrev causal_order : List Operation
causal_order = first_op.op ∷ second_op.op ∷ []

-- The second operation arrives first.
abbrev reversed_arrivals : List OperationEnvelope
reversed_arrivals = second_op ∷ first_op ∷ []

reversed_arrivals-AllApart : AllApart reversed_arrivals
unfolding ◌===◌ client_key decimal
reversed_arrivals-AllApart = (
  ((λ e. absurd (ground arith), differ (client_key first_op) (client_key second_op) refl), tt),
  (tt, tt),
)

causal_order-Consistent : Consistent causal_order
causal_order-Consistent = (
  (λ e. refl, (λ e. absurd (ground arith), tt)),
  ((λ e. absurd (ground arith), (λ e. refl, tt)), tt),
)

causal_order-AllSucceed : AllSucceed causal_order empty_rga
unfolding apply_operation empty_rga ◌===◌ uid_key decimal text_lt get_node scan_insert insert_after
    find
causal_order-AllSucceed = (refl, (refl, tt))

delivery_in_any_order_example :
    ((deliver reversed_arrivals (empty_log 100) empty_rga).0.buffer ≡ [])
    × ((deliver reversed_arrivals (empty_log 100) empty_rga).1 ≡ run causal_order empty_rga)
delivery_in_any_order_example =
    delivery_in_any_order causal_order reversed_arrivals 100 empty_rga causal_order-Consistent
      causal_order-AllSucceed (Perm.swap second_op.op first_op.op []) reversed_arrivals-AllApart
      (omega arith)
