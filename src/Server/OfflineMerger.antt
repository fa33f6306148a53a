-- ===== src/Server/OfflineMerger.antt =====
-- src/server/sync/offline-merger.ts: what a client is sent when it comes back.
use sync_engine.Base.{
  ℕ, zero, suc, ◌+◌, ◌≤◌, ◌≡◌, Bool, ◌||◌, List, [], ◌∷◌, map, length, take, filter, ◌&&◌, ltb,
  ◌==◌, arith, if◌then◌else◌,
}
use sync_engine.Base.Text.{Text, ◌===◌}
use sync_engine.Op.{
  Operation, insert, delete, format, rollback, OperationEnvelope, Value, str, json,
}
use sync_engine.Store.{
  Database, OperationRow, row_to_envelope, order_by_seq, load_operations_after_seq,
}

unfoldable pub get_missed_operations : Text → ℕ → ℕ → Database → List OperationEnvelope
get_missed_operations doc_id last_seq limit db =
    if last_seq == 0 then [] else load_operations_after_seq doc_id last_seq limit db

-- `value?.length ?? 0`
abbrev pub value_length : Value → ℕ
value_length (str s) = length s
value_length (json s) = 0

abbrev pub payload : Operation → ℕ
payload (insert op) = value_length op.value
payload (delete uid) = 0
payload (format op) = 0
payload (rollback uid) = 0

unfoldable pub total_chars : List OperationEnvelope → ℕ
total_chars [] = 0
total_chars (e ∷ es) = payload e.op + total_chars es

unfoldable pub should_force_full_reload : List OperationEnvelope → Bool
unfolding total_chars
should_force_full_reload missed = ltb 5000 (length missed) || ltb 500000 (total_chars missed)

length-take_le : (n : ℕ) (rows : List OperationRow) → length (map row_to_envelope (take n rows)) ≤ n
length-take_le zero rows = omega arith
length-take_le (suc n) [] = omega arith
length-take_le (suc n) (r ∷ rows) = omega (arith, length-take_le n rows)

-- The operations that a client missed are cut at the limit, so with a limit of at most 5000, which
-- is the default, a full reload is forced by the size of the characters only, however many
-- operations were missed.
pub reload_by_payload :
    (doc_id : Text) (last_seq limit : ℕ) (db : Database)
    → limit ≤ 5000
    → should_force_full_reload (get_missed_operations doc_id last_seq limit db)
      ≡ ltb 500000 (total_chars (get_missed_operations doc_id last_seq limit db))
unfolding should_force_full_reload get_missed_operations load_operations_after_seq
reload_by_payload doc_id last_seq limit db h = ground (
  arith,
  length-take_le limit
      (order_by_seq (filter (λ r. r.doc_id === doc_id && ltb last_seq r.seq) db.operations)),
)
