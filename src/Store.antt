-- ===== src/Store.antt =====
-- src/server/persistence/operation-store.ts: the `operations` table and its sequence numbers, with
-- `next_doc_seq` and the constraints of src/server/persistence/schema.sql. A statement that
-- PostgreSQL refuses is `none`, and leaves the tables as they were.
pub mod Snapshots
pub mod Revisions
pub mod Replay
pub mod Append
pub mod Restore
mod Tests
use sync_engine.Base.{
  ℕ, zero, suc, ◌+◌, ◌*◌, Bool, true, false, not, ◌&&◌, ◌||◌, Option, none, some, List, [], ◌∷◌,
  ◌++◌, map, length, take, drop, filter, any, max, ltb, leb, ◌==◌, if◌then◌else◌,
}
use sync_engine.Base.Text.{Text, codes, ◌===◌}
use sync_engine.Base.Dict.{Dict, get, put}
use sync_engine.Op.{Operation, insert, delete, format, rollback, OperationEnvelope, VectorClock}
use sync_engine.Rga.Stored.{SerializedNode}

pub record OperationRow : Type 0 where
  pub id : Text
  pub doc_id : Text
  pub session_id : Text
  pub user_id : Text
  pub seq : ℕ
  pub client_seq : ℕ
  pub op_type : Text
  pub op_data : Operation
  pub vector_clock : VectorClock
  pub nonce : Text
  pub created_at : Text

pub record SnapshotRow : Type 0 where
  pub id : Text
  pub doc_id : Text
  pub seq : ℕ
  pub nodes : List SerializedNode
  pub text_hash : Text
  pub node_count : ℕ
  pub char_count : ℕ
  pub created_at : Text

-- The tables that the core uses, rows in the order of their insertion. `documents` and `users` say
-- which keys the tables of these names hold.
pub record Database : Type 0 where
  pub documents : Text → Bool
  pub users : Text → Bool
  pub document_sequences : Dict ℕ
  pub operations : List OperationRow
  pub snapshots : List SnapshotRow

unfoldable pub row_to_envelope : OperationRow → OperationEnvelope
row_to_envelope row = record {
  id = row.id;
  doc_id = row.doc_id;
  session_id = row.session_id;
  user_id = row.user_id;
  op = row.op_data;
  seq = row.seq;
  client_seq = row.client_seq;
  timestamp = row.created_at;
  vector_clock = row.vector_clock;
  nonce = row.nonce;
}

-- `op.type`
abbrev pub type_of : Operation → Text
type_of (insert op) = codes "INSERT"
type_of (delete uid) = codes "DELETE"
type_of (format op) = codes "FORMAT"
type_of (rollback uid) = codes "ROLLBACK"

-- CHECK (op_type IN ('INSERT', 'DELETE', 'ROLLBACK'))
abbrev pub type_allowed : Operation → Bool
type_allowed (insert op) = true
type_allowed (delete uid) = true
type_allowed (format op) = false
type_allowed (rollback uid) = true

-- The counter of a document, zero where it has none.
abbrev pub or_zero : Option ℕ → ℕ
or_zero none = 0
or_zero (some n) = n

unfoldable pub last_seq : Text → Database → ℕ
last_seq doc_id db = or_zero (get doc_id db.document_sequences)

-- `next_doc_seq`: the counter is set to 0 if it is missing, and raised by one.
unfoldable pub next_doc_seq : Text → Database → ℕ × Database
unfolding last_seq
next_doc_seq doc_id db =
    let v_seq = last_seq doc_id db + 1 in
    (v_seq, record db { document_sequences = put doc_id v_seq db.document_sequences })

pub record AppendParams : Type 0 where
  pub doc_id : Text
  pub session_id : Text
  pub user_id : Text
  pub client_seq : ℕ
  pub op : Operation
  pub vector_clock : VectorClock
  pub nonce : Text

-- The row that `appendOperation` writes; `id` is gen_random_uuid() and `now` the time.
abbrev pub appended_row : AppendParams → Text → Text → ℕ → OperationRow
appended_row p id now seq = record {
  id = id;
  doc_id = p.doc_id;
  session_id = p.session_id;
  user_id = p.user_id;
  seq = seq;
  client_seq = p.client_seq;
  op_type = type_of p.op;
  op_data = p.op;
  vector_clock = p.vector_clock;
  nonce = p.nonce;
  created_at = now;
}

unfoldable pub append_operation :
    AppendParams → Text → Text → Database → Option (OperationEnvelope × Database)
unfolding next_doc_seq row_to_envelope
append_operation p id now db =
    let (seq, db') = next_doc_seq p.doc_id db in
    let row = appended_row p id now seq in
    let taken = any (λ r. r.doc_id === p.doc_id && r.seq == seq) db.operations in
    if db.documents p.doc_id && db.users p.user_id && type_allowed p.op && not taken
    then some (row_to_envelope row, record db' { operations = db.operations ++ row ∷ [] })
    else none

-- ORDER BY seq ASC
unfoldable pub insert_row : OperationRow → List OperationRow → List OperationRow
insert_row r [] = r ∷ []
insert_row r (s ∷ rows) =
    let further = s ∷ insert_row r rows in if leb r.seq s.seq then r ∷ s ∷ rows else further

unfoldable pub order_by_seq : List OperationRow → List OperationRow
unfolding insert_row
order_by_seq [] = []
order_by_seq (r ∷ rows) = insert_row r (order_by_seq rows)

-- WHERE doc_id = $1 AND ...
abbrev pub rows_where : Text → (ℕ → Bool) → Database → List OperationRow
rows_where doc_id p db = filter (λ r. r.doc_id === doc_id && p r.seq) db.operations

unfoldable pub load_operations_after_seq : Text → ℕ → ℕ → Database → List OperationEnvelope
load_operations_after_seq doc_id after_seq limit db =
    map row_to_envelope (take limit (order_by_seq (rows_where doc_id (λ s. ltb after_seq s) db)))

unfoldable pub load_operations_in_range : Text → ℕ → ℕ → Database → List OperationEnvelope
load_operations_in_range doc_id from_seq to_seq db =
    map row_to_envelope (order_by_seq (rows_where doc_id (λ s. leb from_seq s && leb s to_seq) db))

-- MAX(seq), zero where there is no row
unfoldable pub greatest_seq : List OperationRow → ℕ
greatest_seq [] = 0
greatest_seq (r ∷ rows) = let rest = greatest_seq rows in if ltb rest r.seq then r.seq else rest

unfoldable pub get_max_seq : Text → Database → ℕ
get_max_seq doc_id db = greatest_seq (rows_where doc_id (λ s. true) db)

unfoldable pub nonce_exists : Text → Database → Bool
nonce_exists nonce db = ltb 0 (length (filter (λ r. r.nonce === nonce) db.operations))

abbrev pub reverse_onto {ℓ} : {A : Type ℓ} → List A → List A → List A
reverse_onto [] done = done
reverse_onto (x ∷ l) done = reverse_onto l (x ∷ done)

-- ORDER BY seq DESC LIMIT page_size OFFSET page * page_size, over the rows with a user
unfoldable pub history_rows : Text → ℕ → ℕ → Database → List OperationRow
history_rows doc_id page page_size db =
    let rows = filter (λ r. db.users r.user_id) (rows_where doc_id (λ s. true) db) in
    take page_size (drop (page * page_size) (reverse_onto (order_by_seq rows) []))

unfoldable pub query_history : Text → ℕ → ℕ → Database → List OperationEnvelope × ℕ
unfolding history_rows
query_history doc_id page page_size db = (
  map row_to_envelope (history_rows doc_id page page_size db),
  length (rows_where doc_id (λ s. true) db),
)
