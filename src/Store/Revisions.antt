-- ===== src/Store/Revisions.antt =====
-- src/server/persistence/history-service.ts: the state at a revision, and the return to one.
use sync_engine.Base.{ℕ, Bool, ◌+◌, Option, none, some, List, [], ◌∷◌, leb, if◌then◌else◌}
use sync_engine.Base.Text.{Text, codes}
use sync_engine.Op.{Operation, rollback, OperationEnvelope}
use sync_engine.Rga.{Rga, empty_rga, apply_operation}
use sync_engine.Rga.Read.{to_text}
use sync_engine.Rga.Stored.{deserialize}
use sync_engine.Store.{Database, AppendParams, append_operation, load_operations_in_range}
use sync_engine.Store.Snapshots.{SnapshotRecord, load_snapshot_before, save_snapshot}

-- `for (const env of ops) doc.applyOperation(env.op)`
unfoldable pub replay : List OperationEnvelope → Rga → Rga
replay [] d = d
replay (e ∷ es) d = replay es (apply_operation e.op d).0

-- The document and the first sequence number to replay.
unfoldable pub start_from : Option SnapshotRecord → Rga × ℕ
start_from none = (empty_rga, 1)
start_from (some s) = (deserialize s.nodes, s.seq + 1)

unfoldable pub reconstruct_at_seq : Text → ℕ → Database → Rga × Option SnapshotRecord
unfolding replay start_from
reconstruct_at_seq doc_id target_seq db =
    let snapshot = load_snapshot_before doc_id target_seq db in
    let (d, from_seq) = start_from snapshot in
    (
      if leb from_seq target_seq
          then replay (load_operations_in_range doc_id from_seq target_seq db) d
          else d,
      snapshot,
    )

-- The sentinel, with the nil UUID for its site.
abbrev pub rollback_sentinel : Operation
rollback_sentinel =
    rollback (record { clock = 0; site_id = codes "00000000-0000-0000-0000-000000000000" })

pub record RestoreParams : Type 0 where
  pub doc_id : Text
  pub target_seq : ℕ
  pub user_id : Text
  pub session_id : Text

-- What the call draws: identifiers, the time, and whether the statements behind the snapshot and the
-- commit succeed.
pub record Draws : Type 0 where
  pub op_id : Text
  pub snapshot_id : Text
  pub nonce : Text
  pub now : Text
  pub commits : Bool

abbrev pub rollback_params : RestoreParams → Draws → AppendParams
rollback_params p w = record {
  doc_id = p.doc_id;
  session_id = p.session_id;
  user_id = p.user_id;
  client_seq = 0;
  op = rollback_sentinel;
  vector_clock = [];
  nonce = w.nonce;
}

pub record Restored : Type 0 where
  pub envelope : OperationEnvelope
  pub restored_text : Text
  pub new_seq : ℕ

-- The operation is appended in a transaction, and the snapshot is saved on another connection, outside
-- of it: where a later statement of the transaction or its commit fails, the snapshot stays. `none` is
-- that the call throws. The writes to `updated_at` and to the audit log are not kept.
unfoldable pub restore_to_revision :
    (Text → Text) → RestoreParams → Draws → Database → Option Restored × Database
unfolding reconstruct_at_seq
restore_to_revision sha256 p w db =
    let d = (reconstruct_at_seq p.doc_id p.target_seq db).0 in
    elim (append_operation (rollback_params p w) w.op_id w.now db) [
      | none ↦ (none, db)
      | some (envelope, db') ↦
          elim (save_snapshot sha256 p.doc_id d envelope.seq w.snapshot_id w.now db') [
            | none ↦ (none, db)
            | some (s, db'') ↦
                if w.commits
                then (
                  some (record {
                    envelope = envelope;
                    restored_text = to_text d;
                    new_seq = envelope.seq;
                  }),
                  db'',
                )
                else (none, record db { snapshots = db''.snapshots })
          ]
    ]
