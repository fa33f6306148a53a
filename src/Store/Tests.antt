-- ===== src/Store/Tests.antt =====
-- The tables on a short history, and the theorems at it.
use sync_engine.Base.{ℕ, ◌+◌, ◌≡◌, refl, true, none, [], ◌∷◌, ◌++◌, any, filter, arith}
use sync_engine.Base.Text.{Text, codes, ◌===◌}
use sync_engine.Base.Dict.{get, put}
use sync_engine.Op.{insert, str, decimal}
use sync_engine.Rga.{Rga, empty_rga}
use sync_engine.Rga.Invariant.{IsWellFormed}
use sync_engine.Rga.Invariant.Keeps.{empty_rga-IsWellFormed, apply_operation-IsWellFormed}
use sync_engine.Rga.Read.{to_text}
use sync_engine.Store.{
  Database, AppendParams, OperationRow, appended_row, load_operations_in_range, last_seq,
  append_operation, next_doc_seq, row_to_envelope, order_by_seq, insert_row,
}
use sync_engine.Store.Snapshots.{
  snapshot_row, save_snapshot, newest, load_snapshot_before, row_to_record,
}
use sync_engine.Store.Revisions.{
  RestoreParams, Draws, Restored, rollback_params, replay, start_from, reconstruct_at_seq,
  restore_to_revision,
}
use sync_engine.Store.Replay.{revision, reconstruct_at_seq_lem}
use sync_engine.Store.Append.{RowsCounted, Counted, append_operation_lem}
use sync_engine.Store.Restore.{restore_to_revision_lem}

abbrev doc : Text
doc = codes "d"

abbrev typed : ℕ → AppendParams
typed n = record {
  doc_id = doc;
  session_id = codes "s";
  user_id = codes "u";
  client_seq = n;
  op = insert (record {
    uid = record { clock = n; site_id = codes "a" };
    after = none;
    value = str (codes "x");
  });
  vector_clock = [];
  nonce = decimal n;
}

abbrev history : Database
history = record {
  documents = λ k. true;
  users = λ k. true;
  document_sequences = (doc, 2) ∷ [];
  operations =
      appended_row (typed 2) (codes "o2") (codes "t") 2
      ∷ appended_row (typed 1) (codes "o1") (codes "t") 1
      ∷ [];
  snapshots = [];
}

abbrev third_params : AppendParams
third_params = typed 3

abbrev third : OperationRow
third = appended_row third_params (codes "o3") (codes "t") 3

abbrev grown_history : Database
grown_history = record history {
  document_sequences = (doc, 3) ∷ [];
  operations = history.operations ++ third ∷ [];
}

history-RowsCounted : RowsCounted doc 2 history.operations
history-RowsCounted = (λ e. omega arith, (λ e. omega arith, tt))

append_operation_lem_example :
    ((row_to_envelope third).seq ≡ last_seq doc history + 1)
    × (load_operations_in_range doc 1 (row_to_envelope third).seq grown_history
        ≡ load_operations_in_range doc 1 (last_seq doc history) history
          ++ row_to_envelope third ∷ [])
    × (last_seq doc grown_history ≡ (row_to_envelope third).seq)
unfolding last_seq append_operation next_doc_seq row_to_envelope get put any ◌===◌
append_operation_lem_example =
    append_operation_lem third_params (codes "o3") (codes "t") history grown_history
      (row_to_envelope third) history-RowsCounted refl

abbrev restore_params : RestoreParams
restore_params = record {
  doc_id = doc;
  target_seq = 1;
  user_id = codes "u";
  session_id = codes "s";
}

abbrev draws : Draws
draws = record {
  op_id = codes "o3";
  snapshot_id = codes "p";
  nonce = codes "n";
  now = codes "t";
  commits = true;
}

abbrev at_target : Rga
at_target = (reconstruct_at_seq doc 1 history).0

at_target-IsWellFormed : IsWellFormed at_target
unfolding reconstruct_at_seq load_snapshot_before newest start_from load_operations_in_range
    order_by_seq insert_row filter replay ◌===◌ row_to_envelope
at_target-IsWellFormed =
    apply_operation-IsWellFormed (typed 1).op empty_rga tt empty_rga-IsWellFormed

abbrev rollback_row : OperationRow
rollback_row = appended_row (rollback_params restore_params draws) (codes "o3") (codes "t") 3

abbrev restored : Restored
restored = record {
  envelope = row_to_envelope rollback_row;
  restored_text = to_text at_target;
  new_seq = 3;
}

abbrev restored_history : Database
restored_history = record history {
  document_sequences = (doc, 3) ∷ [];
  operations = history.operations ++ rollback_row ∷ [];
  snapshots = snapshot_row (λ t. t) doc at_target 3 (codes "p") (codes "t") ∷ [];
}

history-Counted : Counted doc history
unfolding last_seq get ◌===◌
history-Counted = (history-RowsCounted, tt)

restore_to_revision_lem_example :
    (3 ≡ last_seq doc history + 1)
    × (to_text (reconstruct_at_seq doc 3 restored_history).0 ≡ to_text at_target)
    × (to_text at_target ≡ to_text (reconstruct_at_seq doc 1 history).0)
unfolding restore_to_revision append_operation next_doc_seq last_seq row_to_envelope get put any
    save_snapshot row_to_record ◌===◌
restore_to_revision_lem_example =
    restore_to_revision_lem (λ t. t) restore_params draws history restored_history restored
      history-Counted at_target-IsWellFormed refl

-- One more operation behind the snapshot that the return to a revision took.
abbrev continued : Database
continued = record restored_history {
  operations =
      restored_history.operations ++ appended_row (typed 4) (codes "o4") (codes "t") 4 ∷ [];
}

reconstruct_at_seq_lem_example : (reconstruct_at_seq doc 4 continued).0 ≡ revision doc continued 4
reconstruct_at_seq_lem_example = reconstruct_at_seq_lem doc 4 continued
