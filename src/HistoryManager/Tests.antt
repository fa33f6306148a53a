-- ===== src/HistoryManager/Tests.antt =====
-- Undo and redo of one typed character.
use sync_engine.Base.{◌≡◌, refl, some, none, List, [], ◌∷◌}
use sync_engine.Base.Text.{codes}
use sync_engine.Op.{Uid, Operation, insert, delete, str}
use sync_engine.Rga.{empty_rga}
use sync_engine.HistoryManager.{
  History, empty_history, record_local, commit_batch, pop, create_inverse_ops, undo, redo,
}
use sync_engine.HistoryManager.Inverse.{undo-redo}

abbrev uid : Uid
uid = record { clock = 1; site_id = codes "a" }

abbrev typed : Operation
typed = insert (record { uid = uid; after = none; value = str (codes "x") })

abbrev recorded : History
recorded = record_local typed empty_history

undo-redo_example :
    (batch : List Operation) × (pop (commit_batch recorded).undo_stack
      ≡ some (batch, (undo empty_rga recorded).1.undo_stack))
    × ((delete uid ∷ []) ≡ create_inverse_ops empty_rga batch)
    × (redo (undo empty_rga recorded).1 ≡ (some batch, commit_batch recorded))
unfolding undo record_local empty_history commit_batch pop create_inverse_ops
undo-redo_example = undo-redo empty_rga recorded (delete uid ∷ []) refl
