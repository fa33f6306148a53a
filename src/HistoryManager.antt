-- ===== src/HistoryManager.antt =====
-- src/crdt/history-manager.ts: `HistoryManager`, the undo and redo stacks of the local user.
pub mod Inverse
mod Tests
use sync_engine.Base.{
  ℕ, suc, ◌+◌, Bool, true, false, Option, none, some, List, [], ◌∷◌, ◌++◌, find, if◌then◌else◌,
}
use sync_engine.Base.Text.{Text, ◌===◌}
use sync_engine.Op.{Uid, uid_key, InsertOperation, Operation, insert, delete, format, rollback}
use sync_engine.Rga.{Rga, Node, keyed, get_node}

-- Both stacks have their top at the end. `timer_set` says whether the batch timer runs.
pub record History : Type 0 where
  pub undo_stack : List (List Operation)
  pub redo_stack : List (List Operation)
  pub current_batch : List Operation
  pub timer_set : Bool

-- `new HistoryManager(doc, localUserId)`
unfoldable pub empty_history : History
empty_history = record { undo_stack = []; redo_stack = []; current_batch = []; timer_set = false }

unfoldable pub record_local : Operation → History → History
record_local op h = record h {
  current_batch = h.current_batch ++ op ∷ [];
  redo_stack = [];
  timer_set = true;
}

-- Also what the timer runs.
unfoldable pub commit_batch : History → History
commit_batch h = elim h.current_batch [
  | [] ↦ h
  | op ∷ ops ↦ record h { undo_stack = h.undo_stack ++ h.current_batch ∷ []; current_batch = [] }
]

-- `stack.pop()`: the top, and what is left
unfoldable pub pop {ℓ} : {A : Type ℓ} → List A → Option (A × List A)
pop [] = none
pop (x ∷ l) = elim (pop l) [ none ↦ some (x, []) | some (top, rest) ↦ some (top, x ∷ rest) ]

-- The identifier of the node in front of the one with the key, `node.prev`.
unfoldable pub prev_uid : Text → Option Uid → List Node → Option Uid
prev_uid k before [] = none
prev_uid k before (n ∷ l) =
    let further = prev_uid k (some n.uid) l in if keyed k n then before else further

-- The inverse of one operation, if it has one.
unfoldable pub inverse_op : Rga → Operation → List Operation
unfolding get_node prev_uid
inverse_op d (insert x) = delete x.uid ∷ []
inverse_op d (delete u) = elim (get_node (uid_key u) d) [
  | none ↦ []
  | some n ↦
      insert (record { uid = u; after = prev_uid (uid_key u) none d.chain; value = n.value }) ∷ []
]
inverse_op d (format f) = []
inverse_op d (rollback u) = []

-- The loop runs from the last operation to the first.
unfoldable pub create_inverse_ops : Rga → List Operation → List Operation
unfolding inverse_op
create_inverse_ops d [] = []
create_inverse_ops d (op ∷ ops) = create_inverse_ops d ops ++ inverse_op d op

unfoldable pub undo : Rga → History → Option (List Operation) × History
unfolding commit_batch pop create_inverse_ops
undo d h =
    let h' = commit_batch h in
    elim (pop h'.undo_stack) [
      | none ↦ (none, h')
      | some (batch, rest) ↦ (
        some (create_inverse_ops d batch),
        record h' { undo_stack = rest; redo_stack = h'.redo_stack ++ batch ∷ [] },
      )
    ]

unfoldable pub redo : History → Option (List Operation) × History
unfolding commit_batch pop
redo h =
    let h' = commit_batch h in
    elim (pop h'.redo_stack) [
      | none ↦ (none, h')
      | some (batch, rest) ↦
          (some batch, record h' { redo_stack = rest; undo_stack = h'.undo_stack ++ batch ∷ [] })
    ]
