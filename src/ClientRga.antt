-- ===== src/ClientRga.antt =====
-- src/client/crdt/client-rga.ts: `ClientRGADocument`, the replica in the browser.
pub mod Agree
pub mod Editing
pub mod Diff
pub mod Deleting
mod Tests
use sync_engine.Base.{
  ℕ, zero, suc, ◌+◌, ◌-◌, Bool, true, false, not, ◌&&◌, Option, none, some, List, [], ◌∷◌, ◌++◌,
  map, length, take, drop, find, ltb, leb, ◌==◌, if◌then◌else◌,
}
use sync_engine.Base.Text.{Text, codes, ◌===◌}
use sync_engine.Op.{
  ℤ, pos, negsuc, Uid, uid_key, root_uid, compare_uid, InsertOperation, Operation, insert, delete,
  format, rollback, Value, str, json,
}
use sync_engine.Op.Order.{uid_gt}
use sync_engine.Rga.{
  Node, root_key, root_node, keyed, scan_insert, insert_after, update_node, bury, add_key,
  increment, decrement, after_key, new_node, behind_root,
}
use sync_engine.Rga.Read.{text_of, uid_from}
use sync_engine.Rga.Stored.{SerializedNode}

pub record ClientRga : Type 0 where
  pub chain : List Node
  pub index : Text → Bool
  pub site_id : Text
  pub clock : ℕ
  pub doc_length : ℤ

-- `new ClientRGADocument(siteId, initialClock)`
unfoldable pub empty_client : Text → ℕ → ClientRga
empty_client site clock = record {
  chain = root_node ∷ [];
  index = λ j. root_key === j;
  site_id = site;
  clock = clock;
  doc_length = pos 0;
}

-- `index.get(key)`
unfoldable pub client_node : Text → ClientRga → Option Node
client_node k d = if d.index k then find (keyed k) d.chain else none

unfoldable pub client_insert : InsertOperation → ClientRga → ClientRga
unfolding client_node
client_insert op d =
    if d.index (uid_key op.uid) then d else elim (client_node (after_key op.after) d) [
      | none ↦ d
      | some after_node ↦ record d {
        clock = if ltb d.clock op.uid.clock then op.uid.clock else d.clock;
        chain = insert_after (after_key op.after) (new_node op) d.chain;
        index = add_key (uid_key op.uid) d.index;
        doc_length = increment d.doc_length;
      }
    ]

unfoldable pub client_delete : Uid → ClientRga → ClientRga
unfolding client_node
client_delete uid d = elim (client_node (uid_key uid) d) [
  | none ↦ d
  | some node ↦ if node.tombstoned then d else record d {
    chain = update_node (uid_key uid) bury d.chain;
    doc_length = decrement d.doc_length;
  }
]

-- Whatever is no insert is taken for a delete of its identifier.
unfoldable pub client_apply : Operation → ClientRga → ClientRga
unfolding client_insert client_delete
client_apply (insert op) d = client_insert op d
client_apply (delete uid) d = client_delete uid d
client_apply (format op) d = client_delete op.uid d
client_apply (rollback uid) d = client_delete uid d

unfoldable pub client_text : ClientRga → Text
client_text d = text_of (behind_root d.chain)

-- The loop of `indexToUID`, which finds nothing at zero.
unfoldable pub client_index_to_uid : ℕ → ClientRga → Option Uid
client_index_to_uid index d = uid_from 0 index (behind_root d.chain)

-- The loop of `uidToIndex`, which counts from one.
unfoldable pub client_index_from : ℕ → Text → List Node → Option ℕ
client_index_from idx key [] = none
client_index_from idx key (n ∷ l) =
    let rest = client_index_from (if n.tombstoned then idx else idx + 1) key l in
    if not n.tombstoned && uid_key n.uid === key then some (idx + 1) else rest

unfoldable pub client_uid_to_index : Uid → ClientRga → Option ℕ
unfolding client_index_from
client_uid_to_index uid d = client_index_from 0 (uid_key uid) (behind_root d.chain)

unfoldable pub client_after_uid : ℕ → ClientRga → Option Uid
unfolding client_index_to_uid
client_after_uid index d = if index == 0 then none else client_index_to_uid index d

-- The operation that `localInsert` makes.
abbrev pub local_operation : ℕ → Text → ClientRga → InsertOperation
local_operation index char d = record {
  uid = record { clock = d.clock + 1; site_id = d.site_id };
  after = client_after_uid index d;
  value = str char;
}

unfoldable pub local_insert : ℕ → Text → ClientRga → InsertOperation × ClientRga
unfolding client_after_uid client_insert
local_insert index char d = (
  local_operation index char d,
  client_insert (local_operation index char d) (record d { clock = d.clock + 1 }),
)

unfoldable pub local_delete : ℕ → ClientRga → Option Uid × ClientRga
unfolding client_index_to_uid client_delete
local_delete index d = elim (client_index_to_uid (index + 1) d) [
  | none ↦ (none, d)
  | some uid ↦ (some uid, client_delete uid d)
]

abbrev pub client_serialize_node : Node → SerializedNode
client_serialize_node n = record {
  clock = n.uid.clock;
  site_id = n.uid.site_id;
  value = n.value;
  attributes = none;
  tombstoned = n.tombstoned;
}

unfoldable pub client_serialize : ClientRga → List SerializedNode
client_serialize d = map client_serialize_node (behind_root d.chain)

abbrev pub client_revive : SerializedNode → Node
client_revive n = record {
  uid = record { clock = n.clock; site_id = n.site_id };
  value = n.value;
  attributes = [];
  tombstoned = n.tombstoned;
}

-- The loop of `deserialize`.
unfoldable pub client_append : List SerializedNode → ClientRga → ClientRga
client_append [] d = d
client_append (n ∷ nodes) d = client_append nodes (record d {
  chain = d.chain ++ client_revive n ∷ [];
  index = add_key (uid_key (client_revive n).uid) d.index;
  doc_length = if n.tombstoned then d.doc_length else increment d.doc_length;
  clock = if ltb d.clock n.clock then n.clock else d.clock;
})

unfoldable pub client_deserialize : List SerializedNode → Text → ℕ → ClientRga
unfolding client_append empty_client
client_deserialize nodes site clock = client_append nodes (empty_client site clock)
