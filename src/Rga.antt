-- ===== src/Rga.antt =====
-- src/crdt/rga-document.ts: `RGADocument`. The linked list from the root on is a list of nodes in
-- document order, and a node that the index map holds is reached by its key.
pub mod Scan
pub mod Index
pub mod Commute
pub mod Converge
pub mod Causal
pub mod Duplicate
pub mod Invariant
pub mod Read
pub mod Stored
mod Tests
use sync_engine.Base.{
  ℕ, zero, suc, ◌+◌, ◌-◌, Bool, true, false, not, ◌&&◌, ◌||◌, Option, none, some, List, [], ◌∷◌,
  ◌++◌, find, ◌==◌, if◌then◌else◌,
}
use sync_engine.Base.Text.{Text, ◌===◌}
use sync_engine.Base.Dict.{Dict, put}
use sync_engine.Op.{
  ℤ, pos, negsuc, Uid, uid_key, root_uid, Value, str, json, InsertOperation, FormatOperation,
  Operation, insert, delete, format, rollback,
}
use sync_engine.Op.Order.{uid_gt}

pub record Node : Type 0 where
  pub uid : Uid
  pub value : Value
  pub attributes : Dict Value
  pub tombstoned : Bool

-- `n++` and `n--` on a counter that may go below zero
abbrev pub increment : ℤ → ℤ
increment (pos n) = pos (suc n)
increment (negsuc zero) = pos zero
increment (negsuc (suc n)) = negsuc n

abbrev pub decrement : ℤ → ℤ
decrement (pos zero) = negsuc zero
decrement (pos (suc n)) = pos n
decrement (negsuc n) = negsuc (suc n)

-- `chain` is the root and the nodes that `next` leads to; `index` says which keys the map holds.
pub record Rga : Type 0 where
  pub chain : List Node
  pub index : Text → Bool
  pub doc_length : ℤ
  pub node_count : ℕ

abbrev pub root_key : Text
root_key = uid_key root_uid

abbrev pub root_node : Node
root_node = record { uid = root_uid; value = Value.json []; attributes = []; tombstoned = false }

abbrev pub add_key : Text → (Text → Bool) → Text → Bool
add_key k index j = k === j || index j

abbrev pub delete_key : Text → (Text → Bool) → Text → Bool
delete_key k index j = not (k === j) && index j

-- `new RGADocument()`
unfoldable pub empty_rga : Rga
empty_rga = record {
  chain = root_node ∷ [];
  index = λ j. root_key === j;
  doc_length = pos 0;
  node_count = 0;
}

-- `root.next` and the nodes behind it
abbrev pub behind_root : List Node → List Node
behind_root [] = []
behind_root (r ∷ nodes) = nodes

abbrev pub keyed : Text → Node → Bool
keyed k n = uid_key n.uid === k

-- `index.get(key)`
unfoldable pub get_node : Text → Rga → Option Node
get_node k d = if d.index k then find (keyed k) d.chain else none

-- The scan to the right from an insertion point, over the nodes behind it, and the splice.
unfoldable pub scan_insert : Node → List Node → List Node
scan_insert x [] = x ∷ []
scan_insert x (n ∷ nodes) =
    let further = n ∷ scan_insert x nodes in if uid_gt n.uid x.uid then further else x ∷ n ∷ nodes

-- The same from the node with the key `k`.
unfoldable pub insert_after : Text → Node → List Node → List Node
insert_after k x [] = []
insert_after k x (n ∷ nodes) =
    let further = n ∷ insert_after k x nodes in
    if keyed k n then n ∷ scan_insert x nodes else further

-- A write to the node with the key `k`.
unfoldable pub update_node : Text → (Node → Node) → List Node → List Node
update_node k f [] = []
update_node k f (n ∷ nodes) =
    let further = n ∷ update_node k f nodes in if keyed k n then f n ∷ nodes else further

abbrev pub after_key : Option Uid → Text
after_key none = root_key
after_key (some a) = uid_key a

abbrev pub new_node : InsertOperation → Node
new_node op = record { uid = op.uid; value = op.value; attributes = []; tombstoned = false }

-- The document with the node of an insert spliced in.
abbrev pub grown : InsertOperation → Rga → Rga
grown op d = record {
  chain = insert_after (after_key op.after) (new_node op) d.chain;
  index = add_key (uid_key op.uid) d.index;
  doc_length = increment d.doc_length;
  node_count = d.node_count + 1;
}

-- `none` where the method throws: a causal gap.
unfoldable pub apply_insert : InsertOperation → Rga → Option Rga
unfolding get_node
apply_insert op d =
    if d.index (uid_key op.uid) then some d else elim (get_node (after_key op.after) d) [
      | none ↦ none
      | some after_node ↦ some (grown op d)
    ]

abbrev pub bury : Node → Node
bury n = record n { tombstoned = true }

unfoldable pub apply_delete : Uid → Rga → Rga × Bool
unfolding get_node
apply_delete uid d = elim (get_node (uid_key uid) d) [
  | none ↦ (d, false)
  | some node ↦ if node.tombstoned then (d, true) else (
    record d {
      chain = update_node (uid_key uid) bury d.chain;
      doc_length = decrement d.doc_length;
    },
    true,
  )
]

-- `{ ...a, ...b }`
unfoldable pub assign : Dict Value → Dict Value → Dict Value
assign a [] = a
assign a ((k, v) ∷ b) = assign (put k v a) b

abbrev pub restyle : Dict Value → Node → Node
restyle attributes n = record n { attributes = assign n.attributes attributes }

unfoldable pub apply_format : FormatOperation → Rga → Rga × Bool
unfolding get_node
apply_format op d = elim (get_node (uid_key op.uid) d) [
  | none ↦ (d, false)
  | some node ↦
      (record d { chain = update_node (uid_key op.uid) (restyle op.attributes) d.chain }, true)
]

-- The `try` of `applyOperation`: a throw is `false`, and the document is as it was.
abbrev pub caught : Rga → Option Rga → Rga × Bool
caught d none = (d, false)
caught d (some d') = (d', true)

unfoldable pub apply_operation : Operation → Rga → Rga × Bool
unfolding apply_insert apply_delete apply_format
apply_operation (insert op) d = caught d (apply_insert op d)
apply_operation (delete uid) d = apply_delete uid d
apply_operation (format op) d = apply_format op d
apply_operation (rollback uid) d = (d, false)
