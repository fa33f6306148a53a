-- ===== src/Rga/Stored.antt =====
-- `serialize`, `deserialize`, `clone` and `gc` of `RGADocument`.
pub mod Roundtrip
pub mod Gc
use sync_engine.Base.{
  ℕ, zero, suc, ◌+◌, ◌-◌, Bool, true, false, Option, none, some, List, [], ◌∷◌, ◌++◌, map,
  if◌then◌else◌,
}
use sync_engine.Base.Text.{Text}
use sync_engine.Base.Dict.{Dict}
use sync_engine.Op.{ℤ, pos, negsuc, Uid, uid_key, Value}
use sync_engine.Rga.{Rga, Node, empty_rga, add_key, delete_key, behind_root, increment}

-- `SerializedRGANode`
pub record SerializedNode : Type 0 where
  pub clock : ℕ
  pub site_id : Text
  pub value : Value
  pub attributes : Option (Dict Value)
  pub tombstoned : Bool

abbrev pub serialize_node : Node → SerializedNode
serialize_node n = record {
  clock = n.uid.clock;
  site_id = n.uid.site_id;
  value = n.value;
  attributes = some n.attributes;
  tombstoned = n.tombstoned;
}

unfoldable pub serialize : Rga → List SerializedNode
serialize d = map serialize_node (behind_root d.chain)

-- `n.attributes || {}`
abbrev pub attributes_or_empty : Option (Dict Value) → Dict Value
attributes_or_empty none = []
attributes_or_empty (some a) = a

abbrev pub revive : SerializedNode → Node
revive n = record {
  uid = record { clock = n.clock; site_id = n.site_id };
  value = n.value;
  attributes = attributes_or_empty n.attributes;
  tombstoned = n.tombstoned;
}

-- One round of the loop of `deserialize`: the node goes behind the last one.
unfoldable pub append_node : SerializedNode → Rga → Rga
append_node n d = record {
  chain = d.chain ++ revive n ∷ [];
  index = add_key (uid_key (revive n).uid) d.index;
  doc_length = if n.tombstoned then d.doc_length else increment d.doc_length;
  node_count = d.node_count + 1;
}

unfoldable pub append_nodes : List SerializedNode → Rga → Rga
unfolding append_node
append_nodes [] d = d
append_nodes (n ∷ nodes) d = append_nodes nodes (append_node n d)

unfoldable pub deserialize : List SerializedNode → Rga
unfolding append_nodes empty_rga
deserialize nodes = append_nodes nodes empty_rga

unfoldable pub clone : Rga → Rga
clone d = deserialize (serialize d)

-- The loop of `gc` over the nodes behind the root: the nodes that stay, the index, the node count
-- and the number of nodes removed.
unfoldable pub gc_from : List Node → (Text → Bool) → ℕ → ℕ → List Node × (Text → Bool) × ℕ × ℕ
gc_from [] index count removed = ([], index, count, removed)
gc_from (n ∷ l) index count removed =
    let t = n.tombstoned in
    let (kept, index', count', removed') =
      gc_from l (if t then delete_key (uid_key n.uid) index else index)
        (if t then count - 1 else count) (if t then removed + 1 else removed) in
    (if t then kept else n ∷ kept, index', count', removed')

abbrev pub root_of : List Node → List Node
root_of [] = []
root_of (r ∷ nodes) = r ∷ []

unfoldable pub gc : Rga → Rga × ℕ
unfolding gc_from
gc d =
    let (kept, index', count', removed') = gc_from (behind_root d.chain) d.index d.node_count 0 in
    (record d { chain = root_of d.chain ++ kept; index = index'; node_count = count' }, removed')
