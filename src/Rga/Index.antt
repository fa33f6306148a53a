-- ===== src/Rga/Index.antt =====
-- What a lookup by key finds after a splice or a write, and how writes and splices pass.
use sync_engine.Base.{
  ◌≡◌, refl, ap, ◌≢◌, false, Option, none, some, List, [], ◌∷◌, arith, find, if◌then◌else◌,
}
use sync_engine.Base.Text.{Text, ◌===◌, ===_iff}
use sync_engine.Op.{uid_key, Value}
use sync_engine.Rga.{Node, keyed, scan_insert, insert_after, update_node, bury, restyle}
use sync_engine.Base.Dict.{Dict}

abbrev pub apply_some : (Node → Node) → Option Node → Option Node
apply_some f none = none
apply_some f (some n) = some (f n)

module _ (j : Text) (x : Node) (other : keyed j x ≡ false) where
  find-scan_insert_ne : (l : List Node) → find (keyed j) (scan_insert x l) ≡ find (keyed j) l
  unfolding find scan_insert
  find-scan_insert_ne [] = ground arith
  find-scan_insert_ne (n ∷ l) = ground (arith, find-scan_insert_ne l)

pub find-insert_after_ne :
    (j k : Text) (x : Node) (l : List Node)
    → keyed j x ≡ false
    → find (keyed j) (insert_after k x l) ≡ find (keyed j) l
unfolding find insert_after
find-insert_after_ne j k x [] h = refl
find-insert_after_ne j k x (n ∷ l) h =
    ground (arith, find-insert_after_ne j k x l h, find-scan_insert_ne j x h l)

-- A write keeps the identifier of its node.
abbrev pub KeepsUid : (Node → Node) → Type 0
KeepsUid f = (n : Node) → (f n).uid ≡ n.uid

module _ (k : Text) (f : Node → Node) (keeps : KeepsUid f) where
  pub keyed-write : (j : Text) (n : Node) → keyed j (f n) ≡ keyed j n
  keyed-write j n = ap (λ u. uid_key u === j) (keeps n)

  pub find-update_node :
      (j : Text) (l : List Node)
      → find (keyed j) (update_node k f l)
        ≡ (if k === j then apply_some f (find (keyed j) l) else find (keyed j) l)
  unfolding find update_node
  find-update_node j [] = ground arith
  find-update_node j (n ∷ l) = ground (
    arith,
    find-update_node j l,
    keyed-write j n,
    ===_iff k j,
    ===_iff (uid_key n.uid) k,
    ===_iff (uid_key n.uid) j,
  )

  module _ (x : Node) (other : keyed k x ≡ false) where
    scan_insert-update_node :
        (l : List Node) → scan_insert x (update_node k f l) ≡ update_node k f (scan_insert x l)
    unfolding scan_insert update_node
    scan_insert-update_node [] = ground arith
    scan_insert-update_node (n ∷ l) = ground (arith, scan_insert-update_node l, keeps n)

  pub insert_after-update_node :
      (x : Node) (j : Text) (l : List Node)
      → keyed k x ≡ false
      → insert_after j x (update_node k f l) ≡ update_node k f (insert_after j x l)
  unfolding insert_after update_node
  insert_after-update_node x j [] h = refl
  insert_after-update_node x j (n ∷ l) h =
      ground
        (arith, insert_after-update_node x j l h, scan_insert-update_node x h l, keyed-write j n)

-- Writes to two nodes pass one another.
pub update_node_comm :
    (k j : Text) (f g : Node → Node) (l : List Node)
    → KeepsUid f
    → KeepsUid g
    → k ≢ j
    → update_node k f (update_node j g l) ≡ update_node j g (update_node k f l)
unfolding update_node
update_node_comm k j f g [] hf hg h = refl
update_node_comm k j f g (n ∷ l) hf hg h = ground (
  arith,
  update_node_comm k j f g l hf hg h,
  keyed-write j g hg k n,
  keyed-write k f hf j n,
  ===_iff (uid_key n.uid) k,
  ===_iff (uid_key n.uid) j,
  h,
)

-- Two writes to one node are one write.
pub update_node_same :
    (k : Text) (f g : Node → Node) (l : List Node)
    → KeepsUid g
    → update_node k f (update_node k g l) ≡ update_node k (λ n. f (g n)) l
unfolding update_node
update_node_same k f g [] hg = refl
update_node_same k f g (n ∷ l) hg =
    ground (arith, update_node_same k f g l hg, keyed-write k g hg k n)

-- A write that changes nothing in the node that it finds.
pub update_node_idle :
    (k : Text) (f : Node → Node) (l : List Node)
    → apply_some f (find (keyed k) l) ≡ find (keyed k) l
    → update_node k f l ≡ l
unfolding update_node find
update_node_idle k f [] h = refl
update_node_idle k f (n ∷ l) h = ground (arith, update_node_idle k f l)

pub bury-KeepsUid : KeepsUid bury
bury-KeepsUid n = refl

pub restyle-KeepsUid : (a : Dict Value) → KeepsUid (restyle a)
restyle-KeepsUid a n = refl
