-- ===== src/Rga/Duplicate.antt =====
-- Duplicate deliveries, and what a format does to an earlier one.
use sync_engine.Base.{
  ◌≡◌, refl, sym, subst, ap, Bool, true, false, Option, none, some, List, [], ◌∷◌, arith, find,
  if◌then◌else◌, inl, inr, Option-cases,
}
use sync_engine.Base.Text.{Text, ◌===◌, ===_iff, ===_refl}
use sync_engine.Base.Dict.{Dict, get, put, get-put}
use sync_engine.Op.{
  Uid, uid_key, Value, FormatOperation, Operation, insert, delete, format, rollback,
}
use sync_engine.Rga.{
  Rga, Node, get_node, keyed, after_key, new_node, apply_operation, assign, bury, restyle,
}
use sync_engine.Rga.Index.{find-insert_after_ne, find-update_node, bury-KeepsUid, restyle-KeepsUid}
use sync_engine.Rga.Commute.{Succeeds, after}
use sync_engine.Rga.Converge.{run, Succeeds-after}

abbrev is_buried : Option Node → Bool
is_buried none = false
is_buried (some n) = n.tombstoned

-- The operation has left its mark on the document.
Absorbed : Operation → Rga → Type 0
Absorbed (insert x) d = d.index (uid_key x.uid) ≡ true
Absorbed (delete u) d = is_buried (get_node (uid_key u) d) ≡ true
Absorbed (format f) d = ⊥
Absorbed (rollback u) d = ⊥

-- The operations that are safe to deliver twice.
abbrev pub IsInsertOrDelete : Operation → Type 0
IsInsertOrDelete (insert x) = Unit
IsInsertOrDelete (delete u) = Unit
IsInsertOrDelete (format f) = ⊥
IsInsertOrDelete (rollback u) = ⊥

Absorbed-apply :
    (a : Operation) (d : Rga) → IsInsertOrDelete a → Succeeds a d → Absorbed a (after a d)
unfolding apply_operation Absorbed
Absorbed-apply (insert x) d i h = ground (arith, ===_refl (uid_key x.uid))
Absorbed-apply (delete u) d i h = ground (
  arith,
  find-update_node (uid_key u) bury bury-KeepsUid (uid_key u) d.chain,
  ===_refl (uid_key u),
)
Absorbed-apply (format f) d i h = elim i [ ]
Absorbed-apply (rollback u) d i h = elim i [ ]

-- A mark stays, whatever else is applied.
Absorbed-after : (a b : Operation) (d : Rga) → Absorbed a d → Absorbed a (after b d)
unfolding apply_operation Absorbed
Absorbed-after (insert x) (insert y) d h = ground arith
Absorbed-after (insert x) (delete v) d h = ground arith
Absorbed-after (insert x) (format g) d h = ground arith
Absorbed-after (insert x) (rollback v) d h = h
Absorbed-after (delete u) (insert y) d h = ground (
  arith,
  ===_iff (uid_key y.uid) (uid_key u),
  find-insert_after_ne (uid_key u) (after_key y.after) (new_node y) d.chain,
)
Absorbed-after (delete u) (delete v) d h =
    ground (arith, find-update_node (uid_key v) bury bury-KeepsUid (uid_key u) d.chain)
Absorbed-after (delete u) (format g) d h = ground (
  arith,
  find-update_node (uid_key g.uid) (restyle g.attributes) (restyle-KeepsUid g.attributes)
      (uid_key u) d.chain,
)
Absorbed-after (delete u) (rollback v) d h = h
Absorbed-after (format f) b d h = elim h [ ]
Absorbed-after (rollback u) b d h = elim h [ ]

Absorbed-run :
    (a : Operation) (ops : List Operation) (d : Rga) → Absorbed a d → Absorbed a (run ops d)
unfolding run
Absorbed-run a [] d h = h
Absorbed-run a (b ∷ ops) d h = Absorbed-run a ops (after b d) (Absorbed-after a b d h)

after_of_Absorbed : (a : Operation) (d : Rga) → Absorbed a d → after a d ≡ d
unfolding apply_operation Absorbed
after_of_Absorbed (insert x) d h = ground arith
after_of_Absorbed (delete u) d h = ground arith
after_of_Absorbed (format f) d h = elim h [ ]
after_of_Absorbed (rollback u) d h = elim h [ ]

-- An insert or a delete that was applied changes nothing when it is delivered again, whatever was
-- applied in between.
pub duplicate_delivery :
    (a : Operation) (ops : List Operation) (d : Rga)
    → IsInsertOrDelete a
    → Succeeds a d
    → after a (run ops (after a d)) ≡ run ops (after a d)
duplicate_delivery a ops d i h =
    after_of_Absorbed a (run ops (after a d))
      (Absorbed-run a ops (after a d) (Absorbed-apply a d i h))

-- The attribute of the node with an identifier.
abbrev attribute_in : Text → Option Node → Option Value
attribute_in k none = none
attribute_in k (some n) = get k n.attributes

unfoldable pub attribute : Uid → Text → Rga → Option Value
attribute u k d = attribute_in k (get_node (uid_key u) d)

-- The value that an object literal has at a key: the last one written.
abbrev pub written : Text → Dict Value → Option Value
written k [] = none
written k ((j, v) ∷ b) = elim (written k b) [
  | none ↦ (if j === k then some v else none)
  | some w ↦ some w
]

get-assign :
    (k : Text) (a b : Dict Value)
    → get k (assign a b) ≡ elim (written k b) [ none ↦ get k a | some w ↦ some w ]
unfolding assign
get-assign k a [] = refl
get-assign k a ((j, v) ∷ b) = ground (arith, get-assign k (put j v a) b, get-put j k v a)

attribute-format :
    (f : FormatOperation) (k : Text) (v : Value) (d : Rga)
    → Succeeds (format f) d
    → written k f.attributes ≡ some v
    → attribute f.uid k (after (format f) d) ≡ some v
unfolding apply_operation attribute
attribute-format f k v d h e = elim (Option-cases (find (keyed (uid_key f.uid)) d.chain)) [
  | inl missing ↦ ground arith
  | inr (n, found) ↦ ground (
    arith,
    find-update_node (uid_key f.uid) (restyle f.attributes) (restyle-KeepsUid f.attributes)
        (uid_key f.uid) d.chain,
    ===_refl (uid_key f.uid),
    get-assign k n.attributes f.attributes,
  )
]

-- Whether a format can be applied depends on its identifier alone.
format_found :
    (f g : FormatOperation) (d : Rga)
    → f.uid ≡ g.uid
    → Succeeds (format f) d
    → Succeeds (format g) d
unfolding apply_operation
format_found f g d e h = ground (arith, ap uid_key e)

-- Of two formats of one node that write one attribute, the one that arrives last decides it: in
-- the one order the node ends with the one value, in the other order with the other.
pub format_last_arrival :
    (f g : FormatOperation) (k : Text) (v w : Value) (d : Rga)
    → f.uid ≡ g.uid
    → written k f.attributes ≡ some v
    → written k g.attributes ≡ some w
    → Succeeds (format f) d
    → (attribute f.uid k (after (format g) (after (format f) d)) ≡ some w)
      × (attribute f.uid k (after (format f) (after (format g) d)) ≡ some v)
format_last_arrival f g k v w d same ef eg h =
    let hg : Succeeds (format g) d = format_found f g d same h in
    (
      subst (λ u. attribute u k (after (format g) (after (format f) d)) ≡ some w) (sym same)
          (attribute-format g k w (after (format f) d) (Succeeds-after (format g) (format f) d hg)
            eg),
      attribute-format f k v (after (format g) d) (Succeeds-after (format f) (format g) d h) ef,
    )
