-- ===== src/Rga/Commute.antt =====
-- Operations that can both be applied commute.
use sync_engine.Base.{zero, suc, ◌≡◌, refl, sym, subst, ◌≢◌, Bool, true, arith}
use mathlib.Core.Path.{fun_ext}
use sync_engine.Base.Text.{Text, ===_iff}
use sync_engine.Op.{
  ℤ, pos, negsuc, Uid, uid_key, InsertOperation, FormatOperation, Operation, insert, delete, format,
  rollback,
}
use sync_engine.Op.Order.{Uid-discrete}
use sync_engine.Op.Key.{uid_key-injective}
use sync_engine.Rga.{
  Rga, add_key, after_key, new_node, apply_operation, bury, restyle, increment, decrement,
}
use sync_engine.Rga.Scan.{insert_after_comm}
use sync_engine.Rga.Index.{
  find-insert_after_ne, find-update_node, insert_after-update_node, update_node_comm,
  update_node_same, bury-KeepsUid, restyle-KeepsUid,
}

-- Two operations that do not contradict one another: two inserts of one identifier are one insert,
-- and two formats of one node set the same attributes.
abbrev pub Compatible : Operation → Operation → Type 0
Compatible (insert x) (insert y) = x.uid ≡ y.uid → x ≡ y
Compatible (format f) (format g) = f.uid ≡ g.uid → f.attributes ≡ g.attributes
Compatible _ _ = Unit

-- `applyOperation` returns true.
abbrev pub Succeeds : Operation → Rga → Type 0
Succeeds op d = (apply_operation op d).1 ≡ true

abbrev pub after : Operation → Rga → Rga
after op d = (apply_operation op d).0

add_key_comm : (k j : Text) (f : Text → Bool) → add_key k (add_key j f) ≡ add_key j (add_key k f)
add_key_comm k j f = fun_ext λ i. ground arith

module _ (x y : InsertOperation) (d : Rga) where
  insert_insert :
      x.uid ≢ y.uid
      → Succeeds (insert x) d
      → Succeeds (insert y) d
      → after (insert y) (after (insert x) d) ≡ after (insert x) (after (insert y) d)
  unfolding apply_operation
  insert_insert distinct hx hy = ground (
    arith,
    distinct,
    λ (e : uid_key x.uid ≡ uid_key y.uid). distinct (uid_key-injective x.uid y.uid e),
    ===_iff (uid_key x.uid) (uid_key y.uid),
    ===_iff (uid_key y.uid) (uid_key x.uid),
    ===_iff (uid_key x.uid) (after_key y.after),
    ===_iff (uid_key y.uid) (after_key x.after),
    insert_after_comm (after_key x.after) (after_key y.after) (new_node x) (new_node y) d.chain
        distinct,
    add_key_comm (uid_key x.uid) (uid_key y.uid) d.index,
    find-insert_after_ne (after_key y.after) (after_key x.after) (new_node x) d.chain,
    find-insert_after_ne (after_key x.after) (after_key y.after) (new_node y) d.chain,
  )

increment-decrement : (z : ℤ) → increment (decrement z) ≡ decrement (increment z)
increment-decrement (pos zero) = refl
increment-decrement (pos (suc n)) = refl
increment-decrement (negsuc zero) = refl
increment-decrement (negsuc (suc n)) = refl

module _ (x : InsertOperation) (u : Uid) (d : Rga) where
  insert_delete :
      Succeeds (insert x) d
      → Succeeds (delete u) d
      → after (delete u) (after (insert x) d) ≡ after (insert x) (after (delete u) d)
  unfolding apply_operation
  insert_delete hx hu = ground (
    arith,
    ===_iff (uid_key x.uid) (uid_key u),
    ===_iff (uid_key u) (after_key x.after),
    find-insert_after_ne (uid_key u) (after_key x.after) (new_node x) d.chain,
    find-update_node (uid_key u) bury bury-KeepsUid (after_key x.after) d.chain,
    insert_after-update_node (uid_key u) bury bury-KeepsUid (new_node x) (after_key x.after)
        d.chain,
    increment-decrement d.doc_length,
  )

module _ (x : InsertOperation) (f : FormatOperation) (d : Rga) where
  insert_format :
      Succeeds (insert x) d
      → Succeeds (format f) d
      → after (format f) (after (insert x) d) ≡ after (insert x) (after (format f) d)
  unfolding apply_operation
  insert_format hx hf = ground (
    arith,
    ===_iff (uid_key x.uid) (uid_key f.uid),
    ===_iff (uid_key f.uid) (after_key x.after),
    find-insert_after_ne (uid_key f.uid) (after_key x.after) (new_node x) d.chain,
    find-update_node (uid_key f.uid) (restyle f.attributes) (restyle-KeepsUid f.attributes)
        (after_key x.after) d.chain,
    insert_after-update_node (uid_key f.uid) (restyle f.attributes) (restyle-KeepsUid f.attributes)
        (new_node x) (after_key x.after) d.chain,
  )

module _ (u v : Uid) (d : Rga) where
  delete_delete :
      u ≢ v
      → Succeeds (delete u) d
      → Succeeds (delete v) d
      → after (delete v) (after (delete u) d) ≡ after (delete u) (after (delete v) d)
  unfolding apply_operation
  delete_delete distinct hu hv = ground (
    arith,
    ===_iff (uid_key u) (uid_key v),
    ===_iff (uid_key v) (uid_key u),
    λ (e : uid_key u ≡ uid_key v). distinct (uid_key-injective u v e),
    find-update_node (uid_key u) bury bury-KeepsUid (uid_key v) d.chain,
    find-update_node (uid_key v) bury bury-KeepsUid (uid_key u) d.chain,
    update_node_comm (uid_key u) (uid_key v) bury bury d.chain bury-KeepsUid bury-KeepsUid,
  )

module _ (u : Uid) (f : FormatOperation) (d : Rga) where
  delete_format :
      Succeeds (delete u) d
      → Succeeds (format f) d
      → after (format f) (after (delete u) d) ≡ after (delete u) (after (format f) d)
  unfolding apply_operation
  delete_format hu hf = elim (Uid-discrete u f.uid) [
    | yes p ↦ ground (
      arith,
      p,
      ===_iff (uid_key u) (uid_key f.uid),
      find-update_node (uid_key u) bury bury-KeepsUid (uid_key f.uid) d.chain,
      find-update_node (uid_key f.uid) (restyle f.attributes) (restyle-KeepsUid f.attributes)
          (uid_key u) d.chain,
      update_node_same (uid_key u) bury (restyle f.attributes) d.chain
          (restyle-KeepsUid f.attributes),
      update_node_same (uid_key u) (restyle f.attributes) bury d.chain bury-KeepsUid,
    )
    | no p ↦ ground (
      arith,
      ===_iff (uid_key u) (uid_key f.uid),
      ===_iff (uid_key f.uid) (uid_key u),
      λ (e : uid_key u ≡ uid_key f.uid). p (uid_key-injective u f.uid e),
      find-update_node (uid_key u) bury bury-KeepsUid (uid_key f.uid) d.chain,
      find-update_node (uid_key f.uid) (restyle f.attributes) (restyle-KeepsUid f.attributes)
          (uid_key u) d.chain,
      update_node_comm (uid_key u) (uid_key f.uid) bury (restyle f.attributes) d.chain bury-KeepsUid
          (restyle-KeepsUid f.attributes),
    )
  ]

module _ (f g : FormatOperation) (d : Rga) where
  format_format :
      f.uid ≢ g.uid
      → Succeeds (format f) d
      → Succeeds (format g) d
      → after (format g) (after (format f) d) ≡ after (format f) (after (format g) d)
  unfolding apply_operation
  format_format distinct hf hg = ground (
    arith,
    ===_iff (uid_key f.uid) (uid_key g.uid),
    ===_iff (uid_key g.uid) (uid_key f.uid),
    λ (e : uid_key f.uid ≡ uid_key g.uid). distinct (uid_key-injective f.uid g.uid e),
    find-update_node (uid_key f.uid) (restyle f.attributes) (restyle-KeepsUid f.attributes)
        (uid_key g.uid) d.chain,
    find-update_node (uid_key g.uid) (restyle g.attributes) (restyle-KeepsUid g.attributes)
        (uid_key f.uid) d.chain,
    update_node_comm (uid_key f.uid) (uid_key g.uid) (restyle f.attributes) (restyle g.attributes)
        d.chain (restyle-KeepsUid f.attributes) (restyle-KeepsUid g.attributes),
  )

pub not_rollback : (u : Uid) (d : Rga) → ¬ Succeeds (rollback u) d
unfolding apply_operation
not_rollback u d h = cc

-- Two compatible operations that can both be applied to a document lead to the same document in
-- either order.
pub apply_operation_comm :
    (a b : Operation) (d : Rga)
    → Compatible a b
    → Succeeds a d
    → Succeeds b d
    → after b (after a d) ≡ after a (after b d)
apply_operation_comm (insert x) (insert y) d c ha hb = elim (Uid-discrete x.uid y.uid) [
  | yes p ↦
      subst (λ z. after (insert z) (after (insert x) d) ≡ after (insert x) (after (insert z) d))
        (c p) refl
  | no p ↦ insert_insert x y d p ha hb
]
apply_operation_comm (insert x) (delete v) d c ha hb = insert_delete x v d ha hb
apply_operation_comm (insert x) (format g) d c ha hb = insert_format x g d ha hb
apply_operation_comm (delete u) (insert y) d c ha hb = sym (insert_delete y u d hb ha)
apply_operation_comm (delete u) (delete v) d c ha hb = elim (Uid-discrete u v) [
  | yes p ↦
      subst (λ z. after (delete z) (after (delete u) d) ≡ after (delete u) (after (delete z) d)) p
        refl
  | no p ↦ delete_delete u v d p ha hb
]
apply_operation_comm (delete u) (format g) d c ha hb = delete_format u g d ha hb
apply_operation_comm (format f) (insert y) d c ha hb = sym (insert_format y f d hb ha)
apply_operation_comm (format f) (delete v) d c ha hb = sym (delete_format v f d hb ha)
apply_operation_comm (format f) (format g) d c ha hb = elim (Uid-discrete f.uid g.uid) [
  | yes p ↦
      subst (λ z. after (format z) (after (format f) d) ≡ after (format f) (after (format z) d))
        (λ i. record { uid = p i; attributes = c p i }) refl
  | no p ↦ format_format f g d p ha hb
]
apply_operation_comm (rollback u) b d c ha hb = absurd (not_rollback u d ha)
apply_operation_comm (insert x) (rollback v) d c ha hb = absurd (not_rollback v d hb)
apply_operation_comm (delete u) (rollback v) d c ha hb = absurd (not_rollback v d hb)
apply_operation_comm (format f) (rollback v) d c ha hb = absurd (not_rollback v d hb)
