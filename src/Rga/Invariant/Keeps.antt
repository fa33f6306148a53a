-- ===== src/Rga/Invariant/Keeps.antt =====
-- Every operation keeps the invariant.
use sync_engine.Base.{
  suc, ◌+◌, ◌≡◌, refl, ap, ◌≢◌, true, false, some, List, [], ◌∷◌, arith, any, find, length,
  if◌then◌else◌, inl, inr, Option-cases,
}
use sync_engine.Base.Text.{Text, ===_iff}
use sync_engine.Base.Dict.{Dict}
use sync_engine.Op.{
  Uid, uid_key, root_uid, InsertOperation, Operation, insert, delete, format, rollback, Value,
  FormatOperation,
}
use sync_engine.Op.Key.{uid_key-injective}
use sync_engine.Rga.{
  Rga, Node, empty_rga, root_key, keyed, behind_root, insert_after, update_node, after_key,
  new_node, apply_operation, bury, restyle,
}
use sync_engine.Rga.Index.{bury-KeepsUid, restyle-KeepsUid}
use sync_engine.Rga.Commute.{after}
use sync_engine.Rga.Invariant.{
  live_count, Rooted, IsWellFormed, any-insert_after, Distinct-insert_after, live_count-scan_insert,
  live_count-insert_after, length-scan_insert, length-insert_after, any-update_node,
  Distinct-update_node, length-update_node,
}

pub empty_rga-IsWellFormed : IsWellFormed empty_rga
unfolding empty_rga any
empty_rga-IsWellFormed = record {
  rooted = (refl, refl);
  indexed = λ k. ground arith;
  distinct = (refl, tt);
  counted = refl;
  sized = refl;
}

module _ (k : Text) (x : Node) where
  Rooted-insert_after : (l : List Node) → Rooted l → Rooted (insert_after k x l)
  unfolding insert_after
  Rooted-insert_after [] r = r
  Rooted-insert_after (n ∷ l) r = ground arith

  live-insert_after :
      (l : List Node)
      → Rooted l
      → any (keyed k) l ≡ true
      → live_count (behind_root (insert_after k x l))
        ≡ (if x.tombstoned then 0 else 1) + live_count (behind_root l)
  unfolding any insert_after
  live-insert_after [] r h = elim r [ ]
  live-insert_after (n ∷ l) r h =
      ground (arith, live_count-insert_after x k l, live_count-scan_insert x l)

  size-insert_after :
      (l : List Node)
      → Rooted l
      → any (keyed k) l ≡ true
      → length (behind_root (insert_after k x l)) ≡ suc (length (behind_root l))
  unfolding any insert_after
  size-insert_after [] r h = elim r [ ]
  size-insert_after (n ∷ l) r h = ground (arith, length-insert_after x k l, length-scan_insert x l)

module _ (k : Text) (f : Node → Node) where
  size-update_node :
      (l : List Node) → Rooted l → length (behind_root (update_node k f l)) ≡ length (behind_root l)
  unfolding update_node
  size-update_node [] r = elim r [ ]
  size-update_node (n ∷ l) r = ground (arith, length-update_node k f l)

Rooted-bury : (k : Text) (l : List Node) → k ≢ root_key → Rooted l → Rooted (update_node k bury l)
unfolding update_node
Rooted-bury k [] h r = elim r [ ]
Rooted-bury k (n ∷ l) h r = ground (arith, h, ===_iff (uid_key n.uid) k, ap uid_key r.0)

Rooted-restyle :
    (k : Text) (a : Dict Value) (l : List Node) → Rooted l → Rooted (update_node k (restyle a) l)
unfolding update_node
Rooted-restyle k a [] r = elim r [ ]
Rooted-restyle k a (n ∷ l) r = ground arith

live_count-bury :
    (k : Text) (l : List Node) {n : Node}
    → find (keyed k) l ≡ some n
    → n.tombstoned ≡ false
    → live_count l ≡ suc (live_count (update_node k bury l))
unfolding find update_node
live_count-bury k [] e h = ground arith
live_count-bury k (m ∷ l) {n} e h = ground (arith, live_count-bury k l {n = n})

-- The document that a delete shortens, with the root set aside.
live-bury :
    (k : Text) (l : List Node) {n : Node}
    → k ≢ root_key
    → Rooted l
    → find (keyed k) l ≡ some n
    → n.tombstoned ≡ false
    → live_count (behind_root l) ≡ suc (live_count (behind_root (update_node k bury l)))
unfolding find update_node
live-bury k [] ne r e h = elim r [ ]
live-bury k (m ∷ l) {n} ne r e h =
    ground (arith, ne, ===_iff (uid_key m.uid) k, ap uid_key r.0, live_count-bury k l {n = n})

live_count-restyle :
    (k : Text) (a : Dict Value) (l : List Node)
    → live_count (update_node k (restyle a) l) ≡ live_count l
unfolding update_node
live_count-restyle k a [] = refl
live_count-restyle k a (n ∷ l) = ground (arith, live_count-restyle k a l)

live-restyle :
    (k : Text) (a : Dict Value) (l : List Node)
    → live_count (behind_root (update_node k (restyle a) l)) ≡ live_count (behind_root l)
unfolding update_node
live-restyle k a [] = refl
live-restyle k a (n ∷ l) = ground (arith, live_count-restyle k a l)

module _ (d : Rga) (wf : IsWellFormed d) where
  insert-IsWellFormed : (x : InsertOperation) → IsWellFormed (after (insert x) d)
  unfolding apply_operation
  insert-IsWellFormed x = record {
    rooted =
        ground (arith, wf.rooted, Rooted-insert_after (after_key x.after) (new_node x) d.chain);
    indexed = λ k. ground (
      arith,
      wf.indexed k,
      wf.indexed (after_key x.after),
      any-insert_after k (new_node x) (after_key x.after) d.chain,
    );
    distinct = ground (
      arith,
      wf.distinct,
      wf.indexed (uid_key x.uid),
      wf.indexed (after_key x.after),
      Distinct-insert_after (new_node x) (after_key x.after) d.chain,
    );
    counted = ground (
      arith,
      wf.rooted,
      wf.counted,
      wf.indexed (after_key x.after),
      live-insert_after (after_key x.after) (new_node x) d.chain,
    );
    sized = ground (
      arith,
      wf.rooted,
      wf.sized,
      wf.indexed (after_key x.after),
      size-insert_after (after_key x.after) (new_node x) d.chain,
    );
  }

  delete-IsWellFormed : (u : Uid) → u ≢ root_uid → IsWellFormed (after (delete u) d)
  unfolding apply_operation
  delete-IsWellFormed u ne = record {
    rooted = ground (arith, wf.rooted, Rooted-bury (uid_key u) d.chain ne');
    indexed =
        λ k. ground (arith, wf.indexed k, any-update_node (uid_key u) bury bury-KeepsUid k d.chain);
    distinct =
        ground (arith, wf.distinct, Distinct-update_node (uid_key u) bury bury-KeepsUid d.chain);
    counted = elim (Option-cases (find (keyed (uid_key u)) d.chain)) [
      | inl missing ↦ ground (arith, wf.counted)
      | inr (n, found) ↦
          ground (arith, wf.counted, live-bury (uid_key u) d.chain {n = n} ne' wf.rooted found)
    ];
    sized = ground (arith, wf.rooted, wf.sized, size-update_node (uid_key u) bury d.chain);
  }
    where
      ne' : uid_key u ≢ root_key
      ne' e = ne (uid_key-injective u root_uid e)

  format-IsWellFormed : (f : FormatOperation) → IsWellFormed (after (format f) d)
  unfolding apply_operation
  format-IsWellFormed f = record {
    rooted = ground (arith, wf.rooted, Rooted-restyle (uid_key f.uid) f.attributes d.chain);
    indexed = λ k. ground (
      arith,
      wf.indexed k,
      any-update_node (uid_key f.uid) (restyle f.attributes) (restyle-KeepsUid f.attributes) k
          d.chain,
    );
    distinct = ground (
      arith,
      wf.distinct,
      Distinct-update_node (uid_key f.uid) (restyle f.attributes) (restyle-KeepsUid f.attributes)
          d.chain,
    );
    counted = ground (arith, wf.counted, live-restyle (uid_key f.uid) f.attributes d.chain);
    sized = ground (
      arith,
      wf.rooted,
      wf.sized,
      size-update_node (uid_key f.uid) (restyle f.attributes) d.chain,
    );
  }

-- The operation deletes no sentinel.
abbrev pub SparesRoot : Operation → Type 0
SparesRoot (delete u) = u ≢ root_uid
SparesRoot _ = Unit

-- An operation that does not delete the sentinel keeps the invariant, whether it can be applied or
-- not.
pub apply_operation-IsWellFormed :
    (op : Operation) (d : Rga)
    → SparesRoot op
    → IsWellFormed d
    → IsWellFormed (apply_operation op d).0
apply_operation-IsWellFormed (insert x) d h wf = insert-IsWellFormed d wf x
apply_operation-IsWellFormed (delete u) d h wf = delete-IsWellFormed d wf u h
apply_operation-IsWellFormed (format f) d h wf = format-IsWellFormed d wf f
apply_operation-IsWellFormed (rollback u) d h wf = unfold apply_operation in wf
