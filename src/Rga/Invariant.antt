-- ===== src/Rga/Invariant.antt =====
-- The invariant of `RGADocument`: the index map holds exactly the keys of the list, no key stands
-- twice, the list starts at the sentinel, and the two counters are the counts that they stand for.
pub mod Keeps
use sync_engine.Base.{
  ℕ, suc, ◌+◌, ◌≡◌, refl, sym, subst, ◌∙◌, ap, ◌≢◌, Bool, true, false, ◌||◌, Option, none, some,
  List, [], ◌∷◌, arith, any, find, length, if◌then◌else◌, ◌⊎◌, inl, inr, Bool-cases,
}
use sync_engine.Base.Text.{Text, ◌===◌, ===_iff, ===_comm, ===_refl}
use sync_engine.Op.{
  ℤ, pos, Uid, uid_key, root_uid, InsertOperation, Operation, insert, delete, format, rollback,
}
use sync_engine.Op.Key.{uid_key-injective}
use sync_engine.Rga.{
  Rga, Node, empty_rga, root_key, root_node, keyed, behind_root, scan_insert, insert_after,
  update_node, after_key, new_node, get_node, apply_operation, bury, restyle, increment, decrement,
}
use sync_engine.Rga.Index.{KeepsUid, keyed-write, bury-KeepsUid, restyle-KeepsUid}
use sync_engine.Rga.Commute.{after}

abbrev pub live_count : List Node → ℕ
live_count [] = 0
live_count (n ∷ l) = (if n.tombstoned then 0 else 1) + live_count l

abbrev pub Distinct : List Node → Type 0
Distinct [] = Unit
Distinct (n ∷ l) = (any (keyed (uid_key n.uid)) l ≡ false) × Distinct l

abbrev pub Rooted : List Node → Type 0
Rooted [] = ⊥
Rooted (r ∷ l) = (r.uid ≡ root_uid) × (r.tombstoned ≡ false)

pub record IsWellFormed (d : Rga) : Type 0 where
  pub rooted : Rooted d.chain
  pub indexed : (k : Text) → d.index k ≡ any (keyed k) d.chain
  pub distinct : Distinct d.chain
  pub counted : d.doc_length ≡ pos (live_count (behind_root d.chain))
  pub sized : d.node_count ≡ length (behind_root d.chain)

pub find-any :
    (p : Node → Bool) (l : List Node)
    → ((any p l ≡ false) × (find p l ≡ none))
      ⊎ ((any p l ≡ true) × ((n : Node) × (find p l ≡ some n) × (p n ≡ true)))
unfolding find any
find-any p [] = inl (refl, refl)
find-any p (n ∷ l) = elim (Bool-cases (p n)) [
  | inl here ↦ inr (rw here refl, (n, rw here refl, here))
  | inr there ↦ elim (find-any p l) [
    | inl (a, f) ↦ inl (rw there a, rw there f)
    | inr (a, (m, f, q)) ↦ inr (rw there a, (m, rw there f, q))
  ]
]

module _ (j : Text) (x : Node) where
  any-scan_insert :
      (l : List Node) → any (keyed j) (scan_insert x l) ≡ (keyed j x || any (keyed j) l)
  unfolding any scan_insert
  any-scan_insert [] = refl
  any-scan_insert (n ∷ l) = ground (arith, any-scan_insert l)

  pub any-insert_after :
      (k : Text) (l : List Node)
      → any (keyed k) l ≡ true
      → any (keyed j) (insert_after k x l) ≡ (keyed j x || any (keyed j) l)
  unfolding any insert_after
  any-insert_after k [] h = ground arith
  any-insert_after k (n ∷ l) h = ground (arith, any-insert_after k l, any-scan_insert l)

module _ (x : Node) where
  Distinct-scan_insert :
      (l : List Node)
      → any (keyed (uid_key x.uid)) l ≡ false
      → Distinct l
      → Distinct (scan_insert x l)
  unfolding any scan_insert
  Distinct-scan_insert [] h d = (refl, tt)
  Distinct-scan_insert (n ∷ l) h d = ground (
    arith,
    Distinct-scan_insert l,
    any-scan_insert (uid_key n.uid) x l,
    ===_comm (uid_key x.uid) (uid_key n.uid),
  )

  pub Distinct-insert_after :
      (k : Text) (l : List Node)
      → any (keyed (uid_key x.uid)) l ≡ false
      → Distinct l
      → any (keyed k) l ≡ true
      → Distinct (insert_after k x l)
  unfolding any insert_after
  Distinct-insert_after k [] h d m = tt
  Distinct-insert_after k (n ∷ l) h d m = ground (
    arith,
    Distinct-insert_after k l,
    Distinct-scan_insert l,
    any-scan_insert (uid_key n.uid) x l,
    any-insert_after (uid_key n.uid) x k l,
    ===_comm (uid_key x.uid) (uid_key n.uid),
  )

  pub live_count-scan_insert :
      (l : List Node)
      → live_count (scan_insert x l) ≡ (if x.tombstoned then 0 else 1) + live_count l
  unfolding scan_insert
  live_count-scan_insert [] = refl
  live_count-scan_insert (n ∷ l) = ground (arith, live_count-scan_insert l)

  pub live_count-insert_after :
      (k : Text) (l : List Node)
      → any (keyed k) l ≡ true
      → live_count (insert_after k x l) ≡ (if x.tombstoned then 0 else 1) + live_count l
  unfolding any insert_after
  live_count-insert_after k [] h = ground arith
  live_count-insert_after k (n ∷ l) h =
      ground (arith, live_count-insert_after k l, live_count-scan_insert l)

  pub length-scan_insert : (l : List Node) → length (scan_insert x l) ≡ suc (length l)
  unfolding scan_insert
  length-scan_insert [] = refl
  length-scan_insert (n ∷ l) = ground (arith, length-scan_insert l)

  pub length-insert_after :
      (k : Text) (l : List Node)
      → any (keyed k) l ≡ true
      → length (insert_after k x l) ≡ suc (length l)
  unfolding any insert_after
  length-insert_after k [] h = ground arith
  length-insert_after k (n ∷ l) h = ground (arith, length-insert_after k l, length-scan_insert l)

module _ (k : Text) (f : Node → Node) (keeps : KeepsUid f) where
  pub any-update_node :
      (j : Text) (l : List Node) → any (keyed j) (update_node k f l) ≡ any (keyed j) l
  unfolding any update_node
  any-update_node j [] = refl
  any-update_node j (n ∷ l) = ground (arith, any-update_node j l, keyed-write k f keeps j n)

  pub Distinct-update_node : (l : List Node) → Distinct l → Distinct (update_node k f l)
  unfolding update_node
  Distinct-update_node [] d = tt
  Distinct-update_node (n ∷ l) d =
      ground (arith, Distinct-update_node l, any-update_node (uid_key n.uid) l, keeps n)

pub length-update_node :
    (k : Text) (f : Node → Node) (l : List Node) → length (update_node k f l) ≡ length l
unfolding update_node
length-update_node k f [] = refl
length-update_node k f (n ∷ l) = ground (arith, length-update_node k f l)
