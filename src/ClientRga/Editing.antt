-- ===== src/ClientRga/Editing.antt =====
-- A local insert at a visible position of the browser's replica.
use sync_engine.Base.{
  ℕ, zero, suc, ◌+◌, ◌≤◌, ◌<◌, ◌≡◌, refl, ap, true, false, not, none, some, List, [], ◌∷◌, ◌++◌,
  arith, any, filter, length, take, drop, Bool-cases, inl, inr,
}
use sync_engine.Base.Text.{Text, ===_iff, ===_refl}
use sync_engine.Op.{Uid, uid_key, InsertOperation, compare_uid}
use sync_engine.Op.Order.{uid_gt}
use sync_engine.Op.Key.{uid_key-injective}
use sync_engine.Rga.{
  Node, keyed, root_key, behind_root, scan_insert, insert_after, after_key, new_node,
}
use sync_engine.Rga.Read.Positions.{uid_at, uid_from-uid_at, uid_at-any}
use sync_engine.Rga.Invariant.{Distinct, Rooted, find-any}
use sync_engine.ClientRga.{
  ClientRga, client_node, client_insert, client_index_to_uid, client_after_uid, local_operation,
  local_insert,
}
use sync_engine.ClientRga.Agree.{Clocked, IsClientWellFormed}

-- The visible nodes in document order.
abbrev pub visible : List Node → List Node
visible l = filter (λ n. not n.tombstoned) l

-- A fresh node is ahead of all nodes, so the scan puts it at once.
scan_insert_fresh :
    (c : ℕ) (x : Node) (l : List Node) → Clocked c l → c < x.uid.clock → scan_insert x l ≡ x ∷ l
unfolding scan_insert uid_gt compare_uid
scan_insert_fresh c x [] h k = refl
scan_insert_fresh c x (n ∷ l) h k = ground arith

visible-insert_after :
    (c i : ℕ) (u : Uid) (x : Node) (l : List Node)
    → Distinct l
    → Clocked c l
    → c < x.uid.clock
    → x.tombstoned ≡ false
    → uid_at i (visible l) ≡ some u
    → visible (insert_after (uid_key u) x l)
      ≡ take (suc i) (visible l) ++ x ∷ drop (suc i) (visible l)
unfolding insert_after filter
visible-insert_after c i u x [] d h k t e = ground arith
visible-insert_after c zero u x (n ∷ l) d h k t e = ground (
  arith,
  visible-insert_after c zero u x l d.1 h.1 k t,
  scan_insert_fresh c x l h.1 k,
  uid_at-any zero u l,
  ===_iff (uid_key n.uid) (uid_key u),
)
visible-insert_after c (suc i) u x (n ∷ l) d h k t e = ground (
  arith,
  visible-insert_after c (suc i) u x l d.1 h.1 k t,
  visible-insert_after c i u x l d.1 h.1 k t,
  uid_at-any i u l,
  uid_at-any (suc i) u l,
  ===_iff (uid_key n.uid) (uid_key u),
)

any-Clocked :
    (c : ℕ) (u : Uid) (l : List Node)
    → Clocked c l
    → c < u.clock
    → any (keyed (uid_key u)) l ≡ false
unfolding any
any-Clocked c u [] h k = refl
any-Clocked c u (n ∷ l) h k = elim (Bool-cases (keyed (uid_key u) n)) [
  | inl same ↦
      let e = uid_key-injective n.uid u ((===_iff (uid_key n.uid) (uid_key u)).0 same) in
      absurd (ground (arith, e))
  | inr other ↦ ground (arith, any-Clocked c u l h.1 k)
]

pub uid_at-some : (i : ℕ) (l : List Node) → i < length l → (u : Uid) × (uid_at i l ≡ some u)
uid_at-some i [] h = absurd (ground arith)
uid_at-some zero (n ∷ l) h = (n.uid, refl)
uid_at-some (suc i) (n ∷ l) h = uid_at-some i l (ground arith)

-- Behind the sentinel, and behind the visible node number `i`.
splice_root :
    (c : ℕ) (x : Node) (l : List Node)
    → Rooted l
    → Clocked c l
    → c < x.uid.clock
    → x.tombstoned ≡ false
    → (any (keyed root_key) l ≡ true)
      × (visible (behind_root (insert_after root_key x l)) ≡ x ∷ visible (behind_root l))
unfolding insert_after any filter
splice_root c x [] r h k t = elim r [ ]
splice_root c x (n ∷ l) r h k t =
    ground (arith, r, scan_insert_fresh c x l h.1 k, ap uid_key r.0, ===_refl root_key, t)

splice_at :
    (c i : ℕ) (u : Uid) (x : Node) (l : List Node)
    → Distinct l
    → Clocked c l
    → c < x.uid.clock
    → x.tombstoned ≡ false
    → uid_at i (visible (behind_root l)) ≡ some u
    → (any (keyed (uid_key u)) l ≡ true)
      × (visible (behind_root (insert_after (uid_key u) x l))
          ≡ take (suc i) (visible (behind_root l)) ++ x ∷ drop (suc i) (visible (behind_root l)))
unfolding insert_after any filter
splice_at c i u x [] d h k t e = ground arith
splice_at c i u x (n ∷ l) d h k t e = ground (
  arith,
  visible-insert_after c i u x l d.1 h.1 k t e,
  uid_at-any i u l e,
  ===_iff (uid_key n.uid) (uid_key u),
  d.0,
)

client_insert-chain :
    (x : InsertOperation) (d : ClientRga)
    → ((k : Text) → d.index k ≡ any (keyed k) d.chain)
    → any (keyed (uid_key x.uid)) d.chain ≡ false
    → any (keyed (after_key x.after)) d.chain ≡ true
    → (client_insert x d).chain ≡ insert_after (after_key x.after) (new_node x) d.chain
unfolding client_insert client_node
client_insert-chain x d indexed fresh there = ground (
  arith,
  indexed (uid_key x.uid),
  indexed (after_key x.after),
  find-any (keyed (after_key x.after)) d.chain,
  fresh,
  there,
)

-- The replica while `localInsert` runs, its clock advanced.
abbrev ticked : ClientRga → ClientRga
ticked d = record d { clock = d.clock + 1 }

after_uid-zero : (d : ClientRga) → client_after_uid 0 d ≡ none
unfolding client_after_uid
after_uid-zero d = refl

after_uid-suc :
    (i : ℕ) (d : ClientRga) → client_after_uid (suc i) d ≡ uid_at i (visible (behind_root d.chain))
unfolding client_after_uid client_index_to_uid
after_uid-suc i d = ground (arith, uid_from-uid_at 0 (suc i) i (behind_root d.chain))

-- Where the position is within the visible text, a local insert puts its character exactly there:
-- the visible nodes before the position stay in front of it, the others behind it.
pub local_insert_splices :
    (i : ℕ) (char : Text) (d : ClientRga)
    → IsClientWellFormed d
    → i ≤ length (visible (behind_root d.chain))
    → visible (behind_root (local_insert i char d).1.chain)
      ≡ take i (visible (behind_root d.chain))
        ++ new_node (local_insert i char d).0 ∷ drop i (visible (behind_root d.chain))
unfolding local_insert
local_insert_splices zero char d wf h =
    let op = local_operation zero char d in
    let (there, shown) =
      splice_root d.clock (new_node op) d.chain wf.0.rooted wf.1 (omega arith) refl in
    ground (
      arith,
      after_uid-zero d,
      client_insert-chain op (ticked d) wf.0.indexed
          (any-Clocked d.clock op.uid d.chain wf.1 (omega arith)),
      there,
      shown,
    )
local_insert_splices (suc i) char d wf h =
    let (u, e) = uid_at-some i (visible (behind_root d.chain)) h in
    let op = local_operation (suc i) char d in
    let (there, shown) =
      splice_at d.clock i u (new_node op) d.chain wf.0.distinct wf.1 (omega arith) refl e in
    ground (
      arith,
      e,
      after_uid-suc i d,
      client_insert-chain op (ticked d) wf.0.indexed
          (any-Clocked d.clock op.uid d.chain wf.1 (omega arith)),
      there,
      shown,
    )
