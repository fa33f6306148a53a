-- ===== src/ClientRga/Deleting.antt =====
-- A local delete at a visible position of the browser's replica.
use sync_engine.Base.{
  ℕ, zero, suc, ◌+◌, ◌<◌, ◌≡◌, true, false, some, List, [], ◌∷◌, ◌++◌, arith, any, find, filter,
  length, take, drop, Bool-cases, inl, inr,
}
use sync_engine.Base.Text.{===_iff, ===_refl}
use sync_engine.Op.{Uid, uid_key}
use sync_engine.Rga.{Node, keyed, behind_root, update_node, bury}
use sync_engine.Rga.Read.Positions.{uid_at, uid_from-uid_at, uid_at-any}
use sync_engine.Rga.Invariant.{Distinct}
use sync_engine.ClientRga.{ClientRga, client_node, client_delete, client_index_to_uid, local_delete}
use sync_engine.ClientRga.Agree.{IsClientWellFormed}
use sync_engine.ClientRga.Editing.{visible, uid_at-some}

visible-bury :
    (i : ℕ) (u : Uid) (l : List Node)
    → Distinct l
    → uid_at i (visible l) ≡ some u
    → visible (update_node (uid_key u) bury l) ≡ take i (visible l) ++ drop (suc i) (visible l)
unfolding update_node filter
visible-bury i u [] d e = ground arith
visible-bury zero u (n ∷ l) d e = ground (
  arith,
  visible-bury zero u l d.1,
  uid_at-any zero u l,
  ===_iff (uid_key n.uid) (uid_key u),
  ===_refl (uid_key u),
)
visible-bury (suc i) u (n ∷ l) d e = ground (
  arith,
  visible-bury (suc i) u l d.1,
  visible-bury i u l d.1,
  uid_at-any i u l,
  uid_at-any (suc i) u l,
  ===_iff (uid_key n.uid) (uid_key u),
)

find-live :
    (i : ℕ) (u : Uid) (l : List Node)
    → Distinct l
    → uid_at i (visible l) ≡ some u
    → (n : Node) × (find (keyed (uid_key u)) l ≡ some n) × (n.tombstoned ≡ false)
unfolding find filter
find-live i u [] d e = absurd (ground arith)
find-live zero u (n ∷ l) d e = elim (Bool-cases n.tombstoned) [
  | inl dead ↦
      let (m, f, t) = find-live zero u l d.1 (ground (arith, dead, e)) in
      (
        m,
        ground (arith, f, dead, e, uid_at-any zero u l, ===_iff (uid_key n.uid) (uid_key u), d.0),
        t,
      )
  | inr live ↦ (n, ground (arith, live, e, ===_refl (uid_key n.uid)), live)
]
find-live (suc i) u (n ∷ l) d e = elim (Bool-cases n.tombstoned) [
  | inl dead ↦
      let (m, f, t) = find-live (suc i) u l d.1 (ground (arith, dead, e)) in
      (
        m,
        ground
            (arith, f, dead, e, uid_at-any (suc i) u l, ===_iff (uid_key n.uid) (uid_key u), d.0),
        t,
      )
  | inr live ↦
      let (m, f, t) = find-live i u l d.1 (ground (arith, live, e)) in
      (m, ground (arith, f, live, e, uid_at-any i u l, ===_iff (uid_key n.uid) (uid_key u), d.0), t)
]

-- Behind the sentinel: the node is found, alive, and only its position is emptied.
delete_at :
    (i : ℕ) (u : Uid) (l : List Node)
    → Distinct l
    → uid_at i (visible (behind_root l)) ≡ some u
    → (any (keyed (uid_key u)) l ≡ true)
      × ((n : Node) × (find (keyed (uid_key u)) l ≡ some n) × (n.tombstoned ≡ false))
      × (visible (behind_root (update_node (uid_key u) bury l))
          ≡ take i (visible (behind_root l)) ++ drop (suc i) (visible (behind_root l)))
unfolding find any update_node filter
delete_at i u [] d e = absurd (ground arith)
delete_at i u (r ∷ l) d e =
    let (n, f, t) = find-live i u l d.1 e in
    (
      ground (arith, uid_at-any i u l e),
      (n, ground (arith, f, uid_at-any i u l e, ===_iff (uid_key r.uid) (uid_key u), d.0), t),
      ground (
        arith,
        visible-bury i u l d.1 e,
        uid_at-any i u l e,
        ===_iff (uid_key r.uid) (uid_key u),
        d.0,
      ),
    )

-- Where a visible node stands at the position, a local delete answers its identifier and takes
-- exactly it out of the visible nodes.
pub local_delete_removes :
    (i : ℕ) (d : ClientRga)
    → IsClientWellFormed d
    → i < length (visible (behind_root d.chain))
    → ((local_delete i d).0 ≡ uid_at i (visible (behind_root d.chain)))
      × (visible (behind_root (local_delete i d).1.chain)
          ≡ take i (visible (behind_root d.chain)) ++ drop (suc i) (visible (behind_root d.chain)))
unfolding local_delete client_index_to_uid client_delete client_node
local_delete_removes i d wf h =
    let (u, e) = uid_at-some i (visible (behind_root d.chain)) h in
    let (there, (n, f, t), rest) = delete_at i u d.chain wf.0.distinct e in
    let at = uid_from-uid_at 0 (i + 1) i (behind_root d.chain) (omega arith) in
    (
      ground (arith, at, e, wf.0.indexed (uid_key u), there, f, t),
      ground (arith, at, e, wf.0.indexed (uid_key u), there, f, t, rest),
    )
