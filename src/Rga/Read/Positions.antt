-- ===== src/Rga/Read/Positions.antt =====
-- Positions in the visible text: the two queries against a list of the visible nodes.
use mathlib.Core.Option
use sync_engine.Base.{
  ℕ, zero, suc, ◌+◌, ◌≡◌, refl, sym, ◌∙◌, ap, true, not, Option, none, some, List, [], ◌∷◌, arith,
  any, filter, get_elem?, ==_iff, Bool-cases, inl, inr,
}
use sync_engine.Base.Text.{===_iff, ===_refl}
use sync_engine.Op.{pos, Uid, uid_key}
use sync_engine.Rga.{Rga, Node, keyed, behind_root}
use sync_engine.Rga.Read.{to_nodes, same_uid, index_from, uid_to_index, uid_from, index_to_uid}
use sync_engine.Rga.Invariant.{Distinct, IsWellFormed}

abbrev pub uid_at : ℕ → List Node → Option Uid
uid_at i l = Option.map (λ (n : Node). n.uid) (get_elem? l i)

pub uid_from-uid_at :
    (idx index i : ℕ) (l : List Node)
    → index ≡ idx + suc i
    → uid_from idx index l ≡ uid_at i (filter (λ n. not n.tombstoned) l)
unfolding uid_from filter
uid_from-uid_at idx index i [] h = refl
uid_from-uid_at idx index zero (n ∷ l) h = ground (arith, uid_from-uid_at idx index zero l)
uid_from-uid_at idx index (suc i) (n ∷ l) h =
    ground (arith, uid_from-uid_at idx index (suc i) l, uid_from-uid_at (idx + 1) index i l)

-- `indexToUID(0)` is null, and `indexToUID(i + 1)` is the identifier of the visible node number `i`,
-- counted from 0, or null where there are not so many.
pub index_to_uid_lem :
    (d : Rga)
    → (index_to_uid 0 d ≡ none) × ((i : ℕ) → index_to_uid (suc i) d ≡ uid_at i (to_nodes d))
unfolding index_to_uid to_nodes
index_to_uid_lem d = (refl, λ i. ground (arith, uid_from-uid_at 0 (suc i) i (behind_root d.chain)))

same_uid→eq : (u : Uid) (n : Node) → same_uid n.uid u ≡ true → n.uid ≡ u
same_uid→eq u n h = ground (arith, ===_iff n.uid.site_id u.site_id, ==_iff n.uid.clock u.clock)

same_uid_refl : (u : Uid) → same_uid u u ≡ true
same_uid_refl u = ground (arith, ===_refl u.site_id)

pub uid_at-any :
    (i : ℕ) (u : Uid) (l : List Node)
    → uid_at i (filter (λ n. not n.tombstoned) l) ≡ some u
    → any (keyed (uid_key u)) l ≡ true
unfolding filter any
uid_at-any i u [] h = ground arith
uid_at-any zero u (n ∷ l) h = ground (arith, uid_at-any zero u l, ===_refl (uid_key n.uid))
uid_at-any (suc i) u (n ∷ l) h = ground (arith, uid_at-any (suc i) u l, uid_at-any i u l)

index_from-uid_at :
    (idx i : ℕ) (u : Uid) (l : List Node)
    → Distinct l
    → uid_at i (filter (λ n. not n.tombstoned) l) ≡ some u
    → index_from idx u l ≡ pos (idx + i)
unfolding index_from filter
index_from-uid_at idx i u [] d h = ground arith
index_from-uid_at idx zero u (n ∷ l) d h = elim (Bool-cases n.tombstoned) [
  | inl dead ↦ rw dead (index_from-uid_at idx zero u l d.1 (ground arith))
  | inr live ↦ ground (arith, same_uid_refl n.uid)
]
index_from-uid_at idx (suc i) u (n ∷ l) d h = elim (Bool-cases n.tombstoned) [
  | inl dead ↦ rw dead (index_from-uid_at idx (suc i) u l d.1 (ground arith))
  | inr live ↦ ground (
    arith,
    index_from-uid_at (idx + 1) i u l d.1,
    uid_at-any i u l,
    same_uid→eq u n,
    ap uid_key,
    d.0,
  )
]

Distinct-behind_root : (l : List Node) → Distinct l → Distinct (behind_root l)
Distinct-behind_root [] h = h
Distinct-behind_root (n ∷ l) h = h.1

-- In a well-formed document the index of the identifier at a position is that position: positions
-- handed to `indexToUID` count from 1, those that `uidToIndex` returns count from 0.
pub uid_to_index-index_to_uid :
    (d : Rga) (i : ℕ) (u : Uid)
    → IsWellFormed d
    → index_to_uid (suc i) d ≡ some u
    → uid_to_index (some u) d ≡ pos i
unfolding uid_to_index
uid_to_index-index_to_uid d i u wf h =
    index_from-uid_at 0 i u (behind_root d.chain) (Distinct-behind_root d.chain wf.distinct)
      (unfold to_nodes in sym ((index_to_uid_lem d).1 i) ∙ h)
    ∙ ground arith
