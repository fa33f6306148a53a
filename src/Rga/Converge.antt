-- ===== src/Rga/Converge.antt =====
-- Strong eventual consistency: one set of operations, in any two causally valid orders.
use mathlib.Core.List.{
  Mem, Perm, append_of_mem, mem-append, perm_inv_core, mem-cons_self, mem-cons_of_mem, mem-cons,
  not-mem-nil,
}
use mathlib.Core.List.Perm
use mathlib.Core.Logic.Or
use mathlib.Core.Logic.{∥∥₁_elim}
use sync_engine.Base.{◌≡◌, refl, sym, subst, ◌∙◌, ap, List, [], ◌∷◌, ◌++◌, arith, All}
use sync_engine.Base.Text.{===_iff}
use sync_engine.Op.{uid_key, Operation, insert, delete, format, rollback}
use sync_engine.Rga.{Rga, after_key, new_node, apply_operation, bury, restyle}
use sync_engine.Rga.Index.{find-insert_after_ne, find-update_node, bury-KeepsUid, restyle-KeepsUid}
use sync_engine.Rga.Commute.{Compatible, Succeeds, after, not_rollback, apply_operation_comm}

-- What could be applied before another operation can be applied after it.
pub Succeeds-after : (a b : Operation) (d : Rga) → Succeeds a d → Succeeds a (after b d)
unfolding apply_operation
Succeeds-after (insert x) (insert y) d h = ground (
  arith,
  ===_iff (uid_key y.uid) (after_key x.after),
  find-insert_after_ne (after_key x.after) (after_key y.after) (new_node y) d.chain,
)
Succeeds-after (insert x) (delete v) d h =
    ground (arith, find-update_node (uid_key v) bury bury-KeepsUid (after_key x.after) d.chain)
Succeeds-after (insert x) (format g) d h = ground (
  arith,
  find-update_node (uid_key g.uid) (restyle g.attributes) (restyle-KeepsUid g.attributes)
      (after_key x.after) d.chain,
)
Succeeds-after (delete u) (insert y) d h = ground (
  arith,
  ===_iff (uid_key y.uid) (uid_key u),
  find-insert_after_ne (uid_key u) (after_key y.after) (new_node y) d.chain,
)
Succeeds-after (delete u) (delete v) d h =
    ground (arith, find-update_node (uid_key v) bury bury-KeepsUid (uid_key u) d.chain)
Succeeds-after (delete u) (format g) d h = ground (
  arith,
  find-update_node (uid_key g.uid) (restyle g.attributes) (restyle-KeepsUid g.attributes)
      (uid_key u) d.chain,
)
Succeeds-after (format f) (insert y) d h = ground (
  arith,
  ===_iff (uid_key y.uid) (uid_key f.uid),
  find-insert_after_ne (uid_key f.uid) (after_key y.after) (new_node y) d.chain,
)
Succeeds-after (format f) (delete v) d h =
    ground (arith, find-update_node (uid_key v) bury bury-KeepsUid (uid_key f.uid) d.chain)
Succeeds-after (format f) (format g) d h = ground (
  arith,
  find-update_node (uid_key g.uid) (restyle g.attributes) (restyle-KeepsUid g.attributes)
      (uid_key f.uid) d.chain,
)
Succeeds-after (rollback u) b d h = absurd (not_rollback u d h)
Succeeds-after (insert x) (rollback v) d h = h
Succeeds-after (delete u) (rollback v) d h = h
Succeeds-after (format f) (rollback v) d h = h

-- A replica applies the operations that it receives, in the order in which it receives them.
unfoldable pub run : List Operation → Rga → Rga
run [] d = d
run (a ∷ ops) d = run ops (after a d)

-- The order respects causality: each operation can be applied when it arrives.
abbrev pub AllSucceed : List Operation → Rga → Type 0
AllSucceed [] d = Unit
AllSucceed (a ∷ ops) d = Succeeds a d × AllSucceed ops (after a d)

-- No two of the operations contradict one another.
abbrev pub Consistent : List Operation → Type 0
Consistent ops = All (λ a. All (Compatible a) ops) ops

Compatible-prop : (a b : Operation) → IsProp (Compatible a b)
Compatible-prop (insert x) (insert y) = hlevel
Compatible-prop (format x) (format y) = hlevel
Compatible-prop _ _ = hlevel

-- An operation that could be applied first can be moved to the front.
pub move_front :
    (a : Operation) (s t : List Operation) (d : Rga)
    → ((b : Operation) → Mem b s → Compatible a b)
    → Succeeds a d
    → AllSucceed (s ++ a ∷ t) d
    → AllSucceed (s ++ t) (after a d) × (run (s ++ a ∷ t) d ≡ run (s ++ t) (after a d))
unfolding run
move_front a [] t d c h all = (all.1, refl)
move_front a (b ∷ s) t d c h all =
    let h' = Succeeds-after a b d h in
    let swapped = apply_operation_comm a b d (c b mem-cons_self) h all.0 in
    let (rest, e) = move_front a s t (after b d) (λ o m. c o (mem-cons_of_mem b m)) h' all.1 in
    (
      (Succeeds-after b a d all.0, subst (AllSucceed (s ++ t)) (sym swapped) rest),
      e ∙ ap (run (s ++ t)) (sym swapped),
    )

Rga-set : IsSet Rga
Rga-set = hlevel

All-mem :
    {P : Operation → Type 0} (prop : (a : Operation) → IsProp (P a)) (l : List Operation)
    → All P l
    → {a : Operation} → Mem a l
    → P a
All-mem prop [] h m = absurd (not-mem-nil m)
All-mem {P} prop (b ∷ l) h {a} m =
    Or.elim (prop a) (mem-cons.0 m) (λ e. subst P (sym e) h.0) (λ r. All-mem prop l h.1 r)

All-prop :
    {P : Operation → Type 0} (prop : (a : Operation) → IsProp (P a)) (l : List Operation)
    → IsProp (All P l)
All-prop prop [] = hlevel
All-prop prop (a ∷ l) = hlevel (prop a, All-prop prop l)

-- The operations of a list agree with one another.
unfoldable pub AgreeOn : List Operation → Type 0
AgreeOn xs = (a b : Operation) → Mem a xs → Mem b xs → Compatible a b

converge_from :
    (xs ys : List Operation) (d : Rga)
    → AgreeOn xs
    → Perm xs ys
    → AllSucceed xs d
    → AllSucceed ys d
    → run xs d ≡ run ys d
unfolding run AgreeOn
converge_from [] ys d c p hx hy = ap (λ l. run l d) (Perm.nil-eq p)
converge_from (a ∷ xs) ys d c p hx hy =
    ∥∥₁_elim (append_of_mem ((Perm.mem_iff p).0 mem-cons_self)) (Rga-set _ _) (λ split.
      let (s, t, e) = split in
      let p' : Perm (a ∷ xs) (s ++ a ∷ t) = subst (Perm (a ∷ xs)) e p in
      let (hy', moved) =
        move_front a s t d
          (λ b m. c a b mem-cons_self ((Perm.mem_iff p').1 (mem-append.1 (Or.inl m)))) hx.0
          (subst (λ l. AllSucceed l d) e hy) in
      converge_from xs (s ++ t) (after a d)
        (λ b o mb mo. c b o (mem-cons_of_mem a mb) (mem-cons_of_mem a mo))
        (perm_inv_core a [] s xs t p') hx.1 hy'
      ∙ sym moved
      ∙ ap (λ l. run l d) (sym e))

pub Consistent-AgreeOn : (xs : List Operation) → Consistent xs → AgreeOn xs
unfolding AgreeOn
Consistent-AgreeOn xs c a b ma mb =
    All-mem (Compatible-prop a) xs (All-mem (λ o. All-prop (Compatible-prop o) xs) xs c ma) mb

-- Two replicas that start from one document and receive the same operations, each in an order in
-- which every operation can be applied when it arrives, end in the same document, provided that
-- inserts of one identifier are equal and formats of one node set equal attributes.
pub convergence :
    (xs ys : List Operation) (d : Rga)
    → Consistent xs
    → Perm xs ys
    → AllSucceed xs d
    → AllSucceed ys d
    → run xs d ≡ run ys d
convergence xs ys d c = converge_from xs ys d (Consistent-AgreeOn xs c)
