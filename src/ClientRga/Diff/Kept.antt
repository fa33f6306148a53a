-- ===== src/ClientRga/Diff/Kept.antt =====
-- Local edits keep the invariant of the browser's replica, and what they do to its characters.
use sync_engine.Base.{
  ℕ, suc, ◌+◌, ◌≤◌, ◌<◌, ◌≡◌, ◌≢◌, refl, sym, subst, ◌∙◌, ap, inl, inr, none, some, List, [], ◌∷◌,
  ◌++◌, map, arith, length, take, drop, Option-cases,
}
use sync_engine.Base.Slices.{map-take, map-drop, map-append, length-map}
use sync_engine.Base.Text.{Text}
use sync_engine.Op.{Uid, uid_key, InsertOperation, insert, delete, root_uid}
use sync_engine.Rga.{
  Node, behind_root, scan_insert, insert_after, update_node, bury, after_key, new_node,
}
use sync_engine.Rga.Read.{string_of}
use sync_engine.Rga.Read.Positions.{uid_at, uid_from-uid_at, uid_at-any}
use sync_engine.Rga.Invariant.{Distinct, Rooted, IsWellFormed}
use sync_engine.Rga.Invariant.Keeps.{apply_operation-IsWellFormed}
use sync_engine.ClientRga.{
  ClientRga, client_insert, client_delete, client_apply, client_index_to_uid, local_operation,
  local_insert, local_delete,
}
use sync_engine.ClientRga.Agree.{Clocked, IsClientWellFormed, server_of, client_apply_agrees}
use sync_engine.ClientRga.Editing.{visible, local_insert_splices}
use sync_engine.ClientRga.Deleting.{local_delete_removes}

-- The characters of the visible nodes.
abbrev pub contents : ClientRga → List Text
contents d = map (λ n. string_of n.value) (visible (behind_root d.chain))

Clocked-le : (b c : ℕ) (l : List Node) → b ≤ c → Clocked b l → Clocked c l
Clocked-le b c [] h k = tt
Clocked-le b c (n ∷ l) h k = (omega (arith, h, k.0), Clocked-le b c l h k.1)

Clocked-scan_insert :
    (c : ℕ) (x : Node) (l : List Node) → x.uid.clock ≤ c → Clocked c l → Clocked c (scan_insert x l)
unfolding scan_insert
Clocked-scan_insert c x [] h k = (h, tt)
Clocked-scan_insert c x (n ∷ l) h k = ground (arith, h, k, Clocked-scan_insert c x l h k.1)

Clocked-insert_after :
    (c : ℕ) (key : Text) (x : Node) (l : List Node)
    → x.uid.clock ≤ c
    → Clocked c l
    → Clocked c (insert_after key x l)
unfolding insert_after
Clocked-insert_after c key x [] h k = tt
Clocked-insert_after c key x (n ∷ l) h k =
    ground (arith, h, k, Clocked-insert_after c key x l h k.1, Clocked-scan_insert c x l h k.1)

Clocked-bury :
    (c : ℕ) (key : Text) (l : List Node) → Clocked c l → Clocked c (update_node key bury l)
unfolding update_node
Clocked-bury c key [] k = tt
Clocked-bury c key (n ∷ l) k = ground (arith, k, Clocked-bury c key l k.1)

client_insert-Clocked :
    (x : InsertOperation) (d : ClientRga)
    → x.uid.clock ≤ d.clock
    → Clocked d.clock d.chain
    → Clocked (client_insert x d).clock (client_insert x d).chain
unfolding client_insert
client_insert-Clocked x d h k =
    ground (arith, h, k, Clocked-insert_after d.clock (after_key x.after) (new_node x) d.chain h k)

client_delete-Clocked :
    (u : Uid) (d : ClientRga)
    → Clocked d.clock d.chain
    → Clocked (client_delete u d).clock (client_delete u d).chain
unfolding client_delete
client_delete-Clocked u d k = ground (arith, k, Clocked-bury d.clock (uid_key u) d.chain k)

pub local_insert-IsClientWellFormed :
    (i : ℕ) (char : Text) (d : ClientRga)
    → IsClientWellFormed d
    → IsClientWellFormed (local_insert i char d).1
unfolding local_insert client_apply
local_insert-IsClientWellFormed i char d wf =
    let op = local_operation i char d in
    let ticked = record d { clock = d.clock + 1 } in
    (
      subst IsWellFormed (sym (client_apply_agrees (insert op) ticked tt tt wf.0))
          (apply_operation-IsWellFormed (insert op) (server_of d) tt wf.0),
      client_insert-Clocked op ticked (omega arith)
          (Clocked-le d.clock (d.clock + 1) d.chain (omega arith) wf.1),
    )

-- A visible node is not the sentinel.
visible-ne-root :
    (i : ℕ) (u : Uid) (l : List Node)
    → Distinct l
    → Rooted l
    → uid_at i (visible (behind_root l)) ≡ some u
    → u ≢ root_uid
visible-ne-root i u [] d r h same = r
visible-ne-root i u (n ∷ l) d r h same =
    ground (arith, d.0, r.0, same, uid_at-any i u l h, ap uid_key)

client_delete-IsClientWellFormed :
    (u : Uid) (d : ClientRga)
    → u ≢ root_uid
    → IsClientWellFormed d
    → IsClientWellFormed (client_delete u d)
unfolding client_apply
client_delete-IsClientWellFormed u d spares wf = (
  subst IsWellFormed (sym (client_apply_agrees (delete u) d tt spares wf.0))
      (apply_operation-IsWellFormed (delete u) (server_of d) spares wf.0),
  client_delete-Clocked u d wf.1,
)

local_delete_absent :
    (i : ℕ) (d : ClientRga)
    → uid_at i (visible (behind_root d.chain)) ≡ none
    → (local_delete i d).1 ≡ d
unfolding local_delete client_index_to_uid
local_delete_absent i d e =
    ground (arith, e, uid_from-uid_at 0 (i + 1) i (behind_root d.chain) (omega arith))

local_delete_present :
    (i : ℕ) (d : ClientRga) (u : Uid)
    → uid_at i (visible (behind_root d.chain)) ≡ some u
    → (local_delete i d).1 ≡ client_delete u d
unfolding local_delete client_index_to_uid
local_delete_present i d u e =
    ground (arith, e, uid_from-uid_at 0 (i + 1) i (behind_root d.chain) (omega arith))

inserted_value :
    (i : ℕ) (char : Text) (d : ClientRga)
    → string_of (new_node (local_insert i char d).0).value ≡ char
unfolding local_insert
inserted_value i char d = refl

pub local_delete-IsClientWellFormed :
    (i : ℕ) (d : ClientRga) → IsClientWellFormed d → IsClientWellFormed (local_delete i d).1
local_delete-IsClientWellFormed i d wf =
    elim (Option-cases (uid_at i (visible (behind_root d.chain)))) [
      | inl absent ↦ subst IsClientWellFormed (sym (local_delete_absent i d absent)) wf
      | inr (u, e) ↦ subst IsClientWellFormed (sym (local_delete_present i d u e)) (
          client_delete-IsClientWellFormed u d
            (visible-ne-root i u d.chain wf.0.distinct wf.0.rooted e) wf)
    ]

pub local_insert-contents :
    (i : ℕ) (char : Text) (d : ClientRga)
    → IsClientWellFormed d
    → i ≤ length (contents d)
    → contents (local_insert i char d).1 ≡ take i (contents d) ++ char ∷ drop i (contents d)
local_insert-contents i char d wf h =
    let shown = visible (behind_root d.chain) in
    let value = λ (n : Node). string_of n.value in
    let x = new_node (local_insert i char d).0 in
    ap (map value) (local_insert_splices i char d wf (omega (arith, h, length-map value shown)))
    ∙ map-append value (take i shown) (x ∷ drop i shown)
    ∙ ground (arith, map-take value i shown, map-drop value i shown, inserted_value i char d)

pub local_delete-contents :
    (i : ℕ) (d : ClientRga)
    → IsClientWellFormed d
    → i < length (contents d)
    → contents (local_delete i d).1 ≡ take i (contents d) ++ drop (suc i) (contents d)
local_delete-contents i d wf h =
    let shown = visible (behind_root d.chain) in
    let value = λ (n : Node). string_of n.value in
    ap (map value) (local_delete_removes i d wf (omega (arith, h, length-map value shown))).1
    ∙ map-append value (take i shown) (drop (suc i) shown)
    ∙ ground (arith, map-take value i shown, map-drop value (suc i) shown)
