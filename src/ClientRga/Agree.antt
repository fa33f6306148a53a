-- ===== src/ClientRga/Agree.antt =====
-- The browser's replica against the server's.
use sync_engine.Base.{ℕ, ◌≤◌, ◌≡◌, sym, ◌∙◌, ap, List, arith, All, length}
use sync_engine.Op.{Uid, InsertOperation, Operation, insert, delete, format, rollback}
use sync_engine.Rga.{Rga, Node, behind_root, get_node, apply_operation}
use sync_engine.Rga.Invariant.{IsWellFormed}
use sync_engine.Rga.Invariant.Keeps.{SparesRoot, apply_operation-IsWellFormed}
use sync_engine.Rga.Stored.Roundtrip.{Rga-ext}
use sync_engine.ClientRga.{ClientRga, client_node, client_insert, client_delete, client_apply}

-- The document that the server would keep.
abbrev pub server_of : ClientRga → Rga
server_of d = record {
  chain = d.chain;
  index = d.index;
  doc_length = d.doc_length;
  node_count = length (behind_root d.chain);
}

-- The invariant of the browser's replica: that of the server's, and a clock that is behind none of
-- the nodes.
abbrev pub Clocked : ℕ → List Node → Type 0
Clocked c = All (λ n. n.uid.clock ≤ c)

abbrev pub IsClientWellFormed : ClientRga → Type 0
IsClientWellFormed d = IsWellFormed (server_of d) × Clocked d.clock d.chain

-- An operation that the browser's protocol knows: an insert or a delete.
abbrev pub IsEdit : Operation → Type 0
IsEdit (insert op) = Unit
IsEdit (delete uid) = Unit
IsEdit (format op) = ⊥
IsEdit (rollback uid) = ⊥

server_of-parts :
    (d : ClientRga) (e : Rga)
    → IsWellFormed e
    → d.chain ≡ e.chain
    → d.index ≡ e.index
    → d.doc_length ≡ e.doc_length
    → server_of d ≡ e
server_of-parts d e wf p q r =
    Rga-ext (server_of d) e p (λ k i. q i k) r (ap (λ l. length (behind_root l)) p ∙ sym wf.sized)

insert_parts :
    (x : InsertOperation) (d : ClientRga)
    → let e = (apply_operation (insert x) (server_of d)).0 in
      ((client_insert x d).chain ≡ e.chain)
      × ((client_insert x d).index ≡ e.index)
      × ((client_insert x d).doc_length ≡ e.doc_length)
unfolding client_insert apply_operation get_node client_node
insert_parts x d = ground arith

delete_parts :
    (u : Uid) (d : ClientRga)
    → let e = (apply_operation (delete u) (server_of d)).0 in
      ((client_delete u d).chain ≡ e.chain)
      × ((client_delete u d).index ≡ e.index)
      × ((client_delete u d).doc_length ≡ e.doc_length)
unfolding client_delete apply_operation get_node client_node
delete_parts u d = ground arith

-- On inserts and on deletes that spare the sentinel the browser's replica changes as the server's
-- document does, where it keeps the server's invariant.
pub client_apply_agrees :
    (op : Operation) (d : ClientRga)
    → IsEdit op
    → SparesRoot op
    → IsWellFormed (server_of d)
    → server_of (client_apply op d) ≡ (apply_operation op (server_of d)).0
unfolding client_apply
client_apply_agrees (insert x) d edit spares wf =
    let (p, q, r) = insert_parts x d in
    server_of-parts (client_insert x d) (apply_operation (insert x) (server_of d)).0
      (apply_operation-IsWellFormed (insert x) (server_of d) tt wf) p q r
client_apply_agrees (delete u) d edit spares wf =
    let (p, q, r) = delete_parts u d in
    server_of-parts (client_delete u d) (apply_operation (delete u) (server_of d)).0
      (apply_operation-IsWellFormed (delete u) (server_of d) spares wf) p q r
client_apply_agrees (format f) d edit spares wf = elim edit [ ]
client_apply_agrees (rollback u) d edit spares wf = elim edit [ ]
