-- ===== src/ClientRga/Tests.antt =====
-- Local edits of the browser's replica on concrete documents, and the theorems at them.
use sync_engine.Base.{some, false, ◌≡◌, refl, [], ◌∷◌, filter, any, find, arith}
use sync_engine.Base.Text.{codes, ◌===◌, text_lt}
use sync_engine.Op.{pos, str, uid_key, decimal, insert}
use sync_engine.Rga.{
  Node, root_node, keyed, new_node, behind_root, apply_operation, scan_insert, insert_after,
  update_node,
}
use sync_engine.Rga.Read.{text_of, uid_from}
use sync_engine.Rga.Invariant.{IsWellFormed}
use sync_engine.ClientRga.{
  ClientRga, empty_client, client_apply, client_text, local_operation, local_insert, local_delete,
}
use sync_engine.ClientRga.Agree.{server_of, client_apply_agrees, IsClientWellFormed}
use sync_engine.ClientRga.Diff.{diff_to_operations, code_points}
use sync_engine.ClientRga.Diff.Kept.{contents}
use sync_engine.ClientRga.Diff.Correct.{diff_to_operations_lem}
use sync_engine.ClientRga.Deleting.{local_delete_removes}
use sync_engine.ClientRga.Editing.{visible, local_insert_splices}

abbrev fresh : ClientRga
fresh = empty_client (codes "a") 0

abbrev typed_h : ClientRga
typed_h = (local_insert 0 (codes "h") fresh).1

typing_run :
    let d = (local_insert 1 (codes "i") typed_h).1 in
    (client_text d ≡ codes "hi") × (client_text (local_delete 0 d).1 ≡ codes "i")
unfolding local_insert local_delete client_text empty_client ◌===◌ uid_key decimal text_lt
    scan_insert insert_after find text_of uid_from update_node
typing_run = (refl, refl)

fresh-IsWellFormed : IsWellFormed (server_of fresh)
unfolding empty_client any
fresh-IsWellFormed = record {
  rooted = (refl, refl);
  indexed = λ k. ground arith;
  distinct = (refl, tt);
  counted = refl;
  sized = refl;
}

client_apply_agrees_example :
    server_of (client_apply (insert (local_operation 0 (codes "h") fresh)) fresh)
    ≡ (apply_operation (insert (local_operation 0 (codes "h") fresh)) (server_of fresh)).0
client_apply_agrees_example =
    client_apply_agrees (insert (local_operation 0 (codes "h") fresh)) fresh tt tt
      fresh-IsWellFormed

local_insert_splices_example :
    visible (behind_root (local_insert 0 (codes "h") fresh).1.chain)
    ≡ new_node (local_insert 0 (codes "h") fresh).0 ∷ []
unfolding empty_client filter
local_insert_splices_example =
    local_insert_splices 0 (codes "h") fresh (fresh-IsWellFormed, (omega arith, tt)) (omega arith)

abbrev letter : Node
letter = record {
  uid = record { clock = 1; site_id = codes "a" };
  value = str (codes "h");
  attributes = [];
  tombstoned = false;
}

abbrev one_letter : ClientRga
one_letter = record {
  chain = root_node ∷ letter ∷ [];
  index = λ k. any (keyed k) (root_node ∷ letter ∷ []);
  site_id = codes "a";
  clock = 1;
  doc_length = pos 1;
}

one_letter-IsWellFormed : IsWellFormed (server_of one_letter)
unfolding any ◌===◌ uid_key decimal
one_letter-IsWellFormed = record {
  rooted = (refl, refl);
  indexed = λ k. refl;
  distinct = (refl, (refl, tt));
  counted = refl;
  sized = refl;
}

local_delete_removes_example :
    ((local_delete 0 one_letter).0 ≡ some letter.uid)
    × (visible (behind_root (local_delete 0 one_letter).1.chain) ≡ [])
unfolding filter
local_delete_removes_example =
    local_delete_removes 0 one_letter (one_letter-IsWellFormed, (omega arith, (omega arith, tt)))
      (omega arith)

diff_to_operations_lem_example :
    let d' = (diff_to_operations (codes "h") (codes "oh") one_letter).1 in
    IsClientWellFormed d' × (contents d' ≡ code_points (codes "oh")) × (client_text d' ≡ codes "oh")
unfolding filter code_points
diff_to_operations_lem_example =
    diff_to_operations_lem (codes "h") (codes "oh") one_letter
      (one_letter-IsWellFormed, (omega arith, (omega arith, tt))) refl
