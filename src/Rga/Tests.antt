-- ===== src/Rga/Tests.antt =====
-- Runs of `RGADocument` on concrete operations, after tests/unit/crdt, and the theorems at them.
use mathlib.Core.List.{Perm}
use mathlib.Core.List.Perm
use Prim.Native.String.{String}
use sync_engine.Base.{
  true, ap, ◌+◌, ◌≡◌, refl, ◌≢◌, none, some, List, [], ◌∷◌, arith, find, any, filter,
}
use sync_engine.Base.Text.{Text, codes, ◌===◌, text_lt}
use sync_engine.Base.Dict.{get, put}
use sync_engine.Op.{
  pos, Uid, uid_key, decimal, root_uid, Value, str, InsertOperation, FormatOperation, Operation,
  insert, delete,
}
use sync_engine.Op.Order.{uid_gt}
use sync_engine.Rga.{
  Rga, empty_rga, behind_root, apply_insert, apply_operation, scan_insert, insert_after, keyed,
  update_node, root_node, increment,
}
use sync_engine.Rga.Commute.{after, apply_operation_comm}
use sync_engine.Rga.Converge.{run, Consistent, convergence}
use sync_engine.Rga.Duplicate.{duplicate_delivery}
use sync_engine.Rga.Invariant.{IsWellFormed}
use sync_engine.Rga.Invariant.Keeps.{empty_rga-IsWellFormed, apply_operation-IsWellFormed}
use sync_engine.Rga.Read.Positions.{uid_to_index-index_to_uid}
use sync_engine.Rga.Stored.{clone, gc}
use sync_engine.Rga.Stored.Roundtrip.{clone_lem}
use sync_engine.Rga.Stored.Gc.{gc_lem, insert_after_gc, insert_again_after_gc}
use sync_engine.Rga.Read.{to_text, to_nodes, index_to_uid, uid_to_index}

abbrev site_a : Text
site_a = codes "a"

abbrev site_b : Text
site_b = codes "b"

abbrev a1 : Uid
a1 = record { clock = 1; site_id = site_a }

abbrev a2 : Uid
a2 = record { clock = 2; site_id = site_a }

abbrev b1 : Uid
b1 = record { clock = 1; site_id = site_b }

abbrev char : String → Value
char s = str (codes s)

abbrev add_a : InsertOperation
add_a = record { uid = a1; after = none; value = char "A" }

abbrev add_b : InsertOperation
add_b = record { uid = b1; after = none; value = char "B" }

abbrev add_c : InsertOperation
add_c = record { uid = a2; after = some a1; value = char "b" }

abbrev order_1 : List Operation
order_1 = insert add_a ∷ insert add_c ∷ insert add_b ∷ delete a1 ∷ []

abbrev order_2 : List Operation
order_2 = insert add_b ∷ insert add_a ∷ delete a1 ∷ insert add_c ∷ []

program : Unit {0}
unfolding empty_rga apply_operation scan_insert insert_after update_node run to_text to_nodes
    index_to_uid uid_to_index uid_key decimal uid_gt text_lt find any filter ◌===◌ put get
program = tt

-- TC-05b of tests/unit/crdt/convergence.test.ts
text_1 : to_text (run order_1 empty_rga) ≡ codes "Bb"
unfolding program
text_1 = refl

text_2 : to_text (run order_2 empty_rga) ≡ codes "Bb"
unfolding program
text_2 = refl

apply_operation_comm_example :
    after (insert add_b) (after (insert add_a) empty_rga)
    ≡ after (insert add_a) (after (insert add_b) empty_rga)
unfolding program
apply_operation_comm_example =
    apply_operation_comm (insert add_a) (insert add_b) empty_rga (λ e. ground arith) refl refl

orders-perm : Perm order_1 order_2
orders-perm =
    Perm.trans
      (Perm.trans
        (Perm.cons (insert add_a) (Perm.swap (insert add_b) (insert add_c) (delete a1 ∷ [])))
        (Perm.swap (insert add_b) (insert add_a) (insert add_c ∷ delete a1 ∷ [])))
      (Perm.cons (insert add_b)
        (Perm.cons (insert add_a) (Perm.swap (delete a1) (insert add_c) [])))

orders-Consistent : Consistent order_1
orders-Consistent = ground arith

convergence_example : run order_1 empty_rga ≡ run order_2 empty_rga
unfolding program
convergence_example =
    convergence order_1 order_2 empty_rga orders-Consistent orders-perm
      (refl, (refl, (refl, (refl, tt)))) (refl, (refl, (refl, (refl, tt))))

duplicate_delivery_example :
    after (insert add_a) (run (delete a1 ∷ []) (after (insert add_a) empty_rga))
    ≡ run (delete a1 ∷ []) (after (insert add_a) empty_rga)
unfolding program
duplicate_delivery_example = duplicate_delivery (insert add_a) (delete a1 ∷ []) empty_rga tt refl

abbrev bold : String → FormatOperation
bold v = record { uid = a1; attributes = (codes "bold", char v) ∷ [] }

abbrev just_a : Rga
just_a = after (insert add_a) empty_rga

just_a-IsWellFormed : IsWellFormed just_a
just_a-IsWellFormed =
    apply_operation-IsWellFormed (insert add_a) empty_rga tt empty_rga-IsWellFormed

a1≢root : a1 ≢ root_uid
a1≢root e = absurd (omega (arith, ap (λ (u : Uid). u.clock) e))

-- "A" inserted and deleted, with "B" before it.
abbrev mixed : Rga
mixed = after (delete a1) (after (insert add_b) just_a)

apply_operation-IsWellFormed_example : IsWellFormed mixed
apply_operation-IsWellFormed_example =
    apply_operation-IsWellFormed (delete a1) (after (insert add_b) just_a) a1≢root
      (apply_operation-IsWellFormed (insert add_b) just_a tt just_a-IsWellFormed)

mixed-IsWellFormed : IsWellFormed mixed
mixed-IsWellFormed =
    apply_operation-IsWellFormed (delete a1) (after (insert add_b) just_a) a1≢root
      (apply_operation-IsWellFormed (insert add_b) just_a tt just_a-IsWellFormed)

clone_example : clone mixed ≡ record mixed { chain = root_node ∷ behind_root mixed.chain }
clone_example = clone_lem mixed mixed-IsWellFormed

gc_example :
    IsWellFormed (gc mixed).0
    × (behind_root (gc mixed).0.chain ≡ to_nodes mixed)
    × (to_nodes (gc mixed).0 ≡ to_nodes mixed)
    × (to_text (gc mixed).0 ≡ to_text mixed)
    × ((gc mixed).0.doc_length ≡ mixed.doc_length)
    × ((gc mixed).1 + (gc mixed).0.node_count ≡ mixed.node_count)
gc_example = gc_lem mixed mixed-IsWellFormed

insert_after_gc_example :
    ((e : Rga) × (apply_insert add_c mixed ≡ some e)) × (apply_insert add_c (gc mixed).0 ≡ none)
unfolding program
insert_after_gc_example = insert_after_gc mixed add_c mixed-IsWellFormed refl refl

insert_again_after_gc_example :
    (apply_insert add_a mixed ≡ some mixed)
    × ((e : Rga) × (apply_insert add_a (gc mixed).0 ≡ some e)
        × (any (keyed (uid_key add_a.uid)) (to_nodes e) ≡ true)
        × (e.doc_length ≡ increment mixed.doc_length))
unfolding program
insert_again_after_gc_example = insert_again_after_gc mixed add_a mixed-IsWellFormed refl refl refl

uid_to_index-index_to_uid_example : uid_to_index (some b1) mixed ≡ pos 0
unfolding program
uid_to_index-index_to_uid_example = uid_to_index-index_to_uid mixed 0 b1 mixed-IsWellFormed refl
