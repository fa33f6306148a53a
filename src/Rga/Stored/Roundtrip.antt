-- ===== src/Rga/Stored/Roundtrip.antt =====
-- A snapshot's nodes give back the document.
use sync_engine.Base.{
  ℕ, zero, suc, ◌+◌, ◌≡◌, refl, sym, ap, ◌∙◌, Bool, true, false, ◌||◌, List, [], ◌∷◌, ◌++◌, map,
  any, length, arith, if◌then◌else◌, append_assoc, append-nil,
}
use sync_engine.Base.Text.{Text, ◌===◌}
use sync_engine.Op.{ℤ, pos, uid_key}
use sync_engine.Rga.{Rga, Node, empty_rga, root_key, root_node, keyed, behind_root, increment}
use sync_engine.Rga.Invariant.{live_count, Rooted, IsWellFormed}
use sync_engine.Rga.Stored.{
  serialize_node, serialize, append_node, append_nodes, deserialize, clone,
}

plus : ℤ → ℕ → ℤ
plus z zero = z
plus z (suc n) = plus (increment z) n

plus-pos : (m n : ℕ) → plus (pos m) n ≡ pos (m + n)
unfolding plus
plus-pos m zero = ground arith
plus-pos m (suc n) = plus-pos (suc m) n ∙ ground arith

plus-live :
    (t : Bool) (z : ℤ) (n : ℕ)
    → plus (if t then z else increment z) n ≡ plus z ((if t then 0 else 1) + n)
unfolding plus
plus-live true z n = ap (plus z) (let e : n ≡ 0 + n = omega arith in e)
plus-live false z n = ap (plus z) (let e : suc n ≡ 1 + n = omega arith in e)

pub Rga-ext :
    (d e : Rga)
    → d.chain ≡ e.chain
    → ((k : Text) → d.index k ≡ e.index k)
    → d.doc_length ≡ e.doc_length
    → d.node_count ≡ e.node_count
    → d ≡ e
Rga-ext d e p q r s =
    λ i. record { chain = p i; index = λ k. q k i; doc_length = r i; node_count = s i }

-- What the loop of `deserialize` leaves, over the nodes that `serialize` wrote.
append_nodes-serialized :
    (l : List Node) (d : Rga)
    → append_nodes (map serialize_node l) d ≡ record {
      chain = d.chain ++ l;
      index = λ k. any (keyed k) l || d.index k;
      doc_length = plus d.doc_length (live_count l);
      node_count = d.node_count + length l;
    }
unfolding append_nodes any plus
append_nodes-serialized [] d = Rga-ext _ _ (sym (append-nil _)) (λ k. refl) refl (omega arith)
append_nodes-serialized (n ∷ l) d =
    append_nodes-serialized l (append_node (serialize_node n) d)
    ∙ Rga-ext _ _ (append_assoc d.chain (n ∷ []) l) (λ k. ground arith)
        (plus-live n.tombstoned d.doc_length (live_count l)) (omega arith)

index_kept :
    (l : List Node) (k : Text)
    → Rooted l
    → (any (keyed k) (behind_root l) || root_key === k) ≡ any (keyed k) l
unfolding any
index_kept [] k r = elim r [ ]
index_kept (n ∷ l) k r = ground (arith, ap uid_key r.0)

-- The copy of a well-formed document has its nodes, its index and its counters; only the
-- attributes that a format may have given to the sentinel are not copied.
pub clone_lem :
    (d : Rga) → IsWellFormed d → clone d ≡ record d { chain = root_node ∷ behind_root d.chain }
unfolding clone serialize deserialize empty_rga
clone_lem d wf =
    append_nodes-serialized (behind_root d.chain) empty_rga
    ∙ Rga-ext _ _ refl (λ k. index_kept d.chain k wf.rooted ∙ sym (wf.indexed k))
        (plus-pos 0 (live_count (behind_root d.chain)) ∙ ground (arith, wf.counted))
        (ground (arith, wf.sized))
