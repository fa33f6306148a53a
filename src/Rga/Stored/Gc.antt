-- ===== src/Rga/Stored/Gc.antt =====
-- What the collection of tombstones keeps, and what it breaks.
use sync_engine.Base.{
  ℕ, ◌+◌, ◌-◌, ◌≤◌, ◌≡◌, refl, sym, subst, ap, ◌∙◌, Bool, true, false, not, ◌&&◌, none, some, List,
  [], ◌∷◌, ◌++◌, any, filter, length, arith, if◌then◌else◌,
}
use sync_engine.Base.Text.{Text, ===_iff, ===_refl}
use sync_engine.Op.{pos, uid_key, InsertOperation}
use sync_engine.Rga.{
  Rga, Node, keyed, delete_key, behind_root, increment, after_key, grown, apply_insert, scan_insert,
  insert_after, new_node,
}
use sync_engine.Rga.Read.{to_nodes, text_of, to_text}
use sync_engine.Rga.Invariant.{live_count, Rooted, Distinct, IsWellFormed, find-any}
use sync_engine.Rga.Stored.{gc_from, root_of, gc}

abbrev pub alive : List Node → List Node
alive l = filter (λ n. not n.tombstoned) l

-- The keys of the tombstoned nodes.
abbrev pub buried : Text → List Node → Bool
buried k l = any (λ n. n.tombstoned && keyed k n) l

module _ where
  gc_from-kept :
      (l : List Node) (index : Text → Bool) (count removed : ℕ)
      → (gc_from l index count removed).0 ≡ alive l
  unfolding gc_from filter
  gc_from-kept [] index count removed = refl
  gc_from-kept (n ∷ l) index count removed = ground (
    arith,
    gc_from-kept l (if n.tombstoned then delete_key (uid_key n.uid) index else index)
        (if n.tombstoned then count - 1 else count) (if n.tombstoned then removed + 1 else removed),
  )

  gc_from-index :
      (l : List Node) (index : Text → Bool) (count removed : ℕ) (k : Text)
      → (gc_from l index count removed).1 k ≡ (not (buried k l) && index k)
  unfolding gc_from any
  gc_from-index [] index count removed k = refl
  gc_from-index (n ∷ l) index count removed k = ground (
    arith,
    gc_from-index l (if n.tombstoned then delete_key (uid_key n.uid) index else index)
        (if n.tombstoned then count - 1 else count) (if n.tombstoned then removed + 1 else removed)
        k,
  )

  gc_from-count :
      (l : List Node) (index : Text → Bool) (count removed : ℕ)
      → length l ≤ count
      → (gc_from l index count removed).2 + length l ≡ count + length (alive l)
  unfolding gc_from filter
  gc_from-count [] index count removed h = omega arith
  gc_from-count (n ∷ l) index count removed h = ground (
    arith,
    gc_from-count l (if n.tombstoned then delete_key (uid_key n.uid) index else index)
        (if n.tombstoned then count - 1 else count) (if n.tombstoned then removed + 1 else removed),
  )

  gc_from-removed :
      (l : List Node) (index : Text → Bool) (count removed : ℕ)
      → (gc_from l index count removed).3 + length (alive l) ≡ removed + length l
  unfolding gc_from filter
  gc_from-removed [] index count removed = refl
  gc_from-removed (n ∷ l) index count removed = ground (
    arith,
    gc_from-removed l (if n.tombstoned then delete_key (uid_key n.uid) index else index)
        (if n.tombstoned then count - 1 else count) (if n.tombstoned then removed + 1 else removed),
  )

module _ (k : Text) where
  any-absent :
      (l : List Node)
      → any (keyed k) l ≡ false
      → (any (keyed k) (alive l) ≡ false) × (buried k l ≡ false)
  unfolding any filter
  any-absent [] h = (refl, refl)
  any-absent (n ∷ l) h = ground (arith, any-absent l)

  any-alive :
      (l : List Node) → Distinct l → any (keyed k) (alive l) ≡ (not (buried k l) && any (keyed k) l)
  unfolding any filter
  any-alive [] d = refl
  any-alive (n ∷ l) d = ground (arith, any-alive l, any-absent l, ===_iff (uid_key n.uid) k, d.0)

Distinct-alive : (l : List Node) → Distinct l → Distinct (alive l)
unfolding filter
Distinct-alive [] d = tt
Distinct-alive (n ∷ l) d = ground (arith, Distinct-alive l, any-absent (uid_key n.uid) l)

live_count-alive : (l : List Node) → live_count (alive l) ≡ live_count l
unfolding filter
live_count-alive [] = refl
live_count-alive (n ∷ l) = ground (arith, live_count-alive l)

pub length-alive : (l : List Node) → length (alive l) ≡ live_count l
unfolding filter
length-alive [] = refl
length-alive (n ∷ l) = ground (arith, length-alive l)

alive-alive : (l : List Node) → alive (alive l) ≡ alive l
unfolding filter
alive-alive [] = refl
alive-alive (n ∷ l) = ground (arith, alive-alive l)

text_of-alive : (l : List Node) → text_of (alive l) ≡ text_of l
unfolding filter text_of
text_of-alive [] = refl
text_of-alive (n ∷ l) = ground (arith, text_of-alive l)

any-root_of :
    (c : List Node) (k : Text)
    → Rooted c
    → Distinct c
    → any (keyed k) (root_of c ++ alive (behind_root c))
      ≡ (not (buried k (behind_root c)) && any (keyed k) c)
unfolding any
any-root_of [] k r d = elim r [ ]
any-root_of (n ∷ c) k r d =
    ground (arith, any-alive k c d.1, any-absent k c, ===_iff (uid_key n.uid) k, d.0)

Distinct-gc : (c : List Node) → Distinct c → Distinct (root_of c ++ alive (behind_root c))
Distinct-gc [] d = unfold filter in tt
Distinct-gc (n ∷ c) d = ((any-absent (uid_key n.uid) c d.0).0, Distinct-alive c d.1)

gc-chain :
    (c l : List Node) → Rooted c → Rooted (root_of c ++ l) × (behind_root (root_of c ++ l) ≡ l)
gc-chain [] l r = elim r [ ]
gc-chain (n ∷ c) l r = (r, refl)

module _ (d : Rga) (wf : IsWellFormed d) where
  open d use {chain, index, node_count}

  gc-behind : behind_root (gc d).0.chain ≡ alive (behind_root chain)
  unfolding gc
  gc-behind =
      (gc-chain chain (gc_from (behind_root chain) index node_count 0).0 wf.rooted).1
      ∙ gc_from-kept (behind_root chain) index node_count 0

  gc-chain_lem : (gc d).0.chain ≡ root_of chain ++ alive (behind_root chain)
  unfolding gc
  gc-chain_lem = ap (λ l. root_of chain ++ l) (gc_from-kept (behind_root chain) index node_count 0)

  pub gc-index : (k : Text) → (gc d).0.index k ≡ (not (buried k (behind_root chain)) && index k)
  unfolding gc
  gc-index k = gc_from-index (behind_root chain) index node_count 0 k

  gc-node_count : (gc d).0.node_count ≡ live_count (behind_root chain)
  unfolding gc
  gc-node_count = ground (
    arith,
    wf.sized,
    gc_from-count (behind_root chain) index node_count 0,
    length-alive (behind_root chain),
  )

  gc-IsWellFormed : IsWellFormed (gc d).0
  gc-IsWellFormed = record {
    rooted =
        subst Rooted (sym gc-chain_lem) (gc-chain chain (alive (behind_root chain)) wf.rooted).0;
    indexed = λ k.
        gc-index k
        ∙ ap (λ b. not (buried k (behind_root chain)) && b) (wf.indexed k)
        ∙ sym (any-root_of chain k wf.rooted wf.distinct)
        ∙ ap (any (keyed k)) (sym gc-chain_lem);
    distinct = subst Distinct (sym gc-chain_lem) (Distinct-gc chain wf.distinct);
    counted =
        unfold gc in
        wf.counted
        ∙ ap pos (sym (live_count-alive (behind_root chain)) ∙ ap live_count (sym gc-behind));
    sized = gc-node_count ∙ sym (length-alive (behind_root chain)) ∙ ap length (sym gc-behind);
  }

gc-removed :
    (d : Rga) → (gc d).1 + length (alive (behind_root d.chain)) ≡ length (behind_root d.chain)
unfolding gc
gc-removed d = gc_from-removed (behind_root d.chain) d.index d.node_count 0 ∙ omega arith

-- The collection keeps the invariant, the visible nodes, the text and the length; it removes all
-- tombstones, and returns how many nodes fewer there are.
pub gc_lem :
    (d : Rga)
    → IsWellFormed d
    → IsWellFormed (gc d).0
      × (behind_root (gc d).0.chain ≡ to_nodes d)
      × (to_nodes (gc d).0 ≡ to_nodes d)
      × (to_text (gc d).0 ≡ to_text d)
      × ((gc d).0.doc_length ≡ d.doc_length)
      × ((gc d).1 + (gc d).0.node_count ≡ d.node_count)
unfolding to_nodes to_text
gc_lem d wf = (
  gc-IsWellFormed d wf,
  gc-behind d wf,
  ap alive (gc-behind d wf) ∙ alive-alive (behind_root d.chain),
  ap text_of (gc-behind d wf) ∙ text_of-alive (behind_root d.chain),
  unfold gc in refl,
  ground (arith, gc-node_count d wf, wf.sized, gc-removed d, length-alive (behind_root d.chain)),
)

-- In a well-formed document a new insert is applied exactly if the index has its anchor.
pub apply_insert-anchored :
    (d : Rga) (x : InsertOperation)
    → IsWellFormed d
    → d.index (uid_key x.uid) ≡ false
    → apply_insert x d ≡ (if d.index (after_key x.after) then some (grown x d) else none)
unfolding apply_insert
apply_insert-anchored d x wf fresh =
    ground (arith, wf.indexed (after_key x.after), find-any (keyed (after_key x.after)) d.chain)

buried-any : (k : Text) (l : List Node) → buried k l ≡ true → any (keyed k) l ≡ true
unfolding any
buried-any k [] h = ground arith
buried-any k (n ∷ l) h = ground (arith, buried-any k l)

buried-index :
    (d : Rga) (k : Text) → IsWellFormed d → buried k (behind_root d.chain) ≡ true → d.index k ≡ true
buried-index d k wf h = wf.indexed k ∙ any-behind_root d.chain (buried-any k _ h)
  where
    any-behind_root :
        (l : List Node) → any (keyed k) (behind_root l) ≡ true → any (keyed k) l ≡ true
    any-behind_root [] e = e
    any-behind_root (n ∷ l) e = unfold any in ground arith

-- An insert behind a tombstone could be applied before the collection, and throws after it.
pub insert_after_gc :
    (d : Rga) (x : InsertOperation)
    → IsWellFormed d
    → d.index (uid_key x.uid) ≡ false
    → buried (after_key x.after) (behind_root d.chain) ≡ true
    → ((e : Rga) × (apply_insert x d ≡ some e)) × (apply_insert x (gc d).0 ≡ none)
insert_after_gc d x wf fresh dead =
    let collected = gc_lem d wf in
    (
      (
        grown x d,
        ground
            (arith, apply_insert-anchored d x wf fresh, buried-index d (after_key x.after) wf dead),
      ),
      ground (
        arith,
        apply_insert-anchored (gc d).0 x collected.0,
        gc-index d wf (uid_key x.uid),
        gc-index d wf (after_key x.after),
      ),
    )

module _ (k a : Text) (x : Node) (named : keyed k x ≡ true) (shown : x.tombstoned ≡ false) where
  any-scan_insert : (l : List Node) → any (keyed k) (alive (scan_insert x l)) ≡ true
  unfolding any filter scan_insert
  any-scan_insert [] = ground (arith, named, shown)
  any-scan_insert (n ∷ l) = ground (arith, named, shown, any-scan_insert l)

  any-insert_after :
      (l : List Node) → any (keyed a) l ≡ true → any (keyed k) (alive (insert_after a x l)) ≡ true
  unfolding any filter insert_after
  any-insert_after [] h = ground arith
  any-insert_after (n ∷ l) h = ground (arith, any-scan_insert l, any-insert_after l)

  any-insert_behind :
      (l : List Node)
      → any (keyed a) l ≡ true
      → any (keyed k) (alive (behind_root (insert_after a x l))) ≡ true
  unfolding any insert_after
  any-insert_behind [] h = ground arith
  any-insert_behind (n ∷ l) h = ground (arith, any-scan_insert l, any-insert_after l)

-- In a well-formed document whose node of the insert is a tombstone, and whose anchor of the insert
-- is in the index and no tombstone, a second delivery of the insert changes nothing before the
-- collection; after the collection it is applied, its character is among the visible nodes again,
-- and the length is one more.
pub insert_again_after_gc :
    (d : Rga) (x : InsertOperation)
    → IsWellFormed d
    → buried (uid_key x.uid) (behind_root d.chain) ≡ true
    → d.index (after_key x.after) ≡ true
    → buried (after_key x.after) (behind_root d.chain) ≡ false
    → (apply_insert x d ≡ some d)
      × ((e : Rga) × (apply_insert x (gc d).0 ≡ some e)
          × (any (keyed (uid_key x.uid)) (to_nodes e) ≡ true)
          × (e.doc_length ≡ increment d.doc_length))
insert_again_after_gc d x wf dead anchored kept =
    let collected = gc_lem d wf in
    (
      unfold apply_insert in ground (arith, buried-index d (uid_key x.uid) wf dead),
      (
        grown x (gc d).0,
        ground (
          arith,
          apply_insert-anchored (gc d).0 x collected.0,
          gc-index d wf (uid_key x.uid),
          gc-index d wf (after_key x.after),
        ),
        unfold to_nodes in
            any-insert_behind (uid_key x.uid) (after_key x.after) (new_node x)
              (===_refl (uid_key x.uid)) refl (gc d).0.chain
              (sym (collected.0.indexed (after_key x.after))
                ∙ ground (arith, gc-index d wf (after_key x.after))),
        ap increment collected.4,
      ),
    )
