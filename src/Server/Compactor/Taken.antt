-- ===== src/Server/Compactor/Taken.antt =====
-- The background snapshot of src/server/jobs/snapshot-compactor.ts: when it is taken and what the next
-- load finds.
use sync_engine.Base.{
  ℕ, suc, ◌<◌, ◌≡◌, ◌⊎◌, ◌∙◌, ap, refl, Bool, true, false, not, ◌&&◌, ◌||◌, some, List, [], ◌∷◌,
  ◌++◌, any, filter, length, get_elem?, ◌==◌, arith, Bool-cases, inl, inr,
}
use sync_engine.Base.Text.{Text, ◌===◌, ===_refl}
use sync_engine.Base.Dict.{get, get-put}
use sync_engine.Rga.{Rga}
use sync_engine.Rga.Invariant.{IsWellFormed}
use sync_engine.Rga.Read.{to_text, to_nodes}
use sync_engine.Rga.Stored.{serialize, deserialize, clone, gc}
use sync_engine.Rga.Stored.Gc.{gc_lem}
use sync_engine.Rga.Stored.Roundtrip.{clone_lem}
use sync_engine.Store.{Database, SnapshotRow, get_max_seq, or_zero}
use sync_engine.Store.Append.{SnapshotsCounted}
use sync_engine.Store.Restore.{clone-to_text}
use sync_engine.Store.Snapshots.{
  SnapshotRecord, save_snapshot, snapshot_row, row_to_record, newest, newest_first, insert_newest,
  load_latest_snapshot,
}
use sync_engine.Server.DocumentCache.{LruCache, CachedDocument, get_or_load_document}
use sync_engine.Server.Compactor.{
  SnapshotConfig, Compactor, kept_ids, prune_old_snapshots, is_due, take_snapshot,
  maybe_take_snapshot,
}

-- A row beyond all others of its document.
module _ (m : ℕ) (doc_id : Text) (x : SnapshotRow) (own : (x.doc_id === doc_id) ≡ true)
    (beyond : m < x.seq) where
  newest_last :
      (rows : List SnapshotRow)
      → SnapshotsCounted doc_id m rows
      → newest (filter (λ r. r.doc_id === doc_id) (rows ++ x ∷ [])) ≡ some x
  unfolding newest filter
  newest_last [] c = ground (arith, own)
  newest_last (r ∷ rows) c = ground (arith, newest_last rows c.1, beyond, c.0)

  newest_first_last :
      (rows : List SnapshotRow)
      → SnapshotsCounted doc_id m rows
      → newest_first (filter (λ r. r.doc_id === doc_id) (rows ++ x ∷ []))
        ≡ x ∷ newest_first (filter (λ r. r.doc_id === doc_id) rows)
  unfolding newest_first insert_newest filter
  newest_first_last [] c = ground (arith, own)
  newest_first_last (r ∷ rows) c = ground (arith, newest_first_last rows c.1, beyond, c.0)

SnapshotsCounted-filter :
    (m : ℕ) (doc_id : Text) (p : SnapshotRow → Bool) (rows : List SnapshotRow)
    → SnapshotsCounted doc_id m rows
    → SnapshotsCounted doc_id m (filter p rows)
unfolding filter
SnapshotsCounted-filter m doc_id p [] c = tt
SnapshotsCounted-filter m doc_id p (r ∷ rows) c =
    ground (arith, c.0, SnapshotsCounted-filter m doc_id p rows c.1)

filter_last :
    (p : SnapshotRow → Bool) (x : SnapshotRow) (rows : List SnapshotRow)
    → p x ≡ true
    → filter p (rows ++ x ∷ []) ≡ filter p rows ++ x ∷ []
unfolding filter
filter_last p x [] h = ground (arith, h)
filter_last p x (r ∷ rows) h = ground (arith, filter_last p x rows h)

-- Pruning keeps the newest row.
newest_kept :
    (m : ℕ) (doc_id : Text) (x : SnapshotRow) (rows : List SnapshotRow) (db : Database)
    → db.snapshots ≡ rows ++ x ∷ []
    → (x.doc_id === doc_id) ≡ true
    → m < x.seq
    → SnapshotsCounted doc_id m rows
    → load_latest_snapshot doc_id (prune_old_snapshots doc_id db) ≡ some (row_to_record x)
unfolding load_latest_snapshot prune_old_snapshots any
newest_kept m doc_id x rows db e own beyond c =
    let p = λ (r : SnapshotRow).
      not (r.doc_id === doc_id) || any (λ s. s.id === r.id) (kept_ids doc_id db) in
    let kept : p x ≡ true =
      ground (arith, e, newest_first_last m doc_id x own beyond rows c, ===_refl x.id) in
    ground (
      arith,
      e,
      filter_last p x rows kept,
      newest_last m doc_id x own beyond (filter p rows) (SnapshotsCounted-filter m doc_id p rows c),
    )

no_row :
    (m : ℕ) (doc_id : Text) (rows : List SnapshotRow)
    → SnapshotsCounted doc_id m rows
    → any (λ r. r.doc_id === doc_id && r.seq == suc m) rows ≡ false
unfolding any
no_row m doc_id [] c = refl
no_row m doc_id (r ∷ rows) c = ground (arith, c.0, no_row m doc_id rows c.1)

-- The document that a load makes of the nodes that were saved after the collection.
collected_text : (d : Rga) → IsWellFormed d → to_text (deserialize (serialize (gc d).0)) ≡ to_text d
collected_text d wf =
    let (wf', chain, nodes, text, len, removed) = gc_lem d wf in
    unfold clone in clone-to_text (gc d).0 wf' ∙ text

collected_size :
    (d : Rga) → IsWellFormed d → (deserialize (serialize (gc d).0)).node_count ≡ length (to_nodes d)
collected_size d wf =
    let (wf', chain, nodes, text, len, removed) = gc_lem d wf in
    unfold clone in
    ap (λ (r : Rga). r.node_count) (clone_lem (gc d).0 wf') ∙ wf'.sized ∙ ap length chain

module _ (L : LruCache) (sha256 : Text → Text) (config : SnapshotConfig) (doc_id : Text) (now : ℕ)
    (id created_at : Text) (k : Compactor L sha256 config) where
  -- What a snapshot of `d` under the greatest number leaves.
  abbrev pub Taken : Rga → Compactor L sha256 config → Type 0
  Taken d k' =
      (s : SnapshotRecord) × (load_latest_snapshot doc_id k'.db ≡ some s)
      × (s.seq ≡ get_max_seq doc_id k.db)
      × (to_text (deserialize s.nodes) ≡ to_text d)
      × ((deserialize s.nodes).node_count ≡ length (to_nodes d))
      × (get doc_id k'.last_snapshot_time ≡ some now)
      × (k'.db.operations ≡ k.db.operations)

  -- Where the document that the cache gives is well-formed, its greatest number is not zero and beyond all
  -- snapshots of the document, and the document exists: the background snapshot is taken exactly if it
  -- is due. If it is not, the tables are as before. If it is, the latest snapshot, which pruning keeps,
  -- has the greatest number and loads as a document with the same text and with no more nodes than the
  -- visible ones; the time is noted, and the operations are as before.
  pub maybe_take_snapshot_lem :
      (c : CachedDocument) (m : ℕ)
      → (let (i, loaded) = get_or_load_document L doc_id now k.db k.documents in
          get_elem? loaded.entries i)
        ≡ some c
      → IsWellFormed c.doc
      → get_max_seq doc_id k.db ≡ suc m
      → SnapshotsCounted doc_id m k.db.snapshots
      → k.db.documents doc_id ≡ true
      → let k' = maybe_take_snapshot L sha256 config doc_id now id created_at k in
        let due = is_due config now (or_zero (get doc_id k.last_snapshot_time)) c in
        ((due ≡ false) × (k'.db ≡ k.db)) ⊎ ((due ≡ true) × Taken c.doc k')
  unfolding maybe_take_snapshot take_snapshot save_snapshot
  maybe_take_snapshot_lem c m e wf numbered counted exists =
      let row = snapshot_row sha256 doc_id (gc c.doc).0 (suc m) id created_at in
      let due : Bool = is_due config now (or_zero (get doc_id k.last_snapshot_time)) c in
      let db' = record k.db { snapshots = k.db.snapshots ++ row ∷ [] } in
      let free = no_row m doc_id k.db.snapshots counted in
      elim (Bool-cases due) [
        | inr early ↦ inl (early, ground (arith, e, early))
        | inl late ↦ inr (
          late,
          (
            row_to_record row,
            ground (
              arith,
              e,
              late,
              numbered,
              exists,
              free,
              newest_kept m doc_id row k.db.snapshots db' refl (===_refl doc_id) (omega arith)
                  counted,
            ),
            unfold row_to_record in ground (arith, numbered),
            unfold row_to_record in collected_text c.doc wf,
            unfold row_to_record in collected_size c.doc wf,
            ground (
              arith,
              e,
              late,
              numbered,
              exists,
              free,
              get-put doc_id doc_id now k.last_snapshot_time,
              ===_refl doc_id,
            ),
            unfold prune_old_snapshots in ground (arith, e, late, numbered, exists, free),
          ),
        )
      ]
