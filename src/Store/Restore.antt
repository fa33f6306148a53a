-- ===== src/Store/Restore.antt =====
-- What a return to a revision leaves.
use sync_engine.Base.{
  ℕ, ◌+◌, ◌<◌, ◌≡◌, refl, sym, subst, ap, Bool, true, false, ◌&&◌, some, List, [], ◌∷◌, ◌++◌, any,
  filter, filter-append, leb, ◌==◌, arith, Option-cases, Bool-cases, inl, inr,
}
use sync_engine.Base.Text.{Text, ◌===◌, ===_refl}
use sync_engine.Op.{OperationEnvelope}
use sync_engine.Rga.{Rga}
use sync_engine.Rga.Invariant.{IsWellFormed}
use sync_engine.Rga.Read.{to_text}
use sync_engine.Rga.Stored.{clone}
use sync_engine.Rga.Stored.Roundtrip.{clone_lem}
use sync_engine.Store.{Database, SnapshotRow, last_seq, append_operation, row_to_envelope}
use sync_engine.Store.Snapshots.{
  SnapshotRecord, newest, load_snapshot_before, row_to_record, save_snapshot, snapshot_row,
}
use sync_engine.Store.Revisions.{
  reconstruct_at_seq, restore_to_revision, RestoreParams, Draws, Restored, rollback_params,
  start_from,
}
use sync_engine.Store.Append.{SnapshotsCounted, Counted, append_parts}

newest-snoc :
    (m : ℕ) (doc_id : Text) (p : ℕ → Bool) (x : SnapshotRow) (rows : List SnapshotRow)
    → SnapshotsCounted doc_id m rows
    → m < x.seq
    → newest (filter (λ r. r.doc_id === doc_id && p r.seq) rows ++ x ∷ []) ≡ some x
unfolding newest filter
newest-snoc m doc_id p x [] c h = refl
newest-snoc m doc_id p x (r ∷ rows) c h = ground (arith, newest-snoc m doc_id p x rows c.1 h, c.0)

no_conflict :
    (m : ℕ) (doc_id : Text) (rows : List SnapshotRow)
    → SnapshotsCounted doc_id m rows
    → any (λ r. r.doc_id === doc_id && r.seq == m + 1) rows ≡ false
unfolding any
no_conflict m doc_id [] c = refl
no_conflict m doc_id (r ∷ rows) c = ground (arith, c.0, no_conflict m doc_id rows c.1)

snapshot_last :
    (m : ℕ) (doc_id : Text) (x : SnapshotRow) (rows : List SnapshotRow)
    → x.seq ≡ m + 1
    → (x.doc_id === doc_id) ≡ true
    → SnapshotsCounted doc_id m rows
    → newest (filter (λ r. r.doc_id === doc_id && leb r.seq (m + 1)) (rows ++ x ∷ [])) ≡ some x
unfolding filter
snapshot_last m doc_id x rows h k c = ground (
  arith,
  filter-append (λ r. r.doc_id === doc_id && leb r.seq (m + 1)) rows (x ∷ []),
  newest-snoc m doc_id (λ s. leb s (m + 1)) x rows c,
  h,
  k,
)

-- A document that is saved under a number beyond all snapshots is what `reconstructAtSeq` gives at
-- that number.
saved_reconstructed :
    (sha256 : Text → Text) (doc_id : Text) (d : Rga) (m : ℕ) (id now : Text) (db db' : Database)
    (s : SnapshotRecord)
    → SnapshotsCounted doc_id m db.snapshots
    → save_snapshot sha256 doc_id d (m + 1) id now db ≡ some (s, db')
    → (reconstruct_at_seq doc_id (m + 1) db').0 ≡ clone d
unfolding save_snapshot reconstruct_at_seq load_snapshot_before row_to_record start_from clone
saved_reconstructed sha256 doc_id d m id now db db' s c h =
    let row = snapshot_row sha256 doc_id d (m + 1) id now in
    ground (
      arith,
      no_conflict m doc_id db.snapshots c,
      snapshot_last m doc_id row db.snapshots refl (===_refl doc_id) c,
      h,
    )

pub clone-to_text : (d : Rga) → IsWellFormed d → to_text (clone d) ≡ to_text d
unfolding to_text
clone-to_text d wf = ap to_text (clone_lem d wf)

-- Where the counter has reached all rows of the document, a return to a revision that succeeds is
-- itself the next revision: `reconstructAtSeq` gives at its number the text of the old revision,
-- which is the text that the call answers. The document of the old revision is well-formed here.
pub restore_to_revision_lem :
    (sha256 : Text → Text) (p : RestoreParams) (w : Draws) (db db' : Database) (r : Restored)
    → Counted p.doc_id db
    → IsWellFormed (reconstruct_at_seq p.doc_id p.target_seq db).0
    → restore_to_revision sha256 p w db ≡ (some r, db')
    → (r.new_seq ≡ last_seq p.doc_id db + 1)
      × (to_text (reconstruct_at_seq p.doc_id r.new_seq db').0 ≡ r.restored_text)
      × (r.restored_text ≡ to_text (reconstruct_at_seq p.doc_id p.target_seq db).0)
unfolding restore_to_revision
restore_to_revision_lem sha256 p w db db' r c wf h =
    let d = (reconstruct_at_seq p.doc_id p.target_seq db).0 in
    let m = last_seq p.doc_id db in
    elim (Option-cases (append_operation (rollback_params p w) w.op_id w.now db)) [
      | inl refused ↦ absurd (ground (arith, refused, h))
      | inr ((e, db1), appended) ↦
          let (same, rows, snaps, docs, seqs) =
            append_parts (rollback_params p w) w.op_id w.now db db1 e appended in
          let numbered : e.seq ≡ m + 1 =
            unfold row_to_envelope in ap (λ (f : OperationEnvelope). f.seq) same in
          elim (Option-cases (save_snapshot sha256 p.doc_id d e.seq w.snapshot_id w.now db1)) [
            | inl refused ↦ absurd (ground (arith, appended, refused, h))
            | inr ((s, db2), saved) ↦ elim (Bool-cases w.commits) [
              | inr undone ↦ absurd (ground (arith, appended, saved, undone, h))
              | inl kept ↦
                  let again : (reconstruct_at_seq p.doc_id (m + 1) db2).0 ≡ clone d =
                    saved_reconstructed sha256 p.doc_id d m w.snapshot_id w.now db1 db2 s
                      (subst (SnapshotsCounted p.doc_id m) (sym snaps) c.1)
                      (subst
                        (λ n.
                          save_snapshot sha256 p.doc_id d n w.snapshot_id w.now db1 ≡ some (s, db2))
                        numbered saved) in
                  (
                    ground (arith, appended, saved, kept, h, numbered),
                    ground (arith, appended, saved, kept, h, numbered, again, clone-to_text d wf),
                    ground (arith, appended, saved, kept, h),
                  )
            ]
          ]
    ]
