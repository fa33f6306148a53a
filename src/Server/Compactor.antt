-- ===== src/Server/Compactor.antt =====
-- src/server/jobs/snapshot-compactor.ts: snapshots taken in the background.
pub mod Taken
use sync_engine.Base.{
  ℕ, ◌-◌, Bool, not, ◌||◌, Option, none, some, List, take, filter, any, get_elem?, leb, ◌==◌,
  if◌then◌else◌,
}
use sync_engine.Base.Text.{Text, ◌===◌}
use sync_engine.Base.Dict.{Dict, get, put}
use sync_engine.Rga.Stored.{gc}
use sync_engine.Store.{Database, SnapshotRow, get_max_seq, or_zero}
use sync_engine.Store.Snapshots.{SnapshotRecord, save_snapshot, newest_first}
use sync_engine.Server.DocumentCache.{
  LruCache, CachedDocument, Documents, write_entry, get_or_load_document, update_cached_document,
}

-- `config.crdt`
pub record SnapshotConfig : Type 0 where
  pub ops_threshold : ℕ
  pub interval_ms : ℕ

abbrev pub kept_ids : Text → Database → List SnapshotRow
kept_ids doc_id db = take 10 (newest_first (filter (λ r. r.doc_id === doc_id) db.snapshots))

-- DELETE ... WHERE doc_id = $1 AND id NOT IN (the newest ten)
unfoldable pub prune_old_snapshots : Text → Database → Database
prune_old_snapshots doc_id db = record db {
  snapshots =
      filter (λ r. not (r.doc_id === doc_id) || any (λ s. s.id === r.id) (kept_ids doc_id db))
        db.snapshots;
}

abbrev pub is_due : SnapshotConfig → ℕ → ℕ → CachedDocument → Bool
is_due config now last_time c =
    leb config.ops_threshold c.ops_since_snapshot || leb config.interval_ms (now - last_time)

abbrev pub collected : CachedDocument → CachedDocument
collected c = record c { doc = (gc c.doc).0 }

abbrev pub restarted : CachedDocument → CachedDocument
restarted c = record c { ops_since_snapshot = 0 }

module _ (L : LruCache) (sha256 : Text → Text) (config : SnapshotConfig) where
  pub record Compactor : Type 0 where
    pub documents : Documents L
    pub db : Database
    pub last_snapshot_time : Dict ℕ

  -- From the collection on; `none` where the snapshot cannot be saved.
  unfoldable pub take_snapshot :
      Text → ℕ → CachedDocument → ℕ → ℕ → Text → Text → Compactor → Option Compactor
  unfolding update_cached_document
  take_snapshot doc_id i c seq now id created_at k =
      let m = record k.documents { entries = write_entry i collected k.documents.entries } in
      elim (save_snapshot sha256 doc_id (collected c).doc seq id created_at k.db) [
        | none ↦ none
        | some (s, db') ↦ some (record {
          documents = update_cached_document L doc_id restarted m;
          db = db';
          last_snapshot_time = put doc_id now k.last_snapshot_time;
        })
      ]

  abbrev pub pruned : Text → Compactor → Option Compactor → Compactor
  pruned doc_id k none = k
  pruned doc_id k (some k') = record k' { db = prune_old_snapshots doc_id k'.db }

  -- An entry that is loaded is there: `none` of the list does not occur.
  unfoldable pub maybe_take_snapshot : Text → ℕ → Text → Text → Compactor → Compactor
  unfolding get_or_load_document take_snapshot prune_old_snapshots
  maybe_take_snapshot doc_id now id created_at k =
      let (i, m) = get_or_load_document L doc_id now k.db k.documents in
      let k1 = record k { documents = m } in
      elim (get_elem? m.entries i) [
        | none ↦ k1
        | some c ↦
            let seq = get_max_seq doc_id k.db in
            let due = is_due config now (or_zero (get doc_id k.last_snapshot_time)) c in
            let k2 = record k1 {
              documents = record m { entries = write_entry i collected m.entries };
            } in
            if not due
            then k1
            else if seq == 0
            then k1
            else pruned doc_id k2 (take_snapshot doc_id i c seq now id created_at k1)
      ]

  unfoldable pub force_snapshot : Text → ℕ → Text → Text → Compactor → Option Compactor
  unfolding get_or_load_document take_snapshot
  force_snapshot doc_id now id created_at k =
      let (i, m) = get_or_load_document L doc_id now k.db k.documents in
      let k1 = record k { documents = m } in
      elim (get_elem? m.entries i) [
        | none ↦ none
        | some c ↦
            let seq = get_max_seq doc_id k.db in
            if seq == 0 then some k1 else take_snapshot doc_id i c seq now id created_at k1
      ]
