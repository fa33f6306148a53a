-- ===== src/Server/DocumentCache.antt =====
-- src/server/sync/document-cache.ts: the documents that a worker holds in memory. The cache holds
-- references to entries, which its users change in place; the entries are a list, and a reference
-- is a position in it. Calls come one after the other, so that no load is in flight when one starts.
use sync_engine.Base.{ℕ, zero, suc, ◌-◌, Option, none, some, List, [], ◌∷◌, ◌++◌, length, max}
use sync_engine.Base.Text.{Text}
use sync_engine.Op.{OperationEnvelope}
use sync_engine.Rga.{Rga}
use sync_engine.Store.{Database, load_operations_after_seq}
use sync_engine.Store.Snapshots.{SnapshotRecord, load_latest_snapshot}
use sync_engine.Store.Revisions.{start_from, replay}

-- The package lru-cache, over references: a get may drop entries that are too old and freshens the
-- one found, a set may drop others.
pub record LruCache : Type 1 where
  pub State : Type 0
  pub get : Text → State → Option ℕ × State
  pub set : Text → ℕ → State → State
  pub delete : Text → State → State

pub record CachedDocument : Type 0 where
  pub doc : Rga
  pub last_seq : ℕ
  pub ops_since_snapshot : ℕ
  pub loaded_at : ℕ

abbrev pub seq_or_zero : Option SnapshotRecord → ℕ
seq_or_zero none = 0
seq_or_zero (some s) = s.seq

abbrev pub greatest : ℕ → List OperationEnvelope → ℕ
greatest n [] = n
greatest n (e ∷ es) = greatest (max n e.seq) es

unfoldable pub load_document_from_db : Text → ℕ → Database → CachedDocument
unfolding start_from replay
load_document_from_db doc_id now db =
    let snapshot = load_latest_snapshot doc_id db in
    let (d, from_seq) = start_from snapshot in
    let ops = load_operations_after_seq doc_id (from_seq - 1) 10000 db in
    record {
      doc = replay ops d;
      last_seq = greatest (seq_or_zero snapshot) ops;
      ops_since_snapshot = length ops;
      loaded_at = now;
    }

-- A write to the entry that a reference leads to.
abbrev pub write_entry :
    ℕ → (CachedDocument → CachedDocument) → List CachedDocument → List CachedDocument
write_entry i f [] = []
write_entry zero f (c ∷ entries) = f c ∷ entries
write_entry (suc i) f (c ∷ entries) = c ∷ write_entry i f entries

module _ (L : LruCache) where
  pub record Documents : Type 0 where
    pub cache : L.State
    pub entries : List CachedDocument

  unfoldable pub get_or_load_document : Text → ℕ → Database → Documents → ℕ × Documents
  unfolding load_document_from_db
  get_or_load_document doc_id now db m =
      let (hit, cache') = L.get doc_id m.cache in
      let ref = length m.entries in
      elim hit [
        | some i ↦ (i, record m { cache = cache' })
        | none ↦ (
          ref,
          record {
            cache = L.set doc_id ref cache';
            entries = m.entries ++ load_document_from_db doc_id now db ∷ [];
          },
        )
      ]

  unfoldable pub update_cached_document :
      Text → (CachedDocument → CachedDocument) → Documents → Documents
  update_cached_document doc_id mutator m =
      let (hit, cache') = L.get doc_id m.cache in
      elim hit [
        | none ↦ record m { cache = cache' }
        | some i ↦ record {
          cache = L.set doc_id i cache';
          entries = write_entry i mutator m.entries;
        }
      ]

  unfoldable pub invalidate_document : Text → Documents → Documents
  invalidate_document doc_id m = record m { cache = L.delete doc_id m.cache }
