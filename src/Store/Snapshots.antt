-- ===== src/Store/Snapshots.antt =====
-- src/server/persistence/snapshot-store.ts: the `snapshots` table.
use sync_engine.Base.{
  ℕ, Bool, not, ◌&&◌, Option, none, some, List, [], ◌∷◌, ◌++◌, map, length, filter, any, ltb, leb,
  ◌==◌, if◌then◌else◌,
}
use sync_engine.Base.Text.{Text, ◌===◌}
use sync_engine.Rga.{Rga}
use sync_engine.Rga.Read.{to_text}
use sync_engine.Rga.Stored.{SerializedNode, serialize, deserialize}
use sync_engine.Store.{Database, SnapshotRow}

pub record SnapshotRecord : Type 0 where
  pub id : Text
  pub doc_id : Text
  pub seq : ℕ
  pub nodes : List SerializedNode
  pub text_hash : Text
  pub created_at : Text

unfoldable pub row_to_record : SnapshotRow → SnapshotRecord
row_to_record row = record {
  id = row.id;
  doc_id = row.doc_id;
  seq = row.seq;
  nodes = row.nodes;
  text_hash = row.text_hash;
  created_at = row.created_at;
}

-- ORDER BY seq DESC LIMIT 1
unfoldable pub newest : List SnapshotRow → Option SnapshotRow
newest [] = none
newest (r ∷ rows) = elim (newest rows) [
  | none ↦ some r
  | some s ↦ if ltb r.seq s.seq then some s else some r
]

abbrev pub recorded : Option SnapshotRow → Option SnapshotRecord
recorded none = none
recorded (some row) = some (row_to_record row)

unfoldable pub load_latest_snapshot : Text → Database → Option SnapshotRecord
unfolding newest row_to_record
load_latest_snapshot doc_id db = recorded (newest (filter (λ r. r.doc_id === doc_id) db.snapshots))

unfoldable pub load_snapshot_before : Text → ℕ → Database → Option SnapshotRecord
unfolding newest row_to_record
load_snapshot_before doc_id target_seq db =
    recorded (newest (filter (λ r. r.doc_id === doc_id && leb r.seq target_seq) db.snapshots))

-- ORDER BY seq DESC, the data left out
unfoldable pub insert_newest : SnapshotRow → List SnapshotRow → List SnapshotRow
insert_newest r [] = r ∷ []
insert_newest r (s ∷ rows) =
    let further = s ∷ insert_newest r rows in if ltb s.seq r.seq then r ∷ s ∷ rows else further

unfoldable pub newest_first : List SnapshotRow → List SnapshotRow
unfolding insert_newest
newest_first [] = []
newest_first (r ∷ rows) = insert_newest r (newest_first rows)

unfoldable pub list_snapshots : Text → Database → List SnapshotRecord
unfolding newest_first row_to_record
list_snapshots doc_id db =
    map (λ r. record (row_to_record r) { nodes = [] })
      (newest_first (filter (λ r. r.doc_id === doc_id) db.snapshots))

-- The hexadecimal SHA-256 digest of a text.
module _ (sha256 : Text → Text) where
  abbrev pub snapshot_row : Text → Rga → ℕ → Text → Text → SnapshotRow
  snapshot_row doc_id d seq id now = record {
    id = id;
    doc_id = doc_id;
    seq = seq;
    nodes = serialize d;
    text_hash = sha256 (to_text d);
    node_count = length (serialize d);
    char_count = length (to_text d);
    created_at = now;
  }

  abbrev reloaded : ℕ → Database → Option SnapshotRecord → Option (SnapshotRecord × Database)
  reloaded seq db none = none
  reloaded seq db (some s) = if s.seq == seq then some (s, db) else none

  -- ON CONFLICT (doc_id, seq) DO NOTHING: the latest snapshot is then loaded, and where it is not
  -- the one in the way, the method throws. So it does for a document that does not exist.
  unfoldable pub save_snapshot :
      Text → Rga → ℕ → Text → Text → Database → Option (SnapshotRecord × Database)
  unfolding load_latest_snapshot row_to_record
  save_snapshot doc_id d seq id now db =
      let row = snapshot_row doc_id d seq id now in
      if not (db.documents doc_id)
      then none
      else if any (λ r. r.doc_id === doc_id && r.seq == seq) db.snapshots
      then reloaded seq db (load_latest_snapshot doc_id db)
      else some (row_to_record row, record db { snapshots = db.snapshots ++ row ∷ [] })

  unfoldable pub verify_snapshot : SnapshotRecord → Bool
  verify_snapshot s = sha256 (to_text (deserialize s.nodes)) === s.text_hash
