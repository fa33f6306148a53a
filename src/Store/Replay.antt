-- ===== src/Store/Replay.antt =====
-- `reconstructAtSeq` of src/server/persistence/history-service.ts, against a revision that is made one
-- number after the other.
use sync_engine.Base.{
  ℕ, zero, suc, ◌+◌, ◌≤◌, ◌<◌, ◌≡◌, refl, ◌∙◌, ap, Bool, true, ◌&&◌, ◌||◌, Option, none, some, ◌==◌,
  if◌then◌else◌, List, [], ◌∷◌, ◌++◌, map, All, filter, leb, arith, Option-cases, inl, inr,
}
use sync_engine.Base.Text.{Text, ◌===◌}
use sync_engine.Op.{OperationEnvelope}
use sync_engine.Rga.{Rga, empty_rga, apply_operation}
use sync_engine.Rga.Stored.{deserialize}
use sync_engine.Store.{
  Database, OperationRow, SnapshotRow, row_to_envelope, insert_row, order_by_seq,
  load_operations_in_range,
}
use sync_engine.Store.Snapshots.{newest, load_snapshot_before, row_to_record}
use sync_engine.Store.Revisions.{replay, start_from, reconstruct_at_seq}

abbrev AtMost : ℕ → List OperationRow → Type 0
AtMost m = All (λ r. r.seq ≤ m)

abbrev Above : ℕ → List OperationRow → Type 0
Above m = All (λ r. m < r.seq)

module _ (m : ℕ) (r : OperationRow) where
  pub insert_low :
      (xs ys : List OperationRow)
      → r.seq ≤ m
      → Above m ys
      → insert_row r (xs ++ ys) ≡ insert_row r xs ++ ys
  unfolding insert_row
  insert_low [] [] h a = refl
  insert_low [] (y ∷ ys) h a = ground arith
  insert_low (x ∷ xs) ys h a = ground (arith, insert_low xs ys h a)

  insert_high :
      (xs ys : List OperationRow)
      → m < r.seq
      → AtMost m xs
      → insert_row r (xs ++ ys) ≡ xs ++ insert_row r ys
  unfolding insert_row
  insert_high [] ys h a = refl
  insert_high (x ∷ xs) ys h a = ground (arith, insert_high xs ys h a.1)

  insert_row-AtMost :
      (xs : List OperationRow) → r.seq ≤ m → AtMost m xs → AtMost m (insert_row r xs)
  unfolding insert_row
  insert_row-AtMost [] h a = (h, tt)
  insert_row-AtMost (x ∷ xs) h a = ground (arith, insert_row-AtMost xs h a.1)

  insert_row-Above : (xs : List OperationRow) → m < r.seq → Above m xs → Above m (insert_row r xs)
  unfolding insert_row
  insert_row-Above [] h a = (h, tt)
  insert_row-Above (x ∷ xs) h a = ground (arith, insert_row-Above xs h a.1)

-- A selection of rows that splits at a sequence number is read in two parts.
module _ (m : ℕ) (p q w : OperationRow → Bool) (low : (r : OperationRow) → p r ≡ true → r.seq ≤ m)
    (high : (r : OperationRow) → q r ≡ true → m < r.seq)
    (both : (r : OperationRow) → w r ≡ (p r || q r)) where
  low_rows : (rows : List OperationRow) → AtMost m (order_by_seq (filter p rows))
  unfolding order_by_seq filter
  low_rows [] = tt
  low_rows (r ∷ rows) =
      ground (arith, low r, insert_row-AtMost m r (order_by_seq (filter p rows)), low_rows rows)

  high_rows : (rows : List OperationRow) → Above m (order_by_seq (filter q rows))
  unfolding order_by_seq filter
  high_rows [] = tt
  high_rows (r ∷ rows) =
      ground (arith, high r, insert_row-Above m r (order_by_seq (filter q rows)), high_rows rows)

  order_by_seq-split :
      (rows : List OperationRow)
      → order_by_seq (filter w rows) ≡ order_by_seq (filter p rows) ++ order_by_seq (filter q rows)
  unfolding order_by_seq filter
  order_by_seq-split [] = refl
  order_by_seq-split (r ∷ rows) = ground (
    arith,
    both r,
    low r,
    high r,
    order_by_seq-split rows,
    insert_low m r (order_by_seq (filter p rows)) (order_by_seq (filter q rows)),
    insert_high m r (order_by_seq (filter p rows)) (order_by_seq (filter q rows)),
    low_rows rows,
    high_rows rows,
  )

replay-append :
    (es fs : List OperationEnvelope) (d : Rga) → replay (es ++ fs) d ≡ replay fs (replay es d)
unfolding replay
replay-append [] fs d = refl
replay-append (e ∷ es) fs d = replay-append es fs (apply_operation e.op d).0

map-append :
    (xs ys : List OperationRow)
    → map row_to_envelope (xs ++ ys) ≡ map row_to_envelope xs ++ map row_to_envelope ys
map-append [] ys = refl
map-append (x ∷ xs) ys = ap (λ l. row_to_envelope x ∷ l) (map-append xs ys)

-- Reading a range of the log is reading it up to a sequence number and from there on.
pub load_operations_in_range-split :
    (doc_id : Text) (from_seq m to_seq : ℕ) (db : Database)
    → from_seq ≤ m + 1
    → m ≤ to_seq
    → load_operations_in_range doc_id from_seq to_seq db
      ≡ load_operations_in_range doc_id from_seq m db
        ++ load_operations_in_range doc_id (m + 1) to_seq db
unfolding load_operations_in_range
load_operations_in_range-split doc_id from_seq m to_seq db h k =
    ap (map row_to_envelope) (
      order_by_seq-split m (λ r. r.doc_id === doc_id && (leb from_seq r.seq && leb r.seq m))
        (λ r. r.doc_id === doc_id && (leb (m + 1) r.seq && leb r.seq to_seq))
        (λ r. r.doc_id === doc_id && (leb from_seq r.seq && leb r.seq to_seq)) (λ r e. ground arith)
        (λ r e. ground arith) (λ r. ground arith) db.operations)
    ∙ map-append _ _

-- The newest snapshots with a number, and up to a number.
abbrev pub snapshot_at : Text → ℕ → List SnapshotRow → Option SnapshotRow
snapshot_at doc_id n rows = newest (filter (λ r. r.doc_id === doc_id && r.seq == n) rows)

abbrev up_to : Text → ℕ → List SnapshotRow → Option SnapshotRow
up_to doc_id n rows = newest (filter (λ r. r.doc_id === doc_id && leb r.seq n) rows)

module _ (doc_id : Text) where
  snapshot_at-seq :
      (n : ℕ) (rows : List SnapshotRow) (s : SnapshotRow)
      → snapshot_at doc_id n rows ≡ some s
      → s.seq ≡ n
  unfolding newest filter
  snapshot_at-seq n [] s h = ground arith
  snapshot_at-seq n (r ∷ rows) s h =
      ground (arith, snapshot_at-seq n rows s, λ (e : r ≡ s). ap (λ (x : SnapshotRow). x.seq) e)

  up_to-seq :
      (n : ℕ) (rows : List SnapshotRow) (s : SnapshotRow) → up_to doc_id n rows ≡ some s → s.seq ≤ n
  unfolding newest filter
  up_to-seq n [] s h = ground arith
  up_to-seq n (r ∷ rows) s h =
      ground (arith, up_to-seq n rows s, λ (e : r ≡ s). ap (λ (x : SnapshotRow). x.seq) e)

  -- A snapshot with the target's number is the newest up to the target.
  up_to-exact :
      (n : ℕ) (rows : List SnapshotRow) (s : SnapshotRow)
      → snapshot_at doc_id n rows ≡ some s
      → up_to doc_id n rows ≡ some s
  unfolding newest filter
  up_to-exact n [] s h = ground arith
  up_to-exact n (r ∷ rows) s h = elim (Option-cases (snapshot_at doc_id n rows)) [
    | inr (t, e) ↦ ground (arith, h, e, up_to-exact n rows t e, snapshot_at-seq n rows t e)
    | inl e ↦ elim (Option-cases (up_to doc_id n rows)) [
      | inl none_before ↦ ground (arith, h, e, none_before)
      | inr (t, before) ↦ ground (arith, h, e, before, up_to-seq n rows t before)
    ]
  ]

  -- Where the next number has no snapshot, the newest up to it is the newest before it.
  up_to-suc :
      (n : ℕ) (rows : List SnapshotRow)
      → snapshot_at doc_id (suc n) rows ≡ none
      → up_to doc_id (suc n) rows ≡ up_to doc_id n rows
  unfolding newest filter
  up_to-suc n [] h = refl
  up_to-suc n (r ∷ rows) h = ground (arith, up_to-suc n rows)

  up_to-zero : (rows : List SnapshotRow) → up_to doc_id 0 rows ≡ snapshot_at doc_id 0 rows
  unfolding filter
  up_to-zero [] = refl
  up_to-zero (r ∷ rows) = ground (arith, up_to-zero rows)

empty_range :
    (from_seq to_seq : ℕ) (rows : List OperationRow)
    → to_seq < from_seq
    → (doc_id : Text)
    → filter (λ r. r.doc_id === doc_id && (leb from_seq r.seq && leb r.seq to_seq)) rows ≡ []
unfolding filter
empty_range from_seq to_seq [] h doc_id = refl
empty_range from_seq to_seq (r ∷ rows) h doc_id =
    ground (arith, empty_range from_seq to_seq rows h doc_id)

pub load_operations_in_range-empty :
    (doc_id : Text) (from_seq to_seq : ℕ) (db : Database)
    → to_seq < from_seq
    → load_operations_in_range doc_id from_seq to_seq db ≡ []
unfolding load_operations_in_range order_by_seq
load_operations_in_range-empty doc_id from_seq to_seq db h =
    ap (λ l. map row_to_envelope (order_by_seq l))
      (empty_range from_seq to_seq db.operations h doc_id)

-- The document of a revision, one number after the other: a snapshot with the revision's number is the
-- document; without one, the log at that number is applied to the revision before.
unfoldable pub revision : Text → Database → ℕ → Rga
revision doc_id db zero = elim (snapshot_at doc_id 0 db.snapshots) [
  | none ↦ empty_rga
  | some s ↦ deserialize s.nodes
]
revision doc_id db (suc n) = elim (snapshot_at doc_id (suc n) db.snapshots) [
  | none ↦ replay (load_operations_in_range doc_id (suc n) (suc n) db) (revision doc_id db n)
  | some s ↦ deserialize s.nodes
]

replay-empty : (d : Rga) → replay [] d ≡ d
unfolding replay
replay-empty d = refl

module _ (doc_id : Text) (db : Database) where
  -- From a start up to the next number is from that start up to the number, and one step.
  replay_next :
      (from_seq n : ℕ) (d : Rga)
      → from_seq ≤ suc n
      → replay (load_operations_in_range doc_id from_seq (suc n) db) d
        ≡ replay
            (load_operations_in_range doc_id (suc n) (suc n) db)
            (if leb from_seq n then replay (load_operations_in_range doc_id from_seq n db) d else d)
  replay_next from_seq n d h = ground (
    arith,
    load_operations_in_range-split doc_id from_seq n (suc n) db,
    load_operations_in_range-empty doc_id from_seq n db,
    replay-append (load_operations_in_range doc_id from_seq n db)
        (load_operations_in_range doc_id (suc n) (suc n) db) d,
    replay-empty d,
  )

  reconstruct_next :
      (n : ℕ)
      → snapshot_at doc_id (suc n) db.snapshots ≡ none
      → (reconstruct_at_seq doc_id (suc n) db).0
        ≡ replay
            (load_operations_in_range doc_id (suc n) (suc n) db)
            (reconstruct_at_seq doc_id n db).0
  unfolding reconstruct_at_seq start_from load_snapshot_before row_to_record
  reconstruct_next n missing = elim (Option-cases (up_to doc_id n db.snapshots)) [
    | inl e ↦ ground (arith, e, up_to-suc doc_id n db.snapshots, replay_next 1 n empty_rga)
    | inr (s, e) ↦ ground (
      arith,
      e,
      up_to-suc doc_id n db.snapshots,
      up_to-seq doc_id n db.snapshots s,
      replay_next (s.seq + 1) n (deserialize s.nodes),
    )
  ]

  reconstruct_exact :
      (n : ℕ) (s : SnapshotRow)
      → snapshot_at doc_id n db.snapshots ≡ some s
      → (reconstruct_at_seq doc_id n db).0 ≡ deserialize s.nodes
  unfolding reconstruct_at_seq start_from load_snapshot_before row_to_record
  reconstruct_exact n s e =
      ground (arith, up_to-exact doc_id n db.snapshots s, snapshot_at-seq doc_id n db.snapshots s)

  reconstruct_zero :
      snapshot_at doc_id 0 db.snapshots ≡ none → (reconstruct_at_seq doc_id 0 db).0 ≡ empty_rga
  unfolding reconstruct_at_seq start_from load_snapshot_before row_to_record
  reconstruct_zero e = ground (arith, e, up_to-zero doc_id db.snapshots)

-- `reconstructAtSeq`, which starts from the newest snapshot and replays a range of the log, gives on all
-- tables the document that is made one number after the other: the snapshot with the number if there
-- is one, and otherwise the document of the number before with the log at the number applied. The
-- snapshots need not hold what the log alone would give.
pub reconstruct_at_seq_lem :
    (doc_id : Text) (target_seq : ℕ) (db : Database)
    → (reconstruct_at_seq doc_id target_seq db).0 ≡ revision doc_id db target_seq
unfolding revision
reconstruct_at_seq_lem doc_id zero db = elim (Option-cases (snapshot_at doc_id 0 db.snapshots)) [
  | inl e ↦ ground (arith, e, reconstruct_zero doc_id db)
  | inr (s, e) ↦ ground (arith, e, reconstruct_exact doc_id db 0 s)
]
reconstruct_at_seq_lem doc_id (suc n) db =
    elim (Option-cases (snapshot_at doc_id (suc n) db.snapshots)) [
      | inl e ↦ ground (arith, e, reconstruct_next doc_id db n, reconstruct_at_seq_lem doc_id n db)
      | inr (s, e) ↦ ground (arith, e, reconstruct_exact doc_id db (suc n) s)
    ]
