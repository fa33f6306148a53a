-- ===== src/Store/Append.antt =====
-- What a new row does to the log of its document.
use sync_engine.Base.{
  ℕ, ◌+◌, ◌≤◌, ◌<◌, ◌≡◌, refl, sym, ◌∙◌, ap, Bool, true, ◌&&◌, some, List, [], ◌∷◌, ◌++◌, map, All,
  filter, filter-append, leb, arith,
}
use sync_engine.Base.Text.{Text, ◌===◌, ===_refl}
use sync_engine.Base.Dict.{get, put, get-put}
use sync_engine.Op.{OperationEnvelope}
use sync_engine.Store.{
  Database, OperationRow, SnapshotRow, AppendParams, or_zero, last_seq, next_doc_seq, appended_row,
  append_operation, row_to_envelope, insert_row, order_by_seq, load_operations_in_range,
}
use sync_engine.Store.Replay.{insert_low}

-- The counter of the document has reached all its rows.
abbrev pub RowsCounted : Text → ℕ → List OperationRow → Type 0
RowsCounted doc_id m = All (λ r. (r.doc_id === doc_id) ≡ true → r.seq ≤ m)

abbrev pub SnapshotsCounted : Text → ℕ → List SnapshotRow → Type 0
SnapshotsCounted doc_id m = All (λ r. (r.doc_id === doc_id) ≡ true → r.seq ≤ m)

abbrev pub Counted : Text → Database → Type 0
Counted doc_id db =
    RowsCounted doc_id (last_seq doc_id db) db.operations
    × SnapshotsCounted doc_id (last_seq doc_id db) db.snapshots

order_by_seq-snoc :
    (m : ℕ) (doc_id : Text) (p : ℕ → Bool) (x : OperationRow) (rows : List OperationRow)
    → RowsCounted doc_id m rows
    → m < x.seq
    → order_by_seq (filter (λ r. r.doc_id === doc_id && p r.seq) rows ++ x ∷ [])
      ≡ order_by_seq (filter (λ r. r.doc_id === doc_id && p r.seq) rows) ++ x ∷ []
unfolding order_by_seq filter insert_row
order_by_seq-snoc m doc_id p x [] c h = refl
order_by_seq-snoc m doc_id p x (r ∷ rows) c h = ground (
  arith,
  order_by_seq-snoc m doc_id p x rows c.1 h,
  insert_low m r (order_by_seq (filter (λ s. s.doc_id === doc_id && p s.seq) rows)) (x ∷ []),
  c.0,
)

-- What `appendOperation` gives when it succeeds.
pub append_parts :
    (p : AppendParams) (id now : Text) (db db' : Database) (e : OperationEnvelope)
    → append_operation p id now db ≡ some (e, db')
    → let seq = last_seq p.doc_id db + 1 in
      (e ≡ row_to_envelope (appended_row p id now seq))
      × (db'.operations ≡ db.operations ++ appended_row p id now seq ∷ [])
      × (db'.snapshots ≡ db.snapshots)
      × (db'.documents ≡ db.documents)
      × (db'.document_sequences ≡ put p.doc_id seq db.document_sequences)
unfolding append_operation next_doc_seq
append_parts p id now db db' e h = ground (arith, h)

rows_above :
    (m k : ℕ) (doc_id : Text) (p : ℕ → Bool) (rows : List OperationRow)
    → RowsCounted doc_id m rows
    → m ≤ k
    → filter (λ r. r.doc_id === doc_id && (p r.seq && leb r.seq (k + 1))) rows
      ≡ filter (λ r. r.doc_id === doc_id && (p r.seq && leb r.seq k)) rows
unfolding filter
rows_above m k doc_id p [] c h = refl
rows_above m k doc_id p (r ∷ rows) c h = ground (arith, rows_above m k doc_id p rows c.1 h, c.0)

RowsCounted-suc :
    (m : ℕ) (doc_id : Text) (rows : List OperationRow)
    → RowsCounted doc_id m rows
    → RowsCounted doc_id (m + 1) rows
RowsCounted-suc m doc_id [] c = tt
RowsCounted-suc m doc_id (r ∷ rows) c =
    (λ e. ground (arith, c.0), RowsCounted-suc m doc_id rows c.1)

map-snoc :
    (rows : List OperationRow) (x : OperationRow)
    → map row_to_envelope (rows ++ x ∷ []) ≡ map row_to_envelope rows ++ row_to_envelope x ∷ []
map-snoc [] x = refl
map-snoc (r ∷ rows) x = ap (λ l. row_to_envelope r ∷ l) (map-snoc rows x)

row_last :
    (m : ℕ) (doc_id : Text) (x : OperationRow)
    → x.seq ≡ m + 1
    → (x.doc_id === doc_id) ≡ true
    → filter (λ r. r.doc_id === doc_id && (leb 1 r.seq && leb r.seq (m + 1))) (x ∷ []) ≡ x ∷ []
unfolding filter
row_last m doc_id x h k = ground (arith, h, k)

range-snoc :
    (m : ℕ) (doc_id : Text) (x : OperationRow) (rows : List OperationRow)
    → x.seq ≡ m + 1
    → (x.doc_id === doc_id) ≡ true
    → RowsCounted doc_id m rows
    → map row_to_envelope (
        order_by_seq (
          filter (λ r. r.doc_id === doc_id && (leb 1 r.seq && leb r.seq (m + 1))) (rows ++ x ∷ [])))
      ≡ map row_to_envelope
          (order_by_seq (filter (λ r. r.doc_id === doc_id && (leb 1 r.seq && leb r.seq m)) rows))
        ++ row_to_envelope x ∷ []
range-snoc m doc_id x rows h k c =
    ap (λ l. map row_to_envelope (order_by_seq l))
      (filter-append (λ r. r.doc_id === doc_id && (leb 1 r.seq && leb r.seq (m + 1))) rows (x ∷ [])
        ∙ ap
            (λ l. filter (λ r. r.doc_id === doc_id && (leb 1 r.seq && leb r.seq (m + 1))) rows ++ l)
            (row_last m doc_id x h k)
        ∙ ap (λ l. l ++ x ∷ []) (rows_above m m doc_id (λ s. leb 1 s) rows c (omega arith)))
    ∙ ap (map row_to_envelope)
        (order_by_seq-snoc m doc_id (λ s. leb 1 s && leb s m) x rows c (ground (arith, h)))
    ∙ map-snoc
        (order_by_seq (filter (λ r. r.doc_id === doc_id && (leb 1 r.seq && leb r.seq m)) rows)) x

-- Where the counter has reached all rows of the document, `appendOperation` gives the new
-- operation the next number, and the log up to that number is the log as it was and the operation
-- behind it.
pub append_operation_lem :
    (p : AppendParams) (id now : Text) (db db' : Database) (e : OperationEnvelope)
    → RowsCounted p.doc_id (last_seq p.doc_id db) db.operations
    → append_operation p id now db ≡ some (e, db')
    → (e.seq ≡ last_seq p.doc_id db + 1)
      × (load_operations_in_range p.doc_id 1 e.seq db'
          ≡ load_operations_in_range p.doc_id 1 (last_seq p.doc_id db) db ++ e ∷ [])
      × (last_seq p.doc_id db' ≡ e.seq)
unfolding load_operations_in_range last_seq row_to_envelope
append_operation_lem p id now db db' e c h =
    let m = or_zero (get p.doc_id db.document_sequences) in
    let row = appended_row p id now (m + 1) in
    let (same, rows, snaps, docs, seqs) = append_parts p id now db db' e h in
    (
      ground (arith, same),
      ap
            (λ s. map row_to_envelope (
              order_by_seq (
                filter (λ r. r.doc_id === p.doc_id && (leb 1 r.seq && leb r.seq s))
                  db'.operations)))
            (ap (λ (f : OperationEnvelope). f.seq) same)
          ∙ ap
              (λ rows. map row_to_envelope (
                order_by_seq
                  (filter (λ r. r.doc_id === p.doc_id && (leb 1 r.seq && leb r.seq (m + 1))) rows)))
              rows
          ∙ range-snoc m p.doc_id row db.operations refl (===_refl p.doc_id) c
          ∙ ap
              (λ f.
                map row_to_envelope (
                  order_by_seq (
                    filter (λ r. r.doc_id === p.doc_id && (leb 1 r.seq && leb r.seq m))
                      db.operations))
                ++ f ∷ [])
              (sym same),
      ground (
        arith,
        same,
        seqs,
        get-put p.doc_id p.doc_id (m + 1) db.document_sequences,
        ===_refl p.doc_id,
      ),
    )
