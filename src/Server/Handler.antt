-- ===== src/Server/Handler.antt =====
-- src/server/sync/operation-handler.ts: `handleOperation`, from the guards to the fan-out. The
-- background snapshot that it starts is a step of its own.
use sync_engine.Base.{
  ℕ, ◌+◌, ◌≡◌, ◌⊎◌, inl, inr, sym, subst, Bool, true, false, not, ◌||◌, Option, none, some, List,
  [], ◌∷◌, ◌++◌, arith, if◌then◌else◌, Bool-cases, Option-cases,
}
use sync_engine.Base.Text.{Text, codes, ◌===◌}
use sync_engine.Op.{VectorClock, Operation, insert, delete, format, rollback, OperationEnvelope}
use sync_engine.Rga.{apply_operation}
use sync_engine.Store.{Database, AppendParams, append_operation}
use sync_engine.Server.RateLimiter.{Counters, Limits, check_rate_limit}
use sync_engine.Server.ReplayGuard.{NonceStore, is_replay}
use sync_engine.Server.DocumentCache.{
  LruCache, CachedDocument, Documents, write_entry, get_or_load_document, update_cached_document,
}
use sync_engine.Server.Sessions.{ClientSession}

pub record OperationMessage : Type 0 where
  pub doc_id : Text
  pub client_seq : ℕ
  pub op : Operation
  pub vector_clock : VectorClock
  pub nonce : Text

-- What the call draws: the time in milliseconds, the row's identifier and timestamp, and how the
-- services answer. The pipeline of counters throws, and counts nothing, unless `pipeline_runs`, and
-- then it gives results or not; the table of nonces is read, a document that is not cached is loaded,
-- the transaction of the row goes through as far as the tables admit the row, and Redis takes the
-- message of the fan-out, or not.
pub record Drawn : Type 0 where
  pub now : ℕ
  pub op_id : Text
  pub created_at : Text
  pub pipeline_runs : Bool
  pub redis_answers : Bool
  pub table_readable : Bool
  pub document_loads : Bool
  pub row_commits : Bool
  pub publishes : Bool

-- The answer, or that the call was rejected by what one of its awaited calls threw.
pub data Outcome : Type 0 where
  accepted : OperationEnvelope → Outcome
  refused : Text → Outcome
  thrown : Outcome

-- An insert under another site than the session's.
abbrev pub impersonates : ClientSession → Operation → Bool
impersonates session (insert op) = not (op.uid.site_id === session.site_id)
impersonates session (delete uid) = false
impersonates session (format op) = false
impersonates session (rollback uid) = false

abbrev pub append_params : ClientSession → OperationMessage → AppendParams
append_params session msg = record {
  doc_id = msg.doc_id;
  session_id = session.id;
  user_id = session.user_id;
  client_seq = msg.client_seq;
  op = msg.op;
  vector_clock = msg.vector_clock;
  nonce = msg.nonce;
}

abbrev pub applied_entry : Operation → CachedDocument → CachedDocument
applied_entry op c = record c { doc = (apply_operation op c.doc).0 }

abbrev pub counted_entry : ℕ → CachedDocument → CachedDocument
counted_entry seq c = record c { last_seq = seq; ops_since_snapshot = c.ops_since_snapshot + 1 }

module _ (R : Counters) (N : NonceStore) (L : LruCache) (limits : Limits) where
  pub record Worker : Type 0 where
    pub counters : R.State
    pub nonces : N.State
    pub documents : Documents L
    pub db : Database
    pub published : List OperationEnvelope

  abbrev pub is_cached : Text → Worker → Bool
  is_cached doc_id k = elim (L.get doc_id k.documents.cache).0 [ none ↦ false | some i ↦ true ]

  -- From the load of the document on. The row is stored and counted when the message is published,
  -- and stays so where that throws.
  unfoldable pub store_operation :
      ClientSession → OperationMessage → Drawn → Worker → Outcome × Worker
  unfolding get_or_load_document update_cached_document
  store_operation session msg w k =
      let (i, m) = get_or_load_document L msg.doc_id w.now k.db k.documents in
      let m' = record m { entries = write_entry i (applied_entry msg.op) m.entries } in
      let row = append_operation (append_params session msg) w.op_id w.created_at k.db in
      if not (is_cached msg.doc_id k || w.document_loads)
      then (
        thrown,
        record k {
          documents = record k.documents { cache = (L.get msg.doc_id k.documents.cache).1 };
        },
      )
      else elim (if w.row_commits then row else none) [
        | none ↦ (thrown, record k { documents = m' })
        | some (envelope, db') ↦
            let counted = record k {
              documents = update_cached_document L msg.doc_id (counted_entry envelope.seq) m';
              db = db';
            } in
            if not w.publishes
            then (thrown, counted)
            else (accepted envelope, record counted { published = k.published ++ envelope ∷ [] })
      ]

  unfoldable pub handle_operation :
      ClientSession → OperationMessage → Drawn → Worker → Outcome × Worker
  unfolding check_rate_limit is_replay store_operation
  handle_operation session msg w k =
      let (rate, counters') =
        check_rate_limit R limits w.redis_answers session.user_id w.now k.counters in
      let k1 = record k { counters = counters' } in
      let (replay, nonces') =
        is_replay N msg.doc_id msg.nonce (if w.table_readable then some k.db else none) k.nonces in
      let k2 = record k1 { nonces = nonces' } in
      if not w.pipeline_runs
      then (thrown, k)
      else if not rate.allowed
      then (refused (codes "RATE_LIMITED"), k1)
      else if replay
      then (refused (codes "REPLAY_DETECTED"), k2)
      else if impersonates session msg.op
      then (refused (codes "INVALID_OPERATION"), k2)
      else store_operation session msg w k2

  abbrev stored :
      ClientSession → OperationMessage → Drawn → Worker → Option (OperationEnvelope × Database)
  stored session msg w k = append_operation (append_params session msg) w.op_id w.created_at k.db

  -- How a call that began at `k` ends: its row is stored and published, or stored only, or neither.
  abbrev pub Accepts : ClientSession → OperationMessage → Drawn → Worker → Outcome × Worker → Type 0
  Accepts session msg w k (outcome, k') =
      (e : OperationEnvelope) × (outcome ≡ accepted e)
      × (impersonates session msg.op ≡ false)
      × (append_operation (append_params session msg) w.op_id w.created_at k.db ≡ some (e, k'.db))
      × (k'.published ≡ k.published ++ e ∷ [])

  abbrev pub Strands : ClientSession → OperationMessage → Drawn → Worker → Outcome × Worker → Type 0
  Strands session msg w k (outcome, k') =
      (e : OperationEnvelope) × (outcome ≡ thrown)
      × (w.publishes ≡ false)
      × (impersonates session msg.op ≡ false)
      × (append_operation (append_params session msg) w.op_id w.created_at k.db ≡ some (e, k'.db))
      × (k'.published ≡ k.published)

  abbrev pub Leaves : Worker → Outcome × Worker → Type 0
  Leaves k (outcome, k') =
      ((outcome ≡ thrown) ⊎ ((c : Text) × (outcome ≡ refused c) × (k'.documents ≡ k.documents)))
      × (k'.db ≡ k.db)
      × (k'.published ≡ k.published)

  store_operation_lem :
      (session : ClientSession) (msg : OperationMessage) (w : Drawn) (k : Worker)
      → impersonates session msg.op ≡ false
      → Accepts session msg w k (store_operation session msg w k)
        ⊎ Strands session msg w k (store_operation session msg w k)
        ⊎ Leaves k (store_operation session msg w k)
  unfolding store_operation
  store_operation_lem session msg w k own =
      let loaded : Bool = is_cached msg.doc_id k || w.document_loads in
      elim (Bool-cases loaded) [
        | inr missing ↦
            inr (
              inr (inl (ground (arith, missing)), ground (arith, missing), ground (arith, missing)))
        | inl there ↦ elim (Bool-cases w.row_commits) [
          | inr broken ↦ inr (
              inr (
                inl (ground (arith, there, broken)),
                ground (arith, there, broken),
                ground (arith, there, broken),
              ))
          | inl commits ↦ elim (Option-cases (stored session msg w k)) [
            | inl failed ↦ inr (
                inr (
                  inl (ground (arith, there, commits, failed)),
                  ground (arith, there, commits, failed),
                  ground (arith, there, commits, failed),
                ))
            | inr ((e, db'), row) ↦ elim (Bool-cases w.publishes) [
              | inl sent ↦ inl (
                e,
                ground (arith, there, commits, row, sent),
                own,
                ground (arith, there, commits, row, sent),
                ground (arith, there, commits, row, sent),
              )
              | inr silent ↦ inr (
                  inl (
                    e,
                    ground (arith, there, commits, row, silent),
                    silent,
                    own,
                    ground (arith, there, commits, row, silent),
                    ground (arith, there, commits, row, silent),
                  ))
            ]
          ]
        ]
      ]

  -- An operation that is accepted is of the session's own site if it is an insert, its row is appended
  -- to the table, and its envelope is published behind the earlier ones. Where Redis does not take
  -- the message, the call may throw after the row was appended, and nothing is published. In every
  -- other case the call throws or refuses the operation, and the tables and what was published are as
  -- before; a refused operation touches no document.
  pub handle_operation_lem :
      (session : ClientSession) (msg : OperationMessage) (w : Drawn) (k : Worker)
      → Accepts session msg w k (handle_operation session msg w k)
        ⊎ Strands session msg w k (handle_operation session msg w k)
        ⊎ Leaves k (handle_operation session msg w k)
  unfolding handle_operation
  handle_operation_lem session msg w k =
      let (rate, counters') =
        check_rate_limit R limits w.redis_answers session.user_id w.now k.counters in
      let limited = rate.allowed in
      let (replayed, nonces') =
        is_replay N msg.doc_id msg.nonce (if w.table_readable then some k.db else none) k.nonces in
      let k2 = record k { counters = counters'; nonces = nonces' } in
      elim (Bool-cases w.pipeline_runs) [
        | inr down ↦
            inr (inr (inl (ground (arith, down)), ground (arith, down), ground (arith, down)))
        | inl runs ↦ elim (Bool-cases limited) [
          | inr too_many ↦ inr (
              inr (
                inr (
                  codes "RATE_LIMITED",
                  ground (arith, runs, too_many),
                  ground (arith, runs, too_many),
                ),
                ground (arith, runs, too_many),
                ground (arith, runs, too_many),
              ))
          | inl allowed ↦ elim (Bool-cases replayed) [
            | inl again ↦ inr (
                inr (
                  inr (
                    codes "REPLAY_DETECTED",
                    ground (arith, runs, allowed, again),
                    ground (arith, runs, allowed, again),
                  ),
                  ground (arith, runs, allowed, again),
                  ground (arith, runs, allowed, again),
                ))
            | inr first ↦ elim (Bool-cases (impersonates session msg.op)) [
              | inl other ↦ inr (
                  inr (
                    inr (
                      codes "INVALID_OPERATION",
                      ground (arith, runs, allowed, first, other),
                      ground (arith, runs, allowed, first, other),
                    ),
                    ground (arith, runs, allowed, first, other),
                    ground (arith, runs, allowed, first, other),
                  ))
              | inr own ↦
                  let passed : handle_operation session msg w k ≡ store_operation session msg w k2 =
                    ground (arith, runs, allowed, first, own) in
                  subst (λ r. Accepts session msg w k r ⊎ Strands session msg w k r ⊎ Leaves k r)
                    (sym passed) (store_operation_lem session msg w k2 own)
            ]
          ]
        ]
      ]
