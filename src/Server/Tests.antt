-- ===== src/Server/Tests.antt =====
-- The parts of a worker with Redis and the cache given by plain maps, and the theorems at them.
use sync_engine.Base.{
  ap, ℕ, suc, ◌≤◌, ◌≡◌, refl, ◌⊎◌, filter, Bool, true, false, not, ◌||◌, none, some, List, [], ◌∷◌,
  ltb, arith, if◌then◌else◌,
}
use sync_engine.Base.Text.{Text, codes, ◌===◌}
use sync_engine.Base.Dict.{Dict, get, put, remove}
use sync_engine.Op.{Uid, Operation, insert, delete, str}
use sync_engine.Store.{Database, appended_row, get_max_seq, greatest_seq}
use sync_engine.Server.RateLimiter.{Counters, Limits, per_sec_key, allowed_at, at_most_per_second}
use sync_engine.Server.ReplayGuard.{NonceStore, is_replay, replay_detected}
use sync_engine.Server.OfflineMerger.{
  get_missed_operations, should_force_full_reload, total_chars, reload_by_payload,
}
use sync_engine.Server.Sessions.{
  ClientSession, SessionParams, Sessions, register_session, remove_session, new_session,
}
use sync_engine.Server.Sessions.Indexed.{IsIndexed}
use sync_engine.Server.Sessions.Reachable.{begins, registers, removes, Reachable-IsIndexed}
use sync_engine.Server.DocumentCache.{LruCache, CachedDocument, get_or_load_document}
use sync_engine.Server.Handler.{
  OperationMessage, Drawn, Worker, append_params, Accepts, Strands, Leaves, handle_operation,
  handle_operation_lem,
}
use sync_engine.Server.Compactor.{SnapshotConfig, Compactor, maybe_take_snapshot}
use sync_engine.Server.Compactor.Taken.{Taken, maybe_take_snapshot_lem}
use sync_engine.Rga.{Rga, empty_rga, apply_operation}
use sync_engine.Rga.Invariant.{IsWellFormed}
use sync_engine.Rga.Invariant.Keeps.{empty_rga-IsWellFormed, apply_operation-IsWellFormed}
use sync_engine.Store.Snapshots.{snapshot_row}

abbrev pub plain_counters : Counters
plain_counters = record {
  State = Text → ℕ;
  count = λ k s. s k;
  incr = λ k s. (suc (s k), λ j. if k === j then suc (s j) else s j);
  expire = λ k t s. s;
  incr-answer = λ k s. refl;
  incr-count = λ k j s. refl;
  expire-count = λ k j t s. refl;
}

pub some_answer : (a b : Bool) → some a ≡ some b → b ≡ a
some_answer a b h = ground (arith, h)

abbrev pub plain_nonces : NonceStore
plain_nonces = record {
  State = Text → Bool;
  holds = λ k s. s k;
  set_nx = λ k s. (some (not (s k)), λ j. k === j || s j);
  answer = λ k s b h. some_answer (not (s k)) b h;
  kept = λ k j s b h. refl;
}

abbrev pub plain_cache : LruCache
plain_cache = record { State = Dict ℕ; get = λ k s. (get k s, s); set = put; delete = remove }

abbrev pub user : Text
user = codes "u"

abbrev pub limits : Limits
limits = record { per_second = 2; per_minute = 100 }

abbrev calls : List (Text × ℕ)
calls = (user, 100) ∷ (user, 200) ∷ (codes "v", 250) ∷ (user, 300) ∷ []

at_most_per_second_example :
    allowed_at plain_counters limits (per_sec_key user 0) calls (λ k. 0) ≤ 2
at_most_per_second_example = at_most_per_second plain_counters limits user 0 calls (λ k. 0)

abbrev pub tables : Database
tables = record {
  documents = λ k. true;
  users = λ k. true;
  document_sequences = [];
  operations = [];
  snapshots = [];
}

replay_detected_example :
    (is_replay plain_nonces
      (codes "d")
      (codes "n")
      (some tables)
      (is_replay plain_nonces (codes "d") (codes "n") (some tables) (λ k. false)).1).0
    ≡ true
unfolding is_replay
replay_detected_example =
    replay_detected plain_nonces (codes "d") (codes "n") true (some tables) (some tables)
      (λ k. false) refl (λ e. absurd (ground (arith, e)))

reload_by_payload_example :
    should_force_full_reload (get_missed_operations (codes "d") 3 5000 tables)
    ≡ ltb 500000 (total_chars (get_missed_operations (codes "d") 3 5000 tables))
reload_by_payload_example = reload_by_payload (codes "d") 3 5000 tables (omega arith)

abbrev params : SessionParams
params = record {
  user_id = user;
  doc_id = some (codes "d");
  site_id = codes "a";
  display_name = codes "U";
  color = codes "#000000";
  last_seq = 0;
}

abbrev none_yet : Sessions
none_yet = record { sessions = []; doc_sessions = []; user_sessions = [] }

Reachable-IsIndexed_example :
    IsIndexed (remove_session (codes "s") (register_session params (codes "s") 0 7 none_yet).1).1
unfolding get
Reachable-IsIndexed_example =
    let one = (register_session params (codes "s") 0 7 none_yet).1 in
    let two = (remove_session (codes "s") one).1 in
    Reachable-IsIndexed two (
      removes one two (codes "s") refl
        (registers none_yet one params (codes "s") 0 7 refl refl (begins none_yet refl)))

abbrev pub session : ClientSession
session = new_session params (codes "s") 0 7

abbrev pub message : OperationMessage
message = record {
  doc_id = codes "d";
  client_seq = 1;
  op = insert (record {
    uid = record { clock = 1; site_id = codes "a" };
    after = none;
    value = str (codes "x");
  });
  vector_clock = [];
  nonce = codes "n";
}

abbrev pub drawn : Drawn
drawn = record {
  now = 7;
  op_id = codes "o";
  created_at = codes "t";
  pipeline_runs = true;
  redis_answers = true;
  table_readable = true;
  document_loads = true;
  row_commits = true;
  publishes = true;
}

abbrev pub worker : Worker plain_counters plain_nonces plain_cache limits
worker = record {
  counters = λ k. 0;
  nonces = λ k. false;
  documents = record { cache = []; entries = [] };
  db = tables;
  published = [];
}

handle_operation_lem_example :
    let handled =
      handle_operation plain_counters plain_nonces plain_cache limits session message drawn
        worker in
    Accepts plain_counters plain_nonces plain_cache limits session message drawn worker handled
    ⊎ Strands plain_counters plain_nonces plain_cache limits session message drawn worker handled
    ⊎ Leaves plain_counters plain_nonces plain_cache limits worker handled
handle_operation_lem_example =
    handle_operation_lem plain_counters plain_nonces plain_cache limits session message drawn worker

-- A document with a character and a tombstone, at the third operation, and a snapshot at the first.
abbrev second_op : Operation
second_op = insert (record {
  uid = record { clock = 2; site_id = codes "a" };
  after = some (record { clock = 1; site_id = codes "a" });
  value = str (codes "y");
})

abbrev third_op : Operation
third_op = delete (record { clock = 1; site_id = codes "a" })

abbrev two_typed : Rga
two_typed = (apply_operation second_op (apply_operation message.op empty_rga).0).0

abbrev typed_doc : Rga
typed_doc = (apply_operation third_op two_typed).0

typed_doc-IsWellFormed : IsWellFormed typed_doc
typed_doc-IsWellFormed =
    apply_operation-IsWellFormed third_op two_typed
      (λ e. absurd (omega (arith, ap (λ (u : Uid). u.clock) e)))
      (apply_operation-IsWellFormed second_op (apply_operation message.op empty_rga).0 tt
        (apply_operation-IsWellFormed message.op empty_rga tt empty_rga-IsWellFormed))

abbrev config : SnapshotConfig
config = record { ops_threshold = 2; interval_ms = 50 }

abbrev entry : CachedDocument
entry = record { doc = typed_doc; last_seq = 3; ops_since_snapshot = 2; loaded_at = 5 }

abbrev compactor : Compactor plain_cache (λ t. t) config
compactor = record {
  documents = record { cache = (codes "d", 0) ∷ []; entries = entry ∷ [] };
  db = record tables {
    operations = appended_row (append_params session message) (codes "o") (codes "t") 3 ∷ [];
    snapshots = snapshot_row (λ t. t) (codes "d") empty_rga 1 (codes "p") (codes "t") ∷ [];
  };
  last_snapshot_time = (codes "d", 6) ∷ [];
}

maybe_take_snapshot_lem_example :
    let k' =
      maybe_take_snapshot plain_cache
        (λ t. t)
        config
        (codes "d")
        7
        (codes "i")
        (codes "t")
        compactor in
    ((true ≡ false) × (k'.db ≡ compactor.db))
    ⊎ ((true ≡ true)
        × Taken plain_cache
            (λ t. t)
            config
            (codes "d")
            7
            (codes "i")
            (codes "t")
            compactor
            typed_doc
            k')
unfolding get_or_load_document get get_max_seq greatest_seq filter ◌===◌
maybe_take_snapshot_lem_example =
    maybe_take_snapshot_lem plain_cache (λ t. t) config (codes "d") 7 (codes "i") (codes "t")
      compactor entry 2 refl typed_doc-IsWellFormed refl ((λ e. omega arith), tt) refl
