-- ===== src/Transport/Presence.antt =====
-- src/server/sync/presence-manager.ts: who is in a document, kept in Redis under a key for each
-- session, and the batches of src/server/transport/websocket-server.ts that pass changes on.
use sync_engine.Base.{
  ℕ, Bool, false, Option, none, some, List, [], ◌∷◌, ◌++◌, map, any, filter, not, if◌then◌else◌,
}
use sync_engine.Base.Text.{Text, codes, ◌===◌}
use sync_engine.Base.Dict.{Dict, get, put, remove}
use sync_engine.Op.{Uid}

pub record CursorPosition : Type 0 where
  pub after_uid : Option Uid
  pub anchor_uid : Option Uid

pub record PresenceUpdate : Type 0 where
  pub session_id : Text
  pub cursor : Option CursorPosition
  pub is_typing : Bool

pub record UserPresence : Type 0 where
  pub session_id : Text
  pub user_id : Text
  pub display_name : Text
  pub color : Text
  pub cursor : Option CursorPosition
  pub is_typing : Bool
  pub last_seen : Text

-- Keys in Redis with the presence that each holds. An entry lives for the seconds it is given, so
-- any entry may be gone from one call to the next.
pub record PresenceStore : Type 1 where
  pub State : Type 0
  pub set : Text → UserPresence → ℕ → State → State
  pub del : Text → State → State
  pub starting_with : Text → State → List UserPresence
  pub expire : Text → ℕ → State → State

abbrev pub presence_key : Text → Text → Text
presence_key doc_id session_id = codes "presence:doc:" ++ (doc_id ++ (codes ":" ++ session_id))

module _ (R : PresenceStore) where
  unfoldable pub update_presence : Text → UserPresence → R.State → R.State
  update_presence doc_id p s = R.set (presence_key doc_id p.session_id) p 60 s

  unfoldable pub remove_presence : Text → Text → R.State → R.State
  remove_presence doc_id session_id s = R.del (presence_key doc_id session_id) s

  unfoldable pub get_all_presence : Text → R.State → List UserPresence
  get_all_presence doc_id s = R.starting_with (codes "presence:doc:" ++ (doc_id ++ codes ":")) s

  unfoldable pub refresh_presence_ttl : Text → Text → R.State → R.State
  refresh_presence_ttl doc_id session_id s = R.expire (presence_key doc_id session_id) 60 s

unfoldable pub build_initial_presence : Text → Text → Text → Text → Text → UserPresence
build_initial_presence session_id user_id display_name color now = record {
  session_id = session_id;
  user_id = user_id;
  display_name = display_name;
  color = color;
  cursor = none;
  is_typing = false;
  last_seen = now;
}

-- The presence that is waiting to be broadcast: for each document the latest of each session. A
-- document has a timer exactly while it has a batch.
pub record Batches : Type 0 where
  pub batches : Dict (Dict UserPresence)
  pub timers : List Text

abbrev or_new : Option (Dict UserPresence) → Dict UserPresence
or_new none = []
or_new (some batch) = batch

unfoldable pub handle_redis_presence : Text → UserPresence → Batches → Batches
handle_redis_presence doc_id p b = record {
  batches = put doc_id (put p.session_id p (or_new (get doc_id b.batches))) b.batches;
  timers = if any (λ d. d === doc_id) b.timers then b.timers else b.timers ++ doc_id ∷ [];
}

-- The timer of a document fires: its batch is sent, one message for each session.
unfoldable pub send_batch : Text → Batches → List UserPresence × Batches
send_batch doc_id b = (
  map (λ e. e.1) (or_new (get doc_id b.batches)),
  record { batches = remove doc_id b.batches; timers = filter (λ d. not (d === doc_id)) b.timers },
)
