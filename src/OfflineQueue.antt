-- ===== src/OfflineQueue.antt =====
-- src/client/crdt/offline-queue.ts: `OfflineQueue`, the operations that no ACK has answered yet.
pub mod Replay
mod Tests
use sync_engine.Base.{
  ℕ, ◌+◌, Bool, true, false, not, ◌&&◌, Option, none, some, List, [], ◌∷◌, ◌++◌, length, filter,
  ◌==◌, if◌then◌else◌,
}
use sync_engine.Base.Text.{Text, codes}
use sync_engine.Base.Dict.{Dict, get, put, remove}
use sync_engine.Op.{Operation}

pub record QueuedOperation : Type 0 where
  pub client_seq : ℕ
  pub op : Operation
  pub nonce : Text
  pub timestamp : ℕ
  pub attempts : ℕ

-- The browser: its storage, if it has one, and whether a write to it goes through. What
-- `JSON.stringify` writes is kept as the list that `JSON.parse` reads back, `none` where the text
-- does not parse.
pub record Browser : Type 0 where
  pub has_storage : Bool
  pub is_full : Bool
  pub storage : Dict (Option (List QueuedOperation))

pub record OfflineQueue : Type 0 where
  pub queue : List QueuedOperation
  pub doc_id : Text
  pub use_storage : Bool

abbrev pub storage_key : OfflineQueue → Text
storage_key q = codes "sync-engine:offline-queue:" ++ q.doc_id

abbrev pub parsed : Option (Option (List QueuedOperation)) → List QueuedOperation
parsed none = []
parsed (some none) = []
parsed (some (some ops)) = ops

unfoldable pub load : OfflineQueue → Browser → OfflineQueue
load q b = if q.use_storage then record q { queue = parsed (get (storage_key q) b.storage) } else q

-- A write that fails is passed over.
unfoldable pub persist : OfflineQueue → Browser → Browser
persist q b =
    if q.use_storage && not b.is_full
    then record b { storage = put (storage_key q) (some q.queue) b.storage }
    else b

-- `new OfflineQueue(docId)`
unfoldable pub open_queue : Text → Browser → OfflineQueue
unfolding load
open_queue doc_id b = load (record { queue = []; doc_id = doc_id; use_storage = b.has_storage }) b

abbrev pub saved : OfflineQueue → Browser → OfflineQueue × Browser
saved q b = (q, persist q b)

unfoldable pub enqueue : QueuedOperation → OfflineQueue → Browser → OfflineQueue × Browser
unfolding persist
enqueue op q b = saved (record q { queue = q.queue ++ op ∷ [] }) b

unfoldable pub acknowledge : ℕ → OfflineQueue → Browser → OfflineQueue × Browser
unfolding persist
acknowledge seq q b = saved (record q { queue = filter (λ o. not (o.client_seq == seq)) q.queue }) b

unfoldable pub get_all : OfflineQueue → List QueuedOperation
get_all q = q.queue

unfoldable pub size : OfflineQueue → ℕ
size q = length q.queue

unfoldable pub clear : OfflineQueue → Browser → OfflineQueue × Browser
clear q b = (
  record q { queue = [] },
  if q.use_storage then record b { storage = remove (storage_key q) b.storage } else b,
)

-- The write to the first operation with the number.
unfoldable pub retry_first : ℕ → List QueuedOperation → List QueuedOperation
retry_first seq [] = []
retry_first seq (o ∷ ops) =
    let rest = o ∷ retry_first seq ops in
    if o.client_seq == seq then record o { attempts = o.attempts + 1 } ∷ ops else rest

unfoldable pub increment_attempts : ℕ → OfflineQueue → OfflineQueue
unfolding retry_first
increment_attempts seq q = record q { queue = retry_first seq q.queue }
