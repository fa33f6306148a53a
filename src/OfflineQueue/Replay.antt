-- ===== src/OfflineQueue/Replay.antt =====
-- What a page that is loaded anew finds in the queue.
use sync_engine.Base.{ℕ, ◌≡◌, true, false, not, some, List, [], ◌∷◌, ◌++◌, filter, ◌==◌, arith}
use sync_engine.Base.Text.{===_refl}
use sync_engine.Base.Dict.{get-put, get-remove}
use sync_engine.OfflineQueue.{
  QueuedOperation, Browser, OfflineQueue, storage_key, load, persist, open_queue, enqueue,
  acknowledge, clear,
}

-- What the page does to the queue.
pub data Action : Type 0 where
  push : QueuedOperation → Action
  ack : ℕ → Action
  wipe : Action

unfoldable pub act : Action → OfflineQueue → Browser → OfflineQueue × Browser
unfolding enqueue acknowledge clear
act (push op) q b = enqueue op q b
act (ack seq) q b = acknowledge seq q b
act wipe q b = clear q b

unfoldable pub act_all : List Action → OfflineQueue → Browser → OfflineQueue × Browser
unfolding act
act_all [] q b = (q, b)
act_all (a ∷ rest) q b = act_all rest (act a q b).0 (act a q b).1

-- The browser stores what it is given, and holds the queue.
pub record IsSaved (q : OfflineQueue) (b : Browser) : Type 0 where
  pub used : q.use_storage ≡ true
  pub available : b.has_storage ≡ true
  pub roomy : b.is_full ≡ false
  pub held : open_queue q.doc_id b ≡ q

persist-IsSaved :
    (q : OfflineQueue) (b : Browser) (ops : List QueuedOperation)
    → IsSaved q b
    → IsSaved (record q { queue = ops }) (persist (record q { queue = ops }) b)
unfolding persist open_queue load
persist-IsSaved q b ops h = record {
  used = h.used;
  available = ground (arith, h.used, h.available, h.roomy);
  roomy = ground (arith, h.used, h.available, h.roomy);
  held = ground (
    arith,
    h.used,
    h.available,
    h.roomy,
    get-put (storage_key q) (storage_key q) (some ops) b.storage,
    ===_refl (storage_key q),
  );
}

clear-IsSaved : (q : OfflineQueue) (b : Browser) → IsSaved q b → IsSaved (clear q b).0 (clear q b).1
unfolding clear open_queue load
clear-IsSaved q b h = record {
  used = h.used;
  available = ground (arith, h.used, h.available);
  roomy = ground (arith, h.used, h.roomy);
  held = ground (
    arith,
    h.used,
    h.available,
    get-remove (storage_key q) (storage_key q) b.storage,
    ===_refl (storage_key q),
  );
}

act-IsSaved :
    (a : Action) (q : OfflineQueue) (b : Browser)
    → IsSaved q b
    → IsSaved (act a q b).0 (act a q b).1
unfolding act enqueue acknowledge
act-IsSaved (push op) q b h = persist-IsSaved q b (q.queue ++ op ∷ []) h
act-IsSaved (ack seq) q b h =
    persist-IsSaved q b (filter (λ o. not (o.client_seq == seq)) q.queue) h
act-IsSaved wipe q b h = clear-IsSaved q b h

-- In a browser that stores what it is given, a page that is loaded anew finds the queue that the
-- enqueues, acknowledgements and clears before it left.
pub reload_finds_queue :
    (actions : List Action) (q : OfflineQueue) (b : Browser)
    → IsSaved q b
    → open_queue (act_all actions q b).0.doc_id (act_all actions q b).1 ≡ (act_all actions q b).0
unfolding act_all
reload_finds_queue [] q b h = h.held
reload_finds_queue (a ∷ rest) q b h =
    reload_finds_queue rest (act a q b).0 (act a q b).1 (act-IsSaved a q b h)
