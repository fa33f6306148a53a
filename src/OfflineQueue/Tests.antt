-- ===== src/OfflineQueue/Tests.antt =====
-- A page that is loaded anew, on concrete queues.
use sync_engine.Base.{◌≡◌, refl, true, false, List, [], ◌∷◌}
use sync_engine.Base.Text.{codes}
use sync_engine.Base.Dict.{get}
use sync_engine.Op.{delete}
use sync_engine.OfflineQueue.{QueuedOperation, Browser, OfflineQueue, open_queue, load}
use sync_engine.OfflineQueue.Replay.{Action, push, ack, act_all, IsSaved, reload_finds_queue}

abbrev browser : Browser
browser = record { has_storage = true; is_full = false; storage = [] }

abbrev opened : OfflineQueue
opened = record { queue = []; doc_id = codes "d"; use_storage = true }

abbrev queued : QueuedOperation
queued = record {
  client_seq = 1;
  op = delete (record { clock = 1; site_id = codes "a" });
  nonce = codes "n";
  timestamp = 7;
  attempts = 0;
}

abbrev actions : List Action
actions = push queued ∷ push (record queued { client_seq = 2 }) ∷ ack 1 ∷ []

opened-IsSaved : IsSaved opened browser
unfolding open_queue load get
opened-IsSaved = record { used = refl; available = refl; roomy = refl; held = refl }

reload_finds_queue_example :
    open_queue (act_all actions opened browser).0.doc_id (act_all actions opened browser).1
    ≡ (act_all actions opened browser).0
reload_finds_queue_example = reload_finds_queue actions opened browser opened-IsSaved
