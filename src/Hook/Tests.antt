-- ===== src/Hook/Tests.antt =====
-- An editor that types and reconnects, and the theorems at it.
use sync_engine.Base.{◌≡◌, refl, true, false, some, none, List, [], ◌∷◌, filter, find, any, arith}
use sync_engine.Base.Text.{codes, ◌===◌}
use sync_engine.Base.Dict.{get, put}
use sync_engine.Op.{delete}
use sync_engine.OfflineQueue.{Browser, open_queue}
use sync_engine.Server.Tests.{plain_cache}
use sync_engine.Server.Sessions.{ClientSession, new_session}
use sync_engine.Server.OfflineMerger.{get_missed_operations}
use sync_engine.Documents.Tests.{paper}
use sync_engine.Transport.Join
use sync_engine.Transport.Presence.{build_initial_presence}
use sync_engine.Transport.Tests.{plain_presence, hub, anyone, join_draws}
use sync_engine.Hook.{Hook, mount, Draw, connecting, join_ack, handle_server_message, op_ack}
use sync_engine.Hook.Steps.{HookEvent, opens, receives, types, erases, hook_run}
use sync_engine.Hook.Consistent.{IsConsistent, hook_run-mount}
use sync_engine.Hook.Reconnect.{reconnect_empties}

abbrev opened : Hook
opened = record {
  doc_id = paper;
  access_token = codes "t";
  client_id = codes "c";
  text = [];
  status = connecting;
  presence = [];
  session_id = none;
  doc = none;
  is_open = false;
  queue = record { queue = []; doc_id = paper; use_storage = false };
  browser = record { has_storage = false; is_full = false; storage = [] };
  client_seq = 0;
  last_seq = 0;
  reconnect_attempts = 0;
  timers = [];
  sent = [];
}

abbrev first_answer : Join.JoinAck
first_answer = record {
  session_id = codes "s";
  site_id = codes "c";
  seq = 0;
  nodes = [];
  missed_ops = [];
  presence = [];
}

abbrev draw : Draw
draw = record { nonce = codes "n"; now = 3 }

abbrev events : List HookEvent
events =
    opens
    ∷ receives (join_ack first_answer)
    ∷ types 0 (codes "h") draw
    ∷ receives (op_ack 1 1)
    ∷ erases 0 draw
    ∷ []

-- A browser that keeps an operation of another document.
abbrev stocked : Browser
stocked = record {
  has_storage = true;
  is_full = false;
  storage =
      (
        codes "sync-engine:offline-queue:e",
        some (
            record {
              client_seq = 1;
              op = delete (record { clock = 1; site_id = codes "c" });
              nonce = codes "n";
              timestamp = 2;
              attempts = 1;
            }
            ∷ []),
      )
      ∷ [];
}

hook_run-mount_example :
    IsConsistent (hook_run events (mount paper (codes "t") (codes "c") stocked))
unfolding open_queue get ◌===◌
hook_run-mount_example = hook_run-mount paper (codes "t") (codes "c") stocked events refl

abbrev seen_one : Hook
seen_one = record opened { last_seq = 1 }

abbrev again : ClientSession
again =
    new_session
      (record {
        user_id = codes "a";
        doc_id = some paper;
        site_id = codes "c";
        display_name = codes "Ann";
        color = codes "#000";
        last_seq = 0;
      })
      (codes "s") 7 1

abbrev second_answer : Join.JoinAck
second_answer = record first_answer {
  presence =
      build_initial_presence (codes "s") (codes "a") (codes "Ann") (codes "#000") (codes "1") ∷ [];
}

reconnect_empties_example :
    (handle_server_message (join_ack second_answer) (hook_run events opened)).text ≡ []
unfolding Join.handle_join get_missed_operations get put ◌===◌ any find filter
    sync_engine.Store.load_operations_after_seq sync_engine.Store.order_by_seq
    sync_engine.Store.Snapshots.load_latest_snapshot
reconnect_empties_example =
    reconnect_empties plain_cache plain_presence anyone seen_one (hook_run events opened) join_draws
      hub again second_answer (omega arith) refl refl refl
