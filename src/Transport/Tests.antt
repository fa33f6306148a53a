-- ===== src/Transport/Tests.antt =====
-- Runs of the queue, the gate and the handlers, and the theorems at them.
use sync_engine.Base.{
  take, ◌≡◌, refl, true, false, not, Option, none, some, List, [], ◌∷◌, ◌++◌, map, filter, length,
  min, any, find, arith,
}
use sync_engine.Base.Text.{Text, codes, ◌===◌}
use sync_engine.Base.Dict.{Dict, get, put, remove}
use sync_engine.Op.{OperationEnvelope, pos, delete}
use sync_engine.Store.{append_operation}
use sync_engine.Server.Tests.{
  plain_counters, plain_nonces, plain_cache, limits, tables, session, message, drawn, worker,
}
use sync_engine.Server.Handler.{impersonates, append_params, Worker}
use sync_engine.Server.Sessions.{ClientSession, new_session}
use sync_engine.Documents.Tests.{start, paper}
use sync_engine.Transport.Presence.{PresenceStore, UserPresence}
use sync_engine.Transport.MessageQueue.{
  operation, ping, is_operation, QueueEvent, arrives, shifts, queue_run, queue_step,
}
use sync_engine.Transport.QueueOrder.{arrivals, no_messages, queue_fifo}
use sync_engine.Transport.Fanout
use sync_engine.Transport.Fanout.Channels.{doc_channel}
use sync_engine.Transport.Visits.{
  joins, leaves, visit_all, no_handlers, joins_of, handed_on_per_join,
}
use sync_engine.Transport.Join
use sync_engine.Transport.Admission.{Admitted, Opened, handle_join-Admitted}
use sync_engine.Transport.Gate.{
  on_connection, on_message, on_join_timeout, on_close, silent_visits, places_lost,
}
use sync_engine.Transport.Lifecycle.{Reply, handle_client_operation, acked-stored}

abbrev events : List QueueEvent
events = arrives (ping 1) ∷ arrives (operation message) ∷ shifts ∷ arrives (ping 2) ∷ []

-- The operation overtakes the ping.
queue_test : (queue_run events no_messages).taken ≡ operation message ∷ []
unfolding queue_run
queue_test = refl

queue_fifo_example :
    let s = queue_run events no_messages in
    (filter is_operation (s.taken ++ map (λ q. q.msg) s.queue)
      ≡ filter is_operation (arrivals events))
    × (filter (λ m. not (is_operation m)) (s.taken ++ map (λ q. q.msg) s.queue)
        ≡ filter (λ m. not (is_operation m)) (arrivals events))
    × ((queue_step shifts s).taken
        ≡ s.taken
          ++ take 1 (
              filter is_operation (map (λ q. q.msg) s.queue)
              ++ filter (λ m. not (is_operation m)) (map (λ q. q.msg) s.queue)))
queue_fifo_example = queue_fifo events

places_lost_example :
    ((on_close (on_message true (on_connection (pos 3)))).pending_auth_count ≡ pos 3)
    × ((on_close (on_join_timeout (on_connection (pos 3)))).pending_auth_count ≡ pos 3)
    × (silent_visits 97 (pos 3) ≡ pos (min 100 100))
    × ((on_connection (silent_visits 97 (pos 3))).socket.closed_with ≡ some 4029)
places_lost_example = places_lost 97 3 (omega arith)

abbrev envelope : OperationEnvelope
envelope = record {
  id = codes "o";
  doc_id = paper;
  session_id = codes "s";
  user_id = codes "a";
  op = delete (record { clock = 1; site_id = codes "a" });
  seq = 1;
  client_seq = 1;
  timestamp = codes "t";
  vector_clock = [];
  nonce = codes "n";
}

handed_on_per_join_example :
    length (
      Fanout.route
        (doc_channel paper)
        (Fanout.op envelope)
        (visit_all (joins paper ∷ leaves paper ∷ joins paper ∷ []) no_handlers).fanout)
    ≡ joins_of paper (joins paper ∷ leaves paper ∷ joins paper ∷ [])
unfolding any sync_engine.Transport.Fanout.Channels.has_colon
handed_on_per_join_example =
    handed_on_per_join paper (joins paper ∷ leaves paper ∷ joins paper ∷ []) envelope refl

abbrev pub plain_presence : PresenceStore
plain_presence = record {
  State = Dict UserPresence;
  set = λ k p t s. put k p s;
  del = λ k s. remove k s;
  starting_with = λ k s. map (λ e. e.1) s;
  expire = λ k t s. s;
}

abbrev pub hub : Join.Hub plain_cache plain_presence
hub = record {
  directory = start;
  db = tables;
  documents = record { cache = []; entries = [] };
  sessions = record { sessions = []; doc_sessions = []; user_sessions = [] };
  socket_sessions = [];
  handlers = no_handlers;
  presence = [];
  notified = [];
  announced = [];
}

abbrev join : Join.JoinMessage
join = record { doc_id = none; token = codes "t"; last_seq = 0; client_id = codes "c" }

abbrev pub join_draws : Join.JoinDraws
join_draws = record { now = 1; now_text = codes "1"; id = codes "s"; socket = 7; db_answers = true }

abbrev pub anyone : Text → Option Text
anyone token = some (codes "a")

abbrev joined : Join.JoinOutcome × Join.Hub plain_cache plain_presence
joined = Join.handle_join plain_cache plain_presence anyone (some join) join_draws hub

abbrev new_ack : Join.JoinAck
new_ack = record {
  session_id = codes "s";
  site_id = codes "c";
  seq = 0;
  nodes = [];
  missed_ops = [];
  presence = [];
}

abbrev ann_session : ClientSession
ann_session =
    new_session
      (record {
        user_id = codes "a";
        doc_id = none;
        site_id = codes "c";
        display_name = codes "Ann";
        color = codes "#000";
        last_seq = 0;
      })
      (codes "s") 7 1

handle_join-Admitted_example :
    (msg : Join.JoinMessage) × (some join ≡ some msg)
    × (anyone msg.token ≡ some (codes "a"))
    × Admitted start msg.doc_id (codes "a")
    × Opened plain_cache plain_presence msg ann_session new_ack joined.1
unfolding Join.handle_join Join.join_user Join.user_profile find ◌===◌
handle_join-Admitted_example =
    handle_join-Admitted plain_cache plain_presence anyone (some join) join_draws hub ann_session
      new_ack refl

abbrev handled : Option Reply × Worker plain_counters plain_nonces plain_cache limits
handled =
    handle_client_operation plain_counters plain_nonces plain_cache limits none session message
      drawn worker

acked-stored_example :
    (1 ≡ message.client_seq)
    × (impersonates session message.op ≡ false)
    × ((e : OperationEnvelope) × (e.seq ≡ 1)
        × (e.timestamp ≡ codes "t")
        × (append_operation (append_params session message) drawn.op_id drawn.created_at tables
            ≡ some (e, handled.1.db))
        × (handled.1.published ≡ e ∷ []))
unfolding handle_client_operation ◌===◌ append_operation any get
acked-stored_example =
    acked-stored plain_counters plain_nonces plain_cache limits none session message drawn worker 1
      1 (codes "t") refl
