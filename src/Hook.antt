-- ===== src/Hook.antt =====
-- src/client/hooks/useCollaborativeDoc.ts: the document that an editor shows, with its connection,
-- its replica and its queue. The React state is a record, and each callback is a function on it.
pub mod Steps
pub mod Waiting
pub mod Consistent
pub mod Reconnect
mod Tests
use sync_engine.Base.{
  ℕ, suc, ◌+◌, ◌*◌, ◌^◌, Bool, true, false, not, ◌||◌, ◌==◌, Option, none, some, List, [], ◌∷◌,
  ◌++◌, filter, max, min, if◌then◌else◌,
}
use sync_engine.Base.Text.{Text, codes, ◌===◌}
use sync_engine.Op.{Uid, Operation, insert, delete, OperationEnvelope}
use sync_engine.ClientRga.{
  ClientRga, client_apply, client_text, client_deserialize, local_insert, local_delete,
  client_after_uid, client_uid_to_index,
}
use sync_engine.ClientRga.Diff.{diff_to_operations}
use sync_engine.OfflineQueue.{
  QueuedOperation, Browser, OfflineQueue, open_queue, enqueue, acknowledge, get_all,
}
use sync_engine.Server.Handler.{OperationMessage}
use sync_engine.Transport.Presence.{UserPresence, PresenceUpdate}
use sync_engine.Transport.Join.{JoinMessage, JoinAck}

pub data ConnectionStatus : Type 0 where
  connecting : ConnectionStatus
  connected : ConnectionStatus
  disconnected : ConnectionStatus
  failed : ConnectionStatus

-- What the hook sends.
pub data Sent : Type 0 where
  join : JoinMessage → Sent
  operation : OperationMessage → Sent
  presence : Text → PresenceUpdate → Sent

-- The messages that the hook acts on; it passes over all others.
pub data ServerMessage : Type 0 where
  join_ack : JoinAck → ServerMessage
  op_ack : ℕ → ℕ → ServerMessage
  broadcast : OperationEnvelope → ServerMessage
  presence_update : UserPresence → ServerMessage
  user_left : Text → ServerMessage
  error : Text → ServerMessage

-- The delays of the reconnects that were scheduled stand in `timers`, the last one at the end.
pub record Hook : Type 0 where
  pub doc_id : Text
  pub access_token : Text
  pub client_id : Text
  pub text : Text
  pub status : ConnectionStatus
  pub presence : List UserPresence
  pub session_id : Option Text
  pub doc : Option ClientRga
  pub is_open : Bool
  pub queue : OfflineQueue
  pub browser : Browser
  pub client_seq : ℕ
  pub last_seq : ℕ
  pub reconnect_attempts : ℕ
  pub timers : List ℕ
  pub sent : List Sent

-- The hook when its component is mounted, also after a reload of the page: the queue is read from the
-- browser's storage, and the numbers start again at 0.
unfoldable pub mount : Text → Text → Text → Browser → Hook
unfolding open_queue
mount doc_id access_token client_id browser = record {
  doc_id = doc_id;
  access_token = access_token;
  client_id = client_id;
  text = [];
  status = connecting;
  presence = [];
  session_id = none;
  doc = none;
  is_open = false;
  queue = open_queue doc_id browser;
  browser = browser;
  client_seq = 0;
  last_seq = 0;
  reconnect_attempts = 0;
  timers = [];
  sent = [];
}

-- The nonce and the time that are drawn for the operation with a number.
pub record Draw : Type 0 where
  pub nonce : Text
  pub now : ℕ

unfoldable pub send : Sent → Hook → Hook
send m h = if h.is_open then record h { sent = h.sent ++ m ∷ [] } else h

abbrev pub join_of : Hook → JoinMessage
join_of h = record {
  doc_id = some h.doc_id;
  token = h.access_token;
  last_seq = h.last_seq;
  client_id = h.client_id;
}

-- `ws.onopen`
unfoldable pub on_open : Hook → Hook
unfolding send
on_open h =
    let h' = record h { is_open = true; reconnect_attempts = 0 } in send (join (join_of h)) h'

unfoldable pub reconnect_delay : ℕ → ℕ
reconnect_delay attempts = min 30000 (1000 * 2 ^ attempts)

unfoldable pub schedule_reconnect : Hook → Hook
unfolding reconnect_delay
schedule_reconnect h = record h {
  timers = h.timers ++ reconnect_delay h.reconnect_attempts ∷ [];
  reconnect_attempts = h.reconnect_attempts + 1;
}

-- `ws.onclose`
unfoldable pub on_socket_close : ℕ → Hook → Hook
unfolding schedule_reconnect
on_socket_close code h =
    let h' = record h { is_open = false } in
    if code == 4001 || code == 4003
    then record h' { status = failed }
    else schedule_reconnect (record h' { status = disconnected })

-- The loop over the operations that were missed.
unfoldable pub apply_missed : List OperationEnvelope → ClientRga → ℕ → ClientRga × ℕ
apply_missed [] d last_seq = (d, last_seq)
apply_missed (e ∷ missed) d last_seq =
    apply_missed missed (client_apply e.op d) (max last_seq e.seq)

abbrev pub as_message : Text → QueuedOperation → OperationMessage
as_message doc_id q = record {
  doc_id = doc_id;
  client_seq = q.client_seq;
  op = q.op;
  vector_clock = [];
  nonce = q.nonce;
}

unfoldable pub resend : List QueuedOperation → Hook → Hook
unfolding send
resend [] h = h
resend (q ∷ queued) h = resend queued (send (operation (as_message h.doc_id q)) h)

unfoldable pub on_join_ack : JoinAck → Hook → Hook
unfolding resend apply_missed
on_join_ack ack h =
    let (d, last_seq) =
      apply_missed ack.missed_ops (client_deserialize ack.nodes ack.site_id 0) h.last_seq in
    let h1 =
      resend (get_all h.queue)
        (record h { session_id = some ack.session_id; doc = some d; last_seq = last_seq }) in
    record h1 { presence = ack.presence; text = client_text d; status = connected }

abbrev without_session : Text → List UserPresence → List UserPresence
without_session id l = filter (λ u. not (u.session_id === id)) l

unfoldable pub on_broadcast : OperationEnvelope → Hook → Hook
on_broadcast e h =
    let h1 = record h { last_seq = max h.last_seq e.seq } in
    elim h.doc [
      | none ↦ h1
      | some d ↦ record h1 {
        doc = some (client_apply e.op d);
        text = client_text (client_apply e.op d);
      }
    ]

unfoldable pub handle_server_message : ServerMessage → Hook → Hook
unfolding on_join_ack on_broadcast
handle_server_message (join_ack ack) h = on_join_ack ack h
handle_server_message (op_ack client_seq server_seq) h =
    let (queue, browser) = acknowledge client_seq h.queue h.browser in
    record h { queue = queue; browser = browser; last_seq = max h.last_seq server_seq }
handle_server_message (broadcast e) h = on_broadcast e h
handle_server_message (presence_update p) h = record h {
  presence = without_session p.session_id h.presence ++ p ∷ [];
}
handle_server_message (user_left id) h = record h { presence = without_session id h.presence }
handle_server_message (error code) h = h

-- `queueRef.current.enqueue(...)` and `send(...)` for the next number
unfoldable pub record_edit : Operation → Draw → Hook → Hook
unfolding send
record_edit op w h =
    let n = h.client_seq + 1 in
    let queued : QueuedOperation = record {
      client_seq = n;
      op = op;
      nonce = w.nonce;
      timestamp = w.now;
      attempts = 1;
    } in
    let (queue, browser) = enqueue queued h.queue h.browser in
    send (operation (as_message h.doc_id queued))
      (record h { client_seq = n; queue = queue; browser = browser })

unfoldable pub hook_insert : ℕ → Text → Draw → Hook → Hook
unfolding record_edit
hook_insert index char w h = elim h.doc [
  | none ↦ h
  | some d ↦
      let (op, d') = local_insert index char d in
      record (record_edit (insert op) w h) { doc = some d'; text = client_text d' }
]

-- Where nothing is deleted the number is used up all the same.
unfoldable pub hook_delete : ℕ → Draw → Hook → Hook
unfolding record_edit
hook_delete index w h = elim h.doc [
  | none ↦ h
  | some d ↦
      let (uid, d') = local_delete index d in
      elim uid [
        | none ↦ record h { doc = some d'; client_seq = h.client_seq + 1 }
        | some u ↦ record (record_edit (delete u) w h) { doc = some d'; text = client_text d' }
      ]
]

unfoldable pub record_edits : List Operation → (ℕ → Draw) → Hook → Hook
unfolding record_edit
record_edits [] w h = h
record_edits (op ∷ ops) w h = record_edits ops w (record_edit op (w (h.client_seq + 1)) h)

unfoldable pub hook_batch_edit : Text → Text → (ℕ → Draw) → Hook → Hook
unfolding record_edits
hook_batch_edit before after w h = elim h.doc [
  | none ↦ h
  | some d ↦
      let (ops, d') = diff_to_operations before after d in
      record (record_edits ops w h) { doc = some d'; text = client_text d' }
]

abbrev after_of : Option ℕ → Option ClientRga → Option Uid
after_of none d = none
after_of (some i) none = none
after_of (some i) (some d) = client_after_uid i d

abbrev text_or_empty : Option Text → Text
text_or_empty none = []
text_or_empty (some t) = t

unfoldable pub send_cursor : Option ℕ → Hook → Hook
unfolding send
send_cursor index h =
    send
      (presence h.doc_id (record {
        session_id = text_or_empty h.session_id;
        cursor = some (record { after_uid = after_of index h.doc; anchor_uid = none });
        is_typing = false;
      }))
      h
