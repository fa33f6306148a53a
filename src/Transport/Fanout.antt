-- ===== src/Transport/Fanout.antt =====
-- src/server/fanout/redis-pubsub.ts: the handlers that a worker has registered for the channels of
-- Redis, and the routing of a message to them. A handler is a closure: it is known by a number,
-- which differs for closures that are made at different times.
pub mod Channels
pub mod Delivery
use sync_engine.Base.{
  ℕ, Bool, true, false, not, ◌&&◌, ◌==◌, Option, none, some, List, [], ◌∷◌, ◌++◌, any, filter,
  length, if◌then◌else◌,
}
use sync_engine.Base.Text.{Text, codes, ◌===◌}
use sync_engine.Base.Dict.{Dict, get, put, remove}
use sync_engine.Op.{OperationEnvelope}
use sync_engine.Documents.{NotificationRow}
use sync_engine.Transport.Presence.{UserPresence}
use sync_engine.Transport.Fanout.Channels.{
  doc_channel, presence_channel, user_channel, ends_with, extract_doc_id, user_of_channel,
}

-- What the channels carry.
pub data RedisMessage : Type 0 where
  op : OperationEnvelope → RedisMessage
  presence : UserPresence → RedisMessage
  user_left : Text → Text → Text → RedisMessage
  notification : NotificationRow → RedisMessage

pub record Fanout : Type 0 where
  pub op_handlers : Dict (List ℕ)
  pub presence_handlers : Dict (List ℕ)
  pub user_left_handlers : List ℕ
  pub user_handlers : Dict (List ℕ)
  pub channels : List Text

abbrev pub handlers_in : Option (List ℕ) → List ℕ
handlers_in none = []
handlers_in (some handlers) = handlers

-- `Set.add` and `Set.delete`
abbrev pub add_handler : ℕ → List ℕ → List ℕ
add_handler h handlers = if any (λ k. k == h) handlers then handlers else handlers ++ h ∷ []

abbrev pub delete_handler : ℕ → List ℕ → List ℕ
delete_handler h handlers = filter (λ k. not (k == h)) handlers

abbrev pub subscribe : Text → List Text → List Text
subscribe c channels = if any (λ k. k === c) channels then channels else channels ++ c ∷ []

abbrev pub unsubscribe : Text → List Text → List Text
unsubscribe c channels = filter (λ k. not (k === c)) channels

unfoldable pub register : Text → ℕ → Dict (List ℕ) → Dict (List ℕ)
register k h m = put k (add_handler h (handlers_in (get k m))) m

-- `m.get(k)?.delete(h)`
unfoldable pub unregister : Text → ℕ → Dict (List ℕ) → Dict (List ℕ)
unregister k h m = elim (get k m) [ none ↦ m | some handlers ↦ put k (delete_handler h handlers) m ]

abbrev pub is_empty : List ℕ → Bool
is_empty [] = true
is_empty (h ∷ handlers) = false

-- Once a subscription is made, the router listens to the subscriber.
unfoldable pub subscribe_to_document : Text → ℕ → ℕ → Fanout → Fanout
unfolding register
subscribe_to_document doc_id on_op on_presence s = record s {
  op_handlers = register doc_id on_op s.op_handlers;
  presence_handlers = register doc_id on_presence s.presence_handlers;
  channels = subscribe (presence_channel doc_id) (subscribe (doc_channel doc_id) s.channels);
}

abbrev pub without_document : Text → Fanout → Fanout
without_document doc_id s = record s {
  op_handlers = remove doc_id s.op_handlers;
  presence_handlers = remove doc_id s.presence_handlers;
  channels = unsubscribe (presence_channel doc_id) (unsubscribe (doc_channel doc_id) s.channels);
}

unfoldable pub unsubscribe_from_document : Text → ℕ → ℕ → Fanout → Fanout
unfolding unregister
unsubscribe_from_document doc_id on_op on_presence s =
    let s' = record s {
      op_handlers = unregister doc_id on_op s.op_handlers;
      presence_handlers = unregister doc_id on_presence s.presence_handlers;
    } in
    if is_empty (handlers_in (get doc_id s'.op_handlers))
      && is_empty (handlers_in (get doc_id s'.presence_handlers))
    then without_document doc_id s'
    else s'

unfoldable pub on_user_left : ℕ → Fanout → Fanout
on_user_left h s = record s { user_left_handlers = add_handler h s.user_left_handlers }

unfoldable pub subscribe_to_user : Text → ℕ → Fanout → Fanout
unfolding register
subscribe_to_user user_id on_notification s = record s {
  user_handlers = register user_id on_notification s.user_handlers;
  channels = subscribe (user_channel user_id) s.channels;
}

unfoldable pub unsubscribe_from_user : Text → ℕ → Fanout → Fanout
unfolding unregister
unsubscribe_from_user user_id on_notification s =
    let s' = record s { user_handlers = unregister user_id on_notification s.user_handlers } in
    if is_empty (handlers_in (get user_id s'.user_handlers))
    then record s' {
      user_handlers = remove user_id s'.user_handlers;
      channels = unsubscribe (user_channel user_id) s'.channels;
    }
    else s'

-- The handlers that the router calls for a message on a channel.
unfoldable pub on_op_channel : Text → RedisMessage → Fanout → List ℕ
unfolding extract_doc_id
on_op_channel c (op envelope) s = handlers_in (get (extract_doc_id c (codes ":ops")) s.op_handlers)
on_op_channel c (presence p) s = []
on_op_channel c (user_left session_id user_id doc_id) s = []
on_op_channel c (notification n) s = []

unfoldable pub on_presence_channel : Text → RedisMessage → Fanout → List ℕ
unfolding extract_doc_id
on_presence_channel c (presence p) s =
    handlers_in (get (extract_doc_id c (codes ":presence")) s.presence_handlers)
on_presence_channel c (user_left session_id user_id doc_id) s = s.user_left_handlers
on_presence_channel c (op envelope) s = []
on_presence_channel c (notification n) s = []

unfoldable pub on_user_channel : Text → RedisMessage → Fanout → List ℕ
unfolding user_of_channel
on_user_channel c (notification n) s = handlers_in (get (user_of_channel c) s.user_handlers)
on_user_channel c (op envelope) s = []
on_user_channel c (presence p) s = []
on_user_channel c (user_left session_id user_id doc_id) s = []

unfoldable pub route : Text → RedisMessage → Fanout → List ℕ
unfolding on_op_channel on_presence_channel on_user_channel ends_with
route c m s =
    if ends_with (codes ":ops") c
    then on_op_channel c m s
    else if ends_with (codes ":presence") c
    then on_presence_channel c m s
    else if ends_with (codes ":notifications") c
    then on_user_channel c m s
    else []

-- Redis hands a message to the workers that have subscribed to its channel.
unfoldable pub receive : Text → RedisMessage → Fanout → List ℕ
unfolding route
receive c m s = if any (λ k. k === c) s.channels then route c m s else []
