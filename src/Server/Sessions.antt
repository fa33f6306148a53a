-- ===== src/Server/Sessions.antt =====
-- src/server/transport/session-manager.ts: the sessions of a worker, found by identifier, by
-- document and by user, and the sending of messages to them.
pub mod Indexed
pub mod Reachable
use sync_engine.Base.{
  ℕ, suc, ◌+◌, ◌-◌, Bool, true, false, not, ◌&&◌, ◌||◌, Option, none, some, List, [], ◌∷◌, ◌++◌,
  map, length, any, filter, leb, ◌==◌, if◌then◌else◌,
}
use sync_engine.Base.Text.{Text, ◌===◌}
use sync_engine.Base.Dict.{Dict, get, put, remove}

pub record ClientSession : Type 0 where
  pub id : Text
  pub user_id : Text
  pub doc_id : Option Text
  pub site_id : Text
  pub display_name : Text
  pub color : Text
  pub socket : ℕ
  pub connected_at : ℕ
  pub send_queue : ℕ
  pub last_seq : ℕ
  pub last_activity : ℕ
  pub is_alive : Bool

pub record SessionParams : Type 0 where
  pub user_id : Text
  pub doc_id : Option Text
  pub site_id : Text
  pub display_name : Text
  pub color : Text
  pub last_seq : ℕ

-- A `Set` of identifiers is a list in insertion order.
pub record Sessions : Type 0 where
  pub sessions : Dict ClientSession
  pub doc_sessions : Dict (List Text)
  pub user_sessions : Dict (List Text)

abbrev pub or_empty : Option (List Text) → List Text
or_empty none = []
or_empty (some ids) = ids

-- `if (session.docId)`: the empty text counts as none.
abbrev pub truthy : Option Text → Option Text
truthy none = none
truthy (some []) = none
truthy (some (c ∷ t)) = some (c ∷ t)

abbrev pub is_id : Text → Text → Bool
is_id j i = i === j

abbrev pub add_id : Text → List Text → List Text
add_id id ids = if any (is_id id) ids then ids else ids ++ id ∷ []

abbrev pub remove_id : Text → List Text → List Text
remove_id id ids = filter (λ i. not (i === id)) ids

-- `if (!m.has(k)) m.set(k, new Set()); m.get(k)!.add(id)`
unfoldable pub add_to : Text → Text → Dict (List Text) → Dict (List Text)
add_to k id m = put k (add_id id (or_empty (get k m))) m

-- `m.get(k)?.delete(id)`, and the key is deleted with the last identifier
abbrev pub put_or_remove : Text → List Text → Dict (List Text) → Dict (List Text)
put_or_remove k [] m = remove k m
put_or_remove k (i ∷ ids) m = put k (i ∷ ids) m

unfoldable pub drop_from : Text → Text → Dict (List Text) → Dict (List Text)
drop_from k id m = elim (get k m) [ none ↦ m | some ids ↦ put_or_remove k (remove_id id ids) m ]

abbrev pub new_session : SessionParams → Text → ℕ → ℕ → ClientSession
new_session p id socket now = record {
  id = id;
  user_id = p.user_id;
  doc_id = p.doc_id;
  site_id = p.site_id;
  display_name = p.display_name;
  color = p.color;
  socket = socket;
  connected_at = now;
  send_queue = 0;
  last_seq = p.last_seq;
  last_activity = now;
  is_alive = true;
}

abbrev pub in_document :
    (Text → Dict (List Text) → Dict (List Text)) → Option Text → Dict (List Text) → Dict (List Text)
in_document f none m = m
in_document f (some doc_id) m = f doc_id m

-- `id` is uuidv4() and `now` is Date.now().
unfoldable pub register_session : SessionParams → Text → ℕ → ℕ → Sessions → ClientSession × Sessions
unfolding add_to
register_session p id socket now s = (
  new_session p id socket now,
  record {
    sessions = put id (new_session p id socket now) s.sessions;
    doc_sessions = in_document (λ d. add_to d id) (truthy p.doc_id) s.doc_sessions;
    user_sessions = add_to p.user_id id s.user_sessions;
  },
)

unfoldable pub remove_session : Text → Sessions → Option ClientSession × Sessions
unfolding drop_from
remove_session id s = elim (get id s.sessions) [
  | none ↦ (none, s)
  | some session ↦ (
    some session,
    record {
      sessions = remove id s.sessions;
      doc_sessions = in_document (λ d. drop_from d id) (truthy session.doc_id) s.doc_sessions;
      user_sessions = drop_from session.user_id id s.user_sessions;
    },
  )
]

unfoldable pub get_session : Text → Sessions → Option ClientSession
get_session id s = get id s.sessions

-- The sessions of a list of identifiers that are there.
unfoldable pub found : List Text → Dict ClientSession → List ClientSession
found [] m = []
found (id ∷ ids) m = let rest = found ids m in elim (get id m) [ none ↦ rest | some s ↦ s ∷ rest ]

unfoldable pub get_document_sessions : Text → Sessions → List ClientSession
unfolding found
get_document_sessions doc_id s = found (or_empty (get doc_id s.doc_sessions)) s.sessions

unfoldable pub get_sessions_for_user : Text → Sessions → List ClientSession
unfolding found
get_sessions_for_user user_id s = found (or_empty (get user_id s.user_sessions)) s.sessions

-- What the sockets have been told: the messages sent, as JSON texts, and the sockets closed with
-- code 4009.
pub record Sockets : Type 0 where
  pub is_open : ℕ → Bool
  pub sent : List (ℕ × Text)
  pub closed : List ℕ

-- A message counts in the queue until the socket calls back.
unfoldable pub send_to_session :
    ℕ → ClientSession → Text → Sessions → Sockets → Bool × Sessions × Sockets
send_to_session queue_max session message s w =
    if not (w.is_open session.socket)
    then (false, s, w)
    else if leb queue_max session.send_queue
    then (false, s, record w { closed = w.closed ++ session.socket ∷ [] })
    else (
      true,
      record s {
        sessions =
            put session.id (record session { send_queue = session.send_queue + 1 }) s.sessions;
      },
      record w { sent = w.sent ++ (session.socket, message) ∷ [] },
    )

abbrev pub is_excluded : Option Text → ClientSession → Bool
is_excluded none session = false
is_excluded (some id) session = session.id === id

unfoldable pub send_to_all :
    ℕ → Option Text → List ClientSession → Text → Sessions → Sockets → Sessions × Sockets
unfolding send_to_session
send_to_all queue_max excluded [] message s w = (s, w)
send_to_all queue_max excluded (session ∷ rest) message s w =
    let skip = is_excluded excluded session in
    let (ok, s', w') = send_to_session queue_max session message s w in
    send_to_all queue_max excluded rest message (if skip then s else s') (if skip then w else w')

unfoldable pub broadcast_to_document :
    ℕ → Text → Text → Option Text → Sessions → Sockets → Sessions × Sockets
unfolding send_to_all get_document_sessions
broadcast_to_document queue_max doc_id message excluded s w =
    send_to_all queue_max excluded (get_document_sessions doc_id s) message s w

unfoldable pub broadcast_to_user : ℕ → Text → Text → Sessions → Sockets → Sessions × Sockets
unfolding send_to_all get_sessions_for_user
broadcast_to_user queue_max user_id message s w =
    send_to_all queue_max none (get_sessions_for_user user_id s) message s w

-- The callback of `socket.send`.
unfoldable pub on_sent : Text → Sessions → Sessions
on_sent id s = elim (get id s.sessions) [
  | none ↦ s
  | some session ↦ record s {
    sessions = put id (record session { send_queue = session.send_queue - 1 }) s.sessions;
  }
]
