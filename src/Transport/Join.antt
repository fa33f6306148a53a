-- ===== src/Transport/Join.antt =====
-- `handleJoin` of src/server/transport/websocket-server.ts: how a socket becomes a session.
use sync_engine.Base.{
  ℕ, Bool, true, false, not, ◌||◌, Option, none, some, List, [], ◌∷◌, ◌++◌, find, ltb, ◌==◌,
  if◌then◌else◌, get_elem?, ◌>>=◌,
}
use sync_engine.Base.Text.{Text, codes, ◌===◌}
use sync_engine.Op.{OperationEnvelope}
use sync_engine.Rga.Stored.{SerializedNode, serialize}
use sync_engine.Store.{Database}
use sync_engine.Documents.{UserRow, Directory, grant_of}
use sync_engine.Server.DocumentCache.{LruCache, CachedDocument, Documents, get_or_load_document}
use sync_engine.Server.OfflineMerger.{get_missed_operations, should_force_full_reload}
use sync_engine.Server.Sessions.{ClientSession, Sessions, register_session, truthy}
use sync_engine.Transport.Presence.{
  UserPresence, PresenceStore, build_initial_presence, update_presence, get_all_presence,
}
use sync_engine.Transport.Visits.{Closures, joins, visit}

-- What the schema of a JOIN lets through.
pub record JoinMessage : Type 0 where
  pub doc_id : Option Text
  pub token : Text
  pub last_seq : ℕ
  pub client_id : Text

pub record JoinAck : Type 0 where
  pub session_id : Text
  pub site_id : Text
  pub seq : ℕ
  pub nodes : List SerializedNode
  pub missed_ops : List OperationEnvelope
  pub presence : List UserPresence

-- An error message and the code that the socket is closed with, or the answer to a JOIN.
pub data JoinOutcome : Type 0 where
  refused : Text → ℕ → JoinOutcome
  welcome : ClientSession → JoinAck → JoinOutcome

-- What a call draws: the time as a number and as a text, an identifier, the socket, and whether the
-- document could be read from the tables.
pub record JoinDraws : Type 0 where
  pub now : ℕ
  pub now_text : Text
  pub id : Text
  pub socket : ℕ
  pub db_answers : Bool

pub record Profile : Type 0 where
  pub display_name : Text
  pub color : Text

abbrev user_of : Text → Directory → Option UserRow
user_of user_id t = find (λ u. u.id === user_id) t.users

abbrev profile : UserRow → Profile
profile u = record { display_name = u.display_name; color = u.color }

-- The permissions joined with the users; whether the document is deleted is not asked.
unfoldable pub member_profile : Text → Text → Directory → Option Profile
unfolding grant_of
member_profile doc_id user_id t = do
  p ← grant_of doc_id user_id t.permissions
  u ← user_of user_id t
  some (profile u)

unfoldable pub user_profile : Text → Directory → Option Profile
user_profile user_id t = do u ← user_of user_id t; some (profile u)

-- `msg.clientId || 'global-client'`
abbrev pub site_of : Text → Text
site_of [] = codes "global-client"
site_of (c ∷ t) = c ∷ t

abbrev pub seq_of : Option CachedDocument → ℕ
seq_of none = 0
seq_of (some c) = c.last_seq

abbrev nodes_of : Option CachedDocument → List SerializedNode
nodes_of none = []
nodes_of (some c) = serialize c.doc

module _ (L : LruCache) (R : PresenceStore) where
  -- `notified` lists the users whose channel was subscribed to, `announced` the presence that was
  -- published. The row of the table of sessions, whose failure the code ignores, is left out.
  pub record Hub : Type 0 where
    pub directory : Directory
    pub db : Database
    pub documents : Documents L
    pub sessions : Sessions
    pub socket_sessions : List (ℕ × Text)
    pub handlers : Closures
    pub presence : R.State
    pub notified : List Text
    pub announced : List (Text × UserPresence)

  -- The operations that a client with `last_seq` has missed; whether it has to load all.
  unfoldable pub missed : Text → ℕ → Database → List OperationEnvelope × Bool
  unfolding get_missed_operations should_force_full_reload
  missed doc_id last_seq db =
      let ops = get_missed_operations doc_id last_seq 5000 db in
      if not (ltb 0 last_seq)
      then ([], false)
      else if should_force_full_reload ops
      then ([], true)
      else (ops, false)

  -- The session of a user, whose notifications are subscribed to as well.
  unfoldable pub open_session :
      JoinMessage → Text → Profile → ℕ → JoinDraws → Hub → ClientSession × Hub
  unfolding register_session
  open_session msg user_id p seq w k =
      let (session, sessions') =
        register_session
          (record {
            user_id = user_id;
            doc_id = msg.doc_id;
            site_id = site_of msg.client_id;
            display_name = p.display_name;
            color = p.color;
            last_seq = seq;
          })
          w.id w.socket w.now k.sessions in
      (
        session,
        record k {
          sessions = sessions';
          socket_sessions = k.socket_sessions ++ (w.socket, session.id) ∷ [];
          notified = k.notified ++ user_id ∷ [];
        },
      )

  -- A session for notifications alone.
  unfoldable pub join_user : JoinMessage → Text → JoinDraws → Hub → JoinOutcome × Hub
  unfolding open_session user_profile
  join_user msg user_id w k = elim (user_profile user_id k.directory) [
    | none ↦ (refused (codes "AUTH_FAILED") 4001, k)
    | some p ↦
        let (session, k') = open_session msg user_id p 0 w k in
        (
          welcome session (record {
            session_id = session.id;
            site_id = site_of msg.client_id;
            seq = 0;
            nodes = [];
            missed_ops = [];
            presence = [];
          }),
          k',
        )
  ]

  -- From the load of the document on, for a user with a permission.
  unfoldable pub enter_document :
      JoinMessage → Text → Text → Profile → JoinDraws → Hub → JoinOutcome × Hub
  unfolding open_session missed get_or_load_document build_initial_presence update_presence
      get_all_presence
  enter_document msg doc_id user_id p w k =
      let (i, documents') = get_or_load_document L doc_id w.now k.db k.documents in
      let entry = get_elem? documents'.entries i in
      let (ops, force) = missed doc_id msg.last_seq k.db in
      let (session, k1) =
        open_session msg user_id p (seq_of entry) w (record k { documents = documents' }) in
      let here = build_initial_presence session.id user_id p.display_name p.color w.now_text in
      let presence' = update_presence R doc_id here k1.presence in
      (
        welcome session (record {
          session_id = session.id;
          site_id = site_of msg.client_id;
          seq = seq_of entry;
          nodes = if force || msg.last_seq == 0 then nodes_of entry else [];
          missed_ops = ops;
          presence = get_all_presence R doc_id presence';
        }),
        record k1 {
          presence = presence';
          handlers = visit (joins doc_id) k1.handlers;
          announced = k1.announced ++ (doc_id, here) ∷ [];
        },
      )

  unfoldable pub join_document : JoinMessage → Text → Text → JoinDraws → Hub → JoinOutcome × Hub
  unfolding enter_document member_profile
  join_document msg doc_id user_id w k = elim (member_profile doc_id user_id k.directory) [
    | none ↦ (refused (codes "PERMISSION_DENIED") 4003, k)
    | some p ↦
        if w.db_answers
        then enter_document msg doc_id user_id p w k
        else (refused (codes "DOCUMENT_NOT_FOUND") 4004, k)
  ]

  -- The user that a token was signed for, or none if it is not valid.
  unfoldable pub handle_join :
      (Text → Option Text) → Option JoinMessage → JoinDraws → Hub → JoinOutcome × Hub
  unfolding join_user join_document
  handle_join verify none w k = (refused (codes "INVALID_OPERATION") 4001, k)
  handle_join verify (some msg) w k = elim (verify msg.token) [
    | none ↦ (refused (codes "AUTH_FAILED") 4001, k)
    | some user_id ↦ elim (truthy msg.doc_id) [
      | none ↦ join_user msg user_id w k
      | some doc_id ↦ join_document msg doc_id user_id w k
    ]
  ]
