-- ===== src/Transport/Lifecycle.antt =====
-- Operations, presence, heartbeat and disconnect in src/server/transport/websocket-server.ts.
use sync_engine.Base.{
  ℕ, ◌-◌, ◌*◌, ◌≡◌, Bool, true, false, not, ◌||◌, Option, none, some, [], ◌∷◌, ◌++◌, ltb, arith,
  if◌then◌else◌, Bool-cases, inl, inr,
}
use sync_engine.Base.Text.{Text, codes, ◌===◌}
use sync_engine.Op.{OperationEnvelope}
use sync_engine.Store.{append_operation}
use sync_engine.Documents.{viewer}
use sync_engine.Server.RateLimiter.{Counters, Limits}
use sync_engine.Server.ReplayGuard.{NonceStore}
use sync_engine.Server.DocumentCache.{LruCache}
use sync_engine.Server.Handler.{
  OperationMessage, Drawn, Outcome, accepted, refused, thrown, Worker, handle_operation,
  impersonates, append_params, handle_operation_lem,
}
use sync_engine.Server.Sessions.{ClientSession, remove_session, truthy}
use sync_engine.Transport.Presence.{PresenceStore, remove_presence}
use sync_engine.Transport.Visits.{leaves, visit}
use sync_engine.Transport.Join.{Hub}

-- The answer to the session that sent an operation; none where the handler threw.
pub data Reply : Type 0 where
  op_ack : ℕ → ℕ → Text → Reply
  error : Text → Option ℕ → Reply

abbrev pub reply_to : OperationMessage → Outcome → Option Reply
reply_to msg (accepted e) = some (op_ack msg.client_seq e.seq e.timestamp)
reply_to msg (refused code) = some (error code (some msg.client_seq))
reply_to msg thrown = none

-- `session.role === 'viewer'`
abbrev pub is_viewer : Option Text → Bool
is_viewer none = false
is_viewer (some r) = r === viewer

module _ (C : Counters) (N : NonceStore) (L : LruCache) (limits : Limits) where
  -- The role of a session is a field that the code never writes: it is none for each session.
  unfoldable pub handle_client_operation :
      Option Text
      → ClientSession
      → OperationMessage
      → Drawn
      → Worker C N L limits
      → Option Reply × Worker C N L limits
  unfolding handle_operation
  handle_client_operation role session msg w k =
      let (outcome, k') = handle_operation C N L limits session msg w k in
      if is_viewer role
      then (some (error (codes "PERMISSION_DENIED") none), k)
      else (reply_to msg outcome, k')

  -- Where a client is told that its operation was taken, whatever its role field holds, the
  -- operation's row is in the table under the number that it is told, and the envelope with that
  -- number was published; an insert is of the session's own site.
  pub acked-stored :
      (role : Option Text) (session : ClientSession) (msg : OperationMessage) (w : Drawn)
      (k : Worker C N L limits) (client_seq server_seq : ℕ) (timestamp : Text)
      → let (reply, k') = handle_client_operation role session msg w k in
        reply ≡ some (op_ack client_seq server_seq timestamp)
        → (client_seq ≡ msg.client_seq)
          × (impersonates session msg.op ≡ false)
          × ((e : OperationEnvelope) × (e.seq ≡ server_seq)
              × (e.timestamp ≡ timestamp)
              × (append_operation (append_params session msg) w.op_id w.created_at k.db
                  ≡ some (e, k'.db))
              × (k'.published ≡ k.published ++ e ∷ []))
  unfolding handle_client_operation
  acked-stored role session msg w k client_seq server_seq timestamp h =
      let denied : Bool = is_viewer role in
      elim (Bool-cases denied) [
        | inl reads ↦ absurd (ground (arith, h, reads))
        | inr edits ↦ elim (handle_operation_lem C N L limits session msg w k) [
          | inl (e, taken, own, row, sent) ↦ (
            ground (arith, h, edits, taken),
            own,
            (
              e,
              ground (arith, h, edits, taken),
              ground (arith, h, edits, taken),
              ground (arith, edits, row),
              ground (arith, edits, sent),
            ),
          )
          | inr (inl (e, failed, silent, own, row, same)) ↦
              absurd (ground (arith, h, edits, failed))
          | inr (inr (inl failed, same, silent)) ↦ absurd (ground (arith, h, edits, failed))
          | inr (inr (inr (code, turned_down, same'), same, silent)) ↦
              absurd (ground (arith, h, edits, turned_down))
        ]
      ]

module _ (L : LruCache) (R : PresenceStore) where
  -- With the document, the session and the user that the other sessions are told have left. The
  -- closure that is given back to the user's channel is as new as those of the document, and the row
  -- of the table of sessions, whose failure the code ignores, is left out.
  unfoldable pub handle_disconnect : ClientSession → Hub L R → Option (Text × Text × Text) × Hub L R
  unfolding remove_session remove_presence
  handle_disconnect session k =
      let k1 = record k { sessions = (remove_session session.id k.sessions).1 } in
      elim (truthy session.doc_id) [
        | none ↦ (none, k1)
        | some doc_id ↦ (
          some (doc_id, session.id, session.user_id),
          record k1 {
            presence = remove_presence R doc_id session.id k1.presence;
            handlers = visit (leaves doc_id) k1.handlers;
          },
        )
      ]

-- One round of the heartbeat for a socket with a session: whether the socket is terminated, and the
-- session's flag, which a pong or a PING sets again.
unfoldable pub heartbeat : ℕ → ℕ → ClientSession → Bool × ClientSession
heartbeat timeout_ms now session =
    if not session.is_alive || ltb (timeout_ms * 2) (now - session.last_activity)
    then (true, session)
    else (false, record session { is_alive = false })

unfoldable pub on_pong : ClientSession → ClientSession
on_pong session = record session { is_alive = true }
