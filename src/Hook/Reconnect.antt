-- ===== src/Hook/Reconnect.antt =====
-- A reconnect of src/client/hooks/useCollaborativeDoc.ts, with the answer that `handleJoin` of
-- src/server/transport/websocket-server.ts gives to it.
use sync_engine.Base.{◌≡◌, ◌<◌, inl, inr, Option, some, [], arith, Option-cases, Bool-cases}
use sync_engine.Base.Text.{Text}
use sync_engine.Server.DocumentCache.{LruCache}
use sync_engine.Server.OfflineMerger.{get_missed_operations, should_force_full_reload, total_chars}
use sync_engine.Server.Sessions.{ClientSession, truthy}
use sync_engine.ClientRga.{client_deserialize, empty_client, client_append, client_text}
use sync_engine.Rga.Read.{text_of}
use sync_engine.Transport.Presence.{PresenceStore}
use sync_engine.Transport.Join
use sync_engine.Hook.{Hook, join_of, join_ack, handle_server_message, on_join_ack, apply_missed}

-- An answer without nodes and without operations empties the editor.
empty_answer :
    (ack : Join.JoinAck) (h : Hook)
    → ack.nodes ≡ []
    → ack.missed_ops ≡ []
    → (on_join_ack ack h).text ≡ []
unfolding on_join_ack apply_missed client_deserialize client_append empty_client client_text text_of
empty_answer ack h n m = ground (arith, n, m)

module _ (L : LruCache) (R : PresenceStore) (verify : Text → Option Text) where
  reconnect_answer :
      (msg : Join.JoinMessage) (doc_id : Text) (w : Join.JoinDraws) (k : Join.Hub L R)
      (session : ClientSession) (ack : Join.JoinAck)
      → 0 < msg.last_seq
      → truthy msg.doc_id ≡ some doc_id
      → get_missed_operations doc_id msg.last_seq 5000 k.db ≡ []
      → (Join.handle_join L R verify (some msg) w k).0 ≡ Join.welcome session ack
      → (ack.nodes ≡ []) × (ack.missed_ops ≡ [])
  unfolding Join.handle_join Join.join_document Join.enter_document Join.missed
      should_force_full_reload total_chars
  reconnect_answer msg doc_id w k session ack later named nothing h =
      elim (Option-cases (verify msg.token)) [
        | inl bad ↦ absurd (ground (arith, h, bad))
        | inr (user_id, good) ↦
            elim (Option-cases (Join.member_profile doc_id user_id k.directory)) [
              | inl stranger ↦ absurd (ground (arith, h, good, named, stranger))
              | inr (p, member) ↦ elim (Bool-cases w.db_answers) [
                | inr silent ↦ absurd (ground (arith, h, good, named, member, silent))
                | inl answers ↦ (
                  ground (arith, h, good, named, member, answers, nothing, later),
                  ground (arith, h, good, named, member, answers, nothing, later),
                )
              ]
            ]
      ]

  -- Where an editor opens its socket again after it has seen an operation, and no operation was
  -- stored behind it since, the answer to its JOIN empties the editor, in whichever state it arrives:
  -- whatever the document holds, the text that is shown is empty.
  pub reconnect_empties :
      (opening h : Hook) (w : Join.JoinDraws) (k : Join.Hub L R) (session : ClientSession)
      (ack : Join.JoinAck)
      → 0 < opening.last_seq
      → truthy (some opening.doc_id) ≡ some opening.doc_id
      → get_missed_operations opening.doc_id opening.last_seq 5000 k.db ≡ []
      → (Join.handle_join L R verify (some (join_of opening)) w k).0 ≡ Join.welcome session ack
      → (handle_server_message (join_ack ack) h).text ≡ []
  unfolding handle_server_message
  reconnect_empties opening h w k session ack later named nothing answer =
      let (n, m) =
        reconnect_answer (join_of opening) opening.doc_id w k session ack later named nothing
          answer in
      empty_answer ack h n m
