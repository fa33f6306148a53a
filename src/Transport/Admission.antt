-- ===== src/Transport/Admission.antt =====
-- Who `handleJoin` of src/server/transport/websocket-server.ts lets in, and what a refusal leaves.
use sync_engine.Base.{
  ℕ, ◌≡◌, refl, ◌⊎◌, inl, inr, false, ◌==◌, ◌||◌, get_elem?, Option, none, some, [], arith,
  Bool-cases, Option-cases,
}
use sync_engine.Base.Text.{Text, ===_refl}
use sync_engine.Base.Dict.{get, get-put}
use sync_engine.Store.{Database}
use sync_engine.Documents.{PermissionRow, Directory, grant_of}
use sync_engine.Server.DocumentCache.{LruCache, get_or_load_document}
use sync_engine.Server.Sessions.{
  ClientSession, SessionParams, register_session, new_session, truthy,
}
use sync_engine.Transport.Presence.{PresenceStore}
use sync_engine.Transport.Join

-- The user may open the document that the message names, if it names one.
pub record Admitted (t : Directory) (doc_id : Option Text) (user_id : Text) : Type 0 where
  pub as_member :
      (truthy doc_id ≡ none)
      ⊎ ((d : Text) × (p : PermissionRow) × (truthy doc_id ≡ some d)
          × (grant_of d user_id t.permissions ≡ some p))

member_profile-some :
    (doc_id user_id : Text) (t : Directory) (p : Join.Profile)
    → Join.member_profile doc_id user_id t ≡ some p
    → (row : PermissionRow) × (grant_of doc_id user_id t.permissions ≡ some row)
unfolding Join.member_profile
member_profile-some doc_id user_id t p h =
    elim (Option-cases (grant_of doc_id user_id t.permissions)) [
      | inl absent ↦ absurd (ground (arith, h, absent))
      | inr found ↦ found
    ]

module _ (L : LruCache) (R : PresenceStore) where
  -- A session that was opened for the message.
  pub record Opened (msg : Join.JoinMessage) (session : ClientSession) (ack : Join.JoinAck)
      (k' : Join.Hub L R) : Type 0 where
    pub of_document : session.doc_id ≡ msg.doc_id
    pub of_site : session.site_id ≡ Join.site_of msg.client_id
    pub told_site : ack.site_id ≡ session.site_id
    pub told_session : ack.session_id ≡ session.id
    pub registered : get session.id k'.sessions.sessions ≡ some session
    pub all_or_missed : (ack.nodes ≡ []) ⊎ (ack.missed_ops ≡ [])

  abbrev params : Join.JoinMessage → Text → Join.Profile → ℕ → SessionParams
  params msg user_id p seq = record {
    user_id = user_id;
    doc_id = msg.doc_id;
    site_id = Join.site_of msg.client_id;
    display_name = p.display_name;
    color = p.color;
    last_seq = seq;
  }

  open_session_lem :
      (msg : Join.JoinMessage) (user_id : Text) (p : Join.Profile) (seq : ℕ) (w : Join.JoinDraws)
      (k : Join.Hub L R)
      → let (session, k') = Join.open_session L R msg user_id p seq w k in
        (session.user_id ≡ user_id)
        × (session.doc_id ≡ msg.doc_id)
        × (session.site_id ≡ Join.site_of msg.client_id)
        × (get session.id k'.sessions.sessions ≡ some session)
  unfolding Join.open_session register_session
  open_session_lem msg user_id p seq w k =
      let session = new_session (params msg user_id p seq) w.id w.socket w.now in
      (
        refl,
        refl,
        refl,
        ground (arith, get-put w.id w.id session k.sessions.sessions, ===_refl w.id),
      )

  join_user-Opened :
      (msg : Join.JoinMessage) (user_id : Text) (w : Join.JoinDraws) (k : Join.Hub L R)
      (session : ClientSession) (ack : Join.JoinAck)
      → (Join.join_user L R msg user_id w k).0 ≡ Join.welcome session ack
      → (session.user_id ≡ user_id) × Opened msg session ack (Join.join_user L R msg user_id w k).1
  unfolding Join.join_user
  join_user-Opened msg user_id w k session ack h =
      elim (Option-cases (Join.user_profile user_id k.directory)) [
        | inl unknown ↦ absurd (ground (arith, h, unknown))
        | inr (p, known) ↦
            let made = open_session_lem msg user_id p 0 w k in
            (ground (arith, h, known, made), ground (arith, h, known, made))
      ]

  missed_either :
      (doc_id : Text) (last_seq : ℕ) (db : Database)
      → (((Join.missed L R doc_id last_seq db).1 || last_seq == 0) ≡ false)
        ⊎ ((Join.missed L R doc_id last_seq db).0 ≡ [])
  unfolding Join.missed
  missed_either doc_id last_seq db = ground arith

  enter_document-Opened :
      (msg : Join.JoinMessage) (doc_id user_id : Text) (p : Join.Profile) (w : Join.JoinDraws)
      (k : Join.Hub L R) (session : ClientSession) (ack : Join.JoinAck)
      → (Join.enter_document L R msg doc_id user_id p w k).0 ≡ Join.welcome session ack
      → (session.user_id ≡ user_id)
        × Opened msg session ack (Join.enter_document L R msg doc_id user_id p w k).1
  unfolding Join.enter_document
  enter_document-Opened msg doc_id user_id p w k session ack h =
      let (i, documents') = get_or_load_document L doc_id w.now k.db k.documents in
      let seq = Join.seq_of (get_elem? documents'.entries i) in
      let made = open_session_lem msg user_id p seq w (record k { documents = documents' }) in
      let either = missed_either doc_id msg.last_seq k.db in
      (ground (arith, h, made), ground (arith, h, made, either))

  -- Where a JOIN is answered by a session, its token was valid and the session is that token's
  -- user's; if it names a document, the user has a permission for it. The session has the document
  -- and the site of the message, it is registered, and the answer carries the nodes of the document
  -- or the missed operations, never both.
  pub handle_join-Admitted :
      (verify : Text → Option Text) (raw : Option Join.JoinMessage) (w : Join.JoinDraws)
      (k : Join.Hub L R) (session : ClientSession) (ack : Join.JoinAck)
      → (Join.handle_join L R verify raw w k).0 ≡ Join.welcome session ack
      → (msg : Join.JoinMessage) × (raw ≡ some msg)
        × (verify msg.token ≡ some session.user_id)
        × Admitted k.directory msg.doc_id session.user_id
        × Opened msg session ack (Join.handle_join L R verify raw w k).1
  unfolding Join.handle_join
  handle_join-Admitted verify none w k session ack h = absurd (ground (arith, h))
  handle_join-Admitted verify (some msg) w k session ack h =
      elim (Option-cases (verify msg.token)) [
        | inl bad ↦ absurd (ground (arith, h, bad))
        | inr (user_id, good) ↦ elim (Option-cases (truthy msg.doc_id)) [
          | inl without ↦
              let here =
                join_user-Opened msg user_id w k session ack (ground (arith, h, good, without)) in
              (
                msg,
                refl,
                ground (arith, good, here.0),
                record { as_member = inl without },
                ground (arith, here.1, good, without),
              )
          | inr (doc_id, named) ↦
              elim (Option-cases (Join.member_profile doc_id user_id k.directory)) [
                | inl stranger ↦
                    absurd (unfold Join.join_document in ground (arith, h, good, named, stranger))
                | inr (p, member) ↦ elim (Bool-cases w.db_answers) [
                  | inr silent ↦
                      absurd (
                        unfold Join.join_document in ground (arith, h, good, named, member, silent))
                  | inl answers ↦
                      let here = enter_document-Opened msg doc_id user_id p w k session ack (
                        unfold Join.join_document in
                        ground (arith, h, good, named, member, answers)) in
                      let (row, granted) =
                        member_profile-some doc_id user_id k.directory p member in
                      (
                        msg,
                        refl,
                        ground (arith, good, here.0),
                        record {
                          as_member = inr (doc_id, row, named, ground (arith, granted, here.0));
                        },
                        unfold Join.join_document in
                            ground (arith, here.1, good, named, member, answers),
                      )
                ]
              ]
        ]
      ]

  -- A JOIN that is refused changes nothing, and its socket is closed with one of the codes 4001,
  -- 4003 and 4004.
  pub handle_join-refused :
      (verify : Text → Option Text) (raw : Option Join.JoinMessage) (w : Join.JoinDraws)
      (k : Join.Hub L R) (code : Text) (close : ℕ)
      → (Join.handle_join L R verify raw w k).0 ≡ Join.refused code close
      → ((Join.handle_join L R verify raw w k).1 ≡ k)
        × ((close ≡ 4001) ⊎ (close ≡ 4003) ⊎ (close ≡ 4004))
  unfolding Join.handle_join Join.join_user Join.join_document Join.enter_document
  handle_join-refused verify none w k code close h = (refl, ground (arith, h))
  handle_join-refused verify (some msg) w k code close h = (ground (arith, h), ground (arith, h))
