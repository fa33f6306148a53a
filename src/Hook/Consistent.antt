-- ===== src/Hook/Consistent.antt =====
-- What the states of an editor of src/client/hooks/useCollaborativeDoc.ts keep: that it shows its
-- replica, and that the operations that wait for an answer have ascending numbers.
use sync_engine.Base.{
  ℕ, ◌+◌, ◌≤◌, ◌≡◌, refl, sym, subst, inl, inr, not, ◌==◌, Option, none, some, List, [], ◌∷◌, ◌++◌,
  arith, Option-cases,
}
use sync_engine.Base.Text.{Text}
use sync_engine.Op.{insert, delete, Operation}
use sync_engine.ClientRga.{
  ClientRga, client_text, client_apply, client_deserialize, local_insert, local_delete,
}
use sync_engine.ClientRga.Diff.{diff_to_operations}
use sync_engine.OfflineQueue.{QueuedOperation, Browser, open_queue, enqueue, acknowledge, get_all}
use sync_engine.Hook.{
  Hook, mount, Draw, operation, as_message, ServerMessage, join_ack, op_ack, broadcast,
  presence_update, user_left, error, send, apply_missed, on_open, on_socket_close,
  schedule_reconnect, resend, on_join_ack, on_broadcast, handle_server_message, record_edit,
  record_edits, hook_insert, hook_delete, hook_batch_edit, send_cursor,
}
use sync_engine.Hook.Waiting.{UpTo, Ascending, Waits, UpTo-le, Waits-snoc, All-kept, Ascending-kept}
use sync_engine.Hook.Steps.{
  HookEvent, opens, closes, receives, types, erases, edits, points, hook_step, hook_run,
}

-- The text is that of the replica, once there is one.
abbrev pub Shows : Option ClientRga → Text → Type 0
Shows none text = Unit
Shows (some d) text = text ≡ client_text d

pub record IsConsistent (h : Hook) : Type 0 where
  pub shows : Shows h.doc h.text
  pub waits : UpTo h.client_seq h.queue.queue × Ascending h.queue.queue

-- Where the replica and its text, the queue and the counter are as before.
kept-IsConsistent :
    (h h' : Hook)
    → h'.doc ≡ h.doc
    → h'.text ≡ h.text
    → h'.queue.queue ≡ h.queue.queue
    → h'.client_seq ≡ h.client_seq
    → IsConsistent h
    → IsConsistent h'
kept-IsConsistent h h' d t q n c = record {
  shows = subst (λ o. Shows o h'.text) (sym d) (subst (Shows h.doc) (sym t) c.shows);
  waits = subst (λ l. Waits l h'.client_seq) (sym q) (subst (Waits h.queue.queue) (sym n) c.waits);
}

-- Where a replica and its text are put in.
put-IsConsistent :
    (h h' : Hook) (d : ClientRga)
    → Waits h.queue.queue h.client_seq
    → h'.doc ≡ some d
    → h'.text ≡ client_text d
    → h'.queue.queue ≡ h.queue.queue
    → h'.client_seq ≡ h.client_seq
    → IsConsistent h'
put-IsConsistent h h' d w e t q n = record {
  shows = subst (λ o. Shows o h'.text) (sym e) t;
  waits = subst (λ l. Waits l h'.client_seq) (sym q) (subst (Waits h.queue.queue) (sym n) w);
}

resend-fields :
    (queued : List QueuedOperation) (h : Hook)
    → ((resend queued h).queue ≡ h.queue)
      × ((resend queued h).client_seq ≡ h.client_seq)
      × ((resend queued h).doc ≡ h.doc)
unfolding resend send
resend-fields [] h = (refl, refl, refl)
resend-fields (q ∷ queued) h =
    ground (arith, resend-fields queued (send (operation (as_message h.doc_id q)) h))

abbrev edited : Operation → Draw → Hook → QueuedOperation
edited op w h = record {
  client_seq = h.client_seq + 1;
  op = op;
  nonce = w.nonce;
  timestamp = w.now;
  attempts = 1;
}

record_edit-fields :
    (op : Operation) (w : Draw) (h : Hook)
    → ((record_edit op w h).queue.queue ≡ h.queue.queue ++ edited op w h ∷ [])
      × ((record_edit op w h).client_seq ≡ h.client_seq + 1)
unfolding record_edit send enqueue
record_edit-fields op w h = ground arith

record_edit-Waits :
    (op : Operation) (w : Draw) (h : Hook)
    → Waits h.queue.queue h.client_seq
    → Waits (record_edit op w h).queue.queue (record_edit op w h).client_seq
record_edit-Waits op w h waits =
    let (q, n) = record_edit-fields op w h in
    subst (λ l. Waits l (record_edit op w h).client_seq) (sym q)
      (subst (Waits (h.queue.queue ++ edited op w h ∷ [])) (sym n)
        (Waits-snoc h.client_seq (edited op w h) h.queue.queue refl waits))

record_edits-Waits :
    (ops : List Operation) (w : ℕ → Draw) (h : Hook)
    → Waits h.queue.queue h.client_seq
    → Waits (record_edits ops w h).queue.queue (record_edits ops w h).client_seq
unfolding record_edits
record_edits-Waits [] w h waits = waits
record_edits-Waits (op ∷ ops) w h waits =
    record_edits-Waits ops w (record_edit op (w (h.client_seq + 1)) h)
      (record_edit-Waits op (w (h.client_seq + 1)) h waits)

message-IsConsistent :
    (m : ServerMessage) (h : Hook) → IsConsistent h → IsConsistent (handle_server_message m h)
unfolding handle_server_message on_join_ack on_broadcast acknowledge
message-IsConsistent (join_ack ack) h c =
    let (d, last_seq) =
      apply_missed ack.missed_ops (client_deserialize ack.nodes ack.site_id 0) h.last_seq in
    let h1 = record h { session_id = some ack.session_id; doc = some d; last_seq = last_seq } in
    let same = resend-fields (get_all h.queue) h1 in
    put-IsConsistent h (on_join_ack ack h) d c.waits same.2 refl (ground (arith, same.0)) same.1
message-IsConsistent (op_ack client_seq server_seq) h c = record {
  shows = c.shows;
  waits = (
    All-kept (λ q. q.client_seq ≤ h.client_seq) (λ o. not (o.client_seq == client_seq))
        h.queue.queue c.waits.0,
    Ascending-kept (λ o. not (o.client_seq == client_seq)) h.queue.queue c.waits.1,
  );
}
message-IsConsistent (broadcast e) h c = elim (Option-cases h.doc) [
  | inl absent ↦
      kept-IsConsistent h (on_broadcast e h) (ground (arith, absent)) (ground (arith, absent))
        (ground (arith, absent)) (ground (arith, absent)) c
  | inr (d, there) ↦
      put-IsConsistent h (on_broadcast e h) (client_apply e.op d) c.waits (ground (arith, there))
        (ground (arith, there)) (ground (arith, there)) (ground (arith, there))
]
message-IsConsistent (presence_update p) h c = record { shows = c.shows; waits = c.waits }
message-IsConsistent (user_left id) h c = record { shows = c.shows; waits = c.waits }
message-IsConsistent (error code) h c = c

insert-IsConsistent :
    (i : ℕ) (char : Text) (w : Draw) (h : Hook)
    → IsConsistent h
    → IsConsistent (hook_insert i char w h)
unfolding hook_insert
insert-IsConsistent i char w h c = elim (Option-cases h.doc) [
  | inl absent ↦ subst IsConsistent (ground (arith, absent)) c
  | inr (d, there) ↦
      let (op, d') = local_insert i char d in
      put-IsConsistent (record_edit (insert op) w h) (hook_insert i char w h) d'
        (record_edit-Waits (insert op) w h c.waits) (ground (arith, there)) (ground (arith, there))
        (ground (arith, there)) (ground (arith, there))
]

nothing_deleted : (i : ℕ) (d : ClientRga) → (local_delete i d).0 ≡ none → (local_delete i d).1 ≡ d
unfolding local_delete
nothing_deleted i d h = ground (arith, h)

delete-IsConsistent :
    (i : ℕ) (w : Draw) (h : Hook) → IsConsistent h → IsConsistent (hook_delete i w h)
unfolding hook_delete
delete-IsConsistent i w h c = elim (Option-cases h.doc) [
  | inl absent ↦ subst IsConsistent (ground (arith, absent)) c
  | inr (d, there) ↦
      let d' = (local_delete i d).1 in
      elim (Option-cases (local_delete i d).0) [
        | inr (u, found) ↦
            put-IsConsistent (record_edit (delete u) w h) (hook_delete i w h) d'
              (record_edit-Waits (delete u) w h c.waits) (ground (arith, there, found))
              (ground (arith, there, found)) (ground (arith, there, found))
              (ground (arith, there, found))
        | inl nothing ↦
            let shown : h.text ≡ client_text d = subst (λ o. Shows o h.text) there c.shows in
            put-IsConsistent (record h { client_seq = h.client_seq + 1 }) (hook_delete i w h) d'
              (
                UpTo-le h.client_seq (h.client_seq + 1) h.queue.queue (omega arith) c.waits.0,
                c.waits.1,
              )
              (ground (arith, there, nothing))
              (ground (arith, there, nothing, shown, nothing_deleted i d nothing))
              (ground (arith, there, nothing)) (ground (arith, there, nothing))
      ]
]

batch-IsConsistent :
    (before after : Text) (w : ℕ → Draw) (h : Hook)
    → IsConsistent h
    → IsConsistent (hook_batch_edit before after w h)
unfolding hook_batch_edit
batch-IsConsistent before after w h c = elim (Option-cases h.doc) [
  | inl absent ↦ subst IsConsistent (ground (arith, absent)) c
  | inr (d, there) ↦
      let (ops, d') = diff_to_operations before after d in
      put-IsConsistent (record_edits ops w h) (hook_batch_edit before after w h) d'
        (record_edits-Waits ops w h c.waits) (ground (arith, there)) (ground (arith, there))
        (ground (arith, there)) (ground (arith, there))
]

hook_step-IsConsistent : (e : HookEvent) (h : Hook) → IsConsistent h → IsConsistent (hook_step e h)
unfolding hook_step
hook_step-IsConsistent opens h c =
    unfold on_open send in
    kept-IsConsistent h (on_open h) (ground arith) (ground arith) (ground arith) (ground arith) c
hook_step-IsConsistent (closes code) h c =
    unfold on_socket_close schedule_reconnect in
    kept-IsConsistent h (on_socket_close code h) (ground arith) (ground arith) (ground arith)
      (ground arith) c
hook_step-IsConsistent (receives m) h c = message-IsConsistent m h c
hook_step-IsConsistent (types i char w) h c = insert-IsConsistent i char w h c
hook_step-IsConsistent (erases i w) h c = delete-IsConsistent i w h c
hook_step-IsConsistent (edits before after w) h c = batch-IsConsistent before after w h c
hook_step-IsConsistent (points i) h c =
    unfold send_cursor send in
    kept-IsConsistent h (send_cursor i h) (ground arith) (ground arith) (ground arith)
      (ground arith) c

-- The events of a run keep the consistency.
hook_run-IsConsistent :
    (events : List HookEvent) (h : Hook) → IsConsistent h → IsConsistent (hook_run events h)
unfolding hook_run
hook_run-IsConsistent [] h c = c
hook_run-IsConsistent (e ∷ events) h c =
    hook_run-IsConsistent events (hook_step e h) (hook_step-IsConsistent e h c)

mount-IsConsistent :
    (doc_id access_token client_id : Text) (b : Browser)
    → (open_queue doc_id b).queue ≡ []
    → IsConsistent (mount doc_id access_token client_id b)
unfolding mount
mount-IsConsistent doc_id access_token client_id b e = record {
  shows = tt;
  waits = subst (λ l. Waits l 0) (sym e) (tt, tt);
}

-- An editor that is mounted while no operation of the document waits in the browser's storage stays
-- consistent whatever happens then, connecting, losing the connection, messages of the server and
-- edits in any order: it shows the text of its replica, and the operations that wait for an answer
-- carry ascending numbers, none above the last number that was given out.
pub hook_run-mount :
    (doc_id access_token client_id : Text) (b : Browser) (events : List HookEvent)
    → (open_queue doc_id b).queue ≡ []
    → IsConsistent (hook_run events (mount doc_id access_token client_id b))
hook_run-mount doc_id access_token client_id b events e =
    hook_run-IsConsistent events (mount doc_id access_token client_id b)
      (mount-IsConsistent doc_id access_token client_id b e)
