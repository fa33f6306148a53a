-- ===== src/Transport/Visits.antt =====
-- How src/server/transport/websocket-server.ts uses the handlers: `handleJoin` registers closures
-- that it makes for the call, `handleDisconnect` gives back closures that it makes itself.
use sync_engine.Base.{
  ℕ, ◌+◌, ◌<◌, ◌≡◌, refl, sym, subst, Bool-cases, inl, inr, false, ◌==◌, List, [], ◌∷◌, ◌++◌, any,
  length, length-append, arith, if◌then◌else◌, All, All-append,
}
use sync_engine.Base.Text.{Text, ◌===◌}
use sync_engine.Base.Dict.{get}
use sync_engine.Op.{OperationEnvelope}
use sync_engine.Transport.Fanout.Channels.{doc_channel, has_colon}
use sync_engine.Transport.Fanout.Delivery.{
  op_handlers_of, route-op, subscribed_handlers, unsubscribed_handlers, delete_handler-absent,
}
use sync_engine.Transport.Fanout

-- A session joins a document, or a session that joined it disconnects.
pub data Visit : Type 0 where
  joins : Text → Visit
  leaves : Text → Visit

-- `closures` is the number of the next closure.
pub record Closures : Type 0 where
  pub fanout : Fanout.Fanout
  pub closures : ℕ

pub visit : Visit → Closures → Closures
visit (joins doc_id) v = record {
  fanout = Fanout.subscribe_to_document doc_id v.closures (v.closures + 1) v.fanout;
  closures = v.closures + 2;
}
visit (leaves doc_id) v = record {
  fanout = Fanout.unsubscribe_from_document doc_id v.closures (v.closures + 1) v.fanout;
  closures = v.closures + 2;
}

pub visit_all : List Visit → Closures → Closures
visit_all [] v = v
visit_all (x ∷ visits) v = visit_all visits (visit x v)

abbrev pub no_handlers : Closures
no_handlers = record {
  fanout = record {
    op_handlers = [];
    presence_handlers = [];
    user_left_handlers = [];
    user_handlers = [];
    channels = [];
  };
  closures = 0;
}

-- How often the document was joined.
pub joins_of : Text → List Visit → ℕ
joins_of d [] = 0
joins_of d (joins doc_id ∷ visits) = (if doc_id === d then 1 else 0) + joins_of d visits
joins_of d (leaves doc_id ∷ visits) = joins_of d visits

-- The handlers of a document are older than the next closure.
abbrev Older : Text → Closures → Type 0
Older d v = All (λ h. h < v.closures) (op_handlers_of d v.fanout)

older_absent :
    (n : ℕ) (handlers : List ℕ) → All (λ h. h < n) handlers → any (λ k. k == n) handlers ≡ false
unfolding any
older_absent n [] o = refl
older_absent n (k ∷ handlers) o = ground (arith, o, older_absent n handlers o.1)

older_still :
    (n : ℕ) (handlers : List ℕ) → All (λ h. h < n) handlers → All (λ h. h < n + 2) handlers
older_still n [] o = tt
older_still n (k ∷ handlers) o = (omega (arith, o.0), older_still n handlers o.1)

visit-handlers :
    (d : Text) (x : Visit) (v : Closures)
    → Older d v
    → op_handlers_of d (visit x v).fanout ≡ elim x [
      | joins doc_id ↦
          if doc_id === d
          then op_handlers_of d v.fanout ++ v.closures ∷ []
          else op_handlers_of d v.fanout
      | leaves doc_id ↦ op_handlers_of d v.fanout
    ]
unfolding visit
visit-handlers d (joins doc_id) v o = ground (
  arith,
  subscribed_handlers d doc_id v.closures (v.closures + 1) v.fanout,
  older_absent v.closures (op_handlers_of d v.fanout) o,
)
visit-handlers d (leaves doc_id) v o = ground (
  arith,
  unsubscribed_handlers d doc_id v.closures (v.closures + 1) v.fanout,
  delete_handler-absent v.closures (op_handlers_of d v.fanout)
      (older_absent v.closures (op_handlers_of d v.fanout) o),
)

visit-closures : (x : Visit) (v : Closures) → (visit x v).closures ≡ v.closures + 2
unfolding visit
visit-closures (joins doc_id) v = refl
visit-closures (leaves doc_id) v = refl

visit-Older_by :
    (d : Text) (x : Visit) (v : Closures)
    → Older d v
    → All (λ h. h < v.closures + 2) (op_handlers_of d v.fanout)
    → All (λ h. h < v.closures + 2) (op_handlers_of d v.fanout ++ v.closures ∷ [])
    → All (λ h. h < v.closures + 2) (op_handlers_of d (visit x v).fanout)
visit-Older_by d (leaves doc_id) v o kept added =
    subst (All (λ h. h < v.closures + 2)) (sym (visit-handlers d (leaves doc_id) v o)) kept
visit-Older_by d (joins doc_id) v o kept added = elim (Bool-cases (doc_id === d)) [
  | inl same ↦
      let e : op_handlers_of d (visit (joins doc_id) v).fanout
          ≡ op_handlers_of d v.fanout ++ v.closures ∷ [] =
        ground (arith, same, visit-handlers d (joins doc_id) v o) in
      subst (All (λ h. h < v.closures + 2)) (sym e) added
  | inr other ↦
      let e : op_handlers_of d (visit (joins doc_id) v).fanout ≡ op_handlers_of d v.fanout =
        ground (arith, other, visit-handlers d (joins doc_id) v o) in
      subst (All (λ h. h < v.closures + 2)) (sym e) kept
]

visit-Older : (d : Text) (x : Visit) (v : Closures) → Older d v → Older d (visit x v)
visit-Older d x v o =
    let kept = older_still v.closures (op_handlers_of d v.fanout) o in
    let n = (visit x v).closures in
    let e : n ≡ v.closures + 2 = visit-closures x v in
    let added =
      All-append (λ h. h < v.closures + 2) (op_handlers_of d v.fanout) (v.closures ∷ []) kept
        (omega arith, tt) in
    subst (λ k. All (λ h. h < k) (op_handlers_of d (visit x v).fanout)) (sym e)
      (visit-Older_by d x v o kept added)

visit_all-handlers :
    (d : Text) (visits : List Visit) (v : Closures)
    → Older d v
    → length (op_handlers_of d (visit_all visits v).fanout)
      ≡ length (op_handlers_of d v.fanout) + joins_of d visits
unfolding visit_all joins_of
visit_all-handlers d [] v o = omega arith
visit_all-handlers d (joins doc_id ∷ visits) v o = ground (
  arith,
  visit_all-handlers d visits (visit (joins doc_id) v) (visit-Older d (joins doc_id) v o),
  visit-handlers d (joins doc_id) v o,
  length-append (op_handlers_of d v.fanout) (v.closures ∷ []),
)
visit_all-handlers d (leaves doc_id ∷ visits) v o = ground (
  arith,
  visit_all-handlers d visits (visit (leaves doc_id) v) (visit-Older d (leaves doc_id) v o),
  visit-handlers d (leaves doc_id) v o,
)

-- Whichever sessions have left by then, an operation that reaches a worker is handed on once for
-- every session that ever joined its document there: the closures that a disconnect gives back are
-- never those that were registered. Identifiers have no colon.
pub handed_on_per_join :
    (d : Text) (visits : List Visit) (e : OperationEnvelope)
    → has_colon d ≡ false
    → length (Fanout.route (doc_channel d) (Fanout.op e) (visit_all visits no_handlers).fanout)
      ≡ joins_of d visits
unfolding get
handed_on_per_join d visits e plain = ground (
  arith,
  route-op d e (visit_all visits no_handlers).fanout plain,
  visit_all-handlers d visits no_handlers tt,
)
