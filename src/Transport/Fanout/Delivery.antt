-- ===== src/Transport/Fanout/Delivery.antt =====
-- Which handlers of src/server/fanout/redis-pubsub.ts an operation reaches that was published for a
-- document.
use sync_engine.Base.{
  ℕ, ◌≡◌, refl, true, false, ◌==◌, List, [], ◌∷◌, ◌++◌, any, filter, arith, if◌then◌else◌,
  any-append, Option-cases, inl, inr,
}
use sync_engine.Base.Text.{Text, codes, ◌===◌, ===_refl, ===_iff}
use sync_engine.Base.Dict.{get, get-put, get-remove}
use sync_engine.Op.{OperationEnvelope}
use sync_engine.Transport.Fanout.Channels.{
  doc_channel, has_colon, extract_doc_id-channel, ends_with-append,
}
use sync_engine.Transport.Fanout

any-subscribed :
    (c : Text) (channels : List Text) → any (λ k. k === c) (Fanout.subscribe c channels) ≡ true
unfolding any
any-subscribed c channels = ground (arith, any-append (λ k. k === c) channels (c ∷ []), ===_refl c)

any-subscribe :
    (c e : Text) (channels : List Text)
    → any (λ k. k === c) channels ≡ true
    → any (λ k. k === c) (Fanout.subscribe e channels) ≡ true
unfolding any
any-subscribe c e channels h = ground (arith, h, any-append (λ k. k === c) channels (e ∷ []))

pub route-op :
    (doc_id : Text) (e : OperationEnvelope) (s : Fanout.Fanout)
    → has_colon doc_id ≡ false
    → Fanout.route (doc_channel doc_id) (Fanout.op e) s
      ≡ Fanout.handlers_in (get doc_id s.op_handlers)
unfolding Fanout.route Fanout.on_op_channel
route-op doc_id e s h = ground (
  arith,
  ends_with-append (codes ":ops") (codes "doc:" ++ doc_id) (λ q. ground arith),
  extract_doc_id-channel (codes "ops") doc_id h,
)

pub delete_handler-absent :
    (h : ℕ) (handlers : List ℕ)
    → any (λ k. k == h) handlers ≡ false
    → Fanout.delete_handler h handlers ≡ handlers
unfolding any filter
delete_handler-absent h [] n = refl
delete_handler-absent h (k ∷ handlers) n = ground (arith, n, delete_handler-absent h handlers)

delete_handler-added :
    (h : ℕ) (handlers : List ℕ)
    → any (λ k. k == h) handlers ≡ false
    → Fanout.delete_handler h (handlers ++ h ∷ []) ≡ handlers
unfolding any filter
delete_handler-added h [] n = ground arith
delete_handler-added h (k ∷ handlers) n = ground (arith, n, delete_handler-added h handlers)

-- The handlers of a document.
abbrev pub op_handlers_of : Text → Fanout.Fanout → List ℕ
op_handlers_of doc_id s = Fanout.handlers_in (get doc_id s.op_handlers)

pub subscribed_handlers :
    (d doc_id : Text) (h k : ℕ) (s : Fanout.Fanout)
    → op_handlers_of d (Fanout.subscribe_to_document doc_id h k s)
      ≡ (if doc_id === d then Fanout.add_handler h (op_handlers_of d s) else op_handlers_of d s)
unfolding Fanout.subscribe_to_document Fanout.register
subscribed_handlers d doc_id h k s = ground (
  arith,
  ===_iff doc_id d,
  get-put doc_id d (Fanout.add_handler h (op_handlers_of doc_id s)) s.op_handlers,
)

unregistered_handlers :
    (d doc_id : Text) (h : ℕ) (s : Fanout.Fanout)
    → Fanout.handlers_in (get d (Fanout.unregister doc_id h s.op_handlers))
      ≡ (if doc_id === d then Fanout.delete_handler h (op_handlers_of d s) else op_handlers_of d s)
unfolding Fanout.unregister filter
unregistered_handlers d doc_id h s = elim (Option-cases (get doc_id s.op_handlers)) [
  | inl absent ↦ ground (arith, absent, ===_iff doc_id d)
  | inr (handlers, there) ↦ ground (
    arith,
    there,
    ===_iff doc_id d,
    get-put doc_id d (Fanout.delete_handler h handlers) s.op_handlers,
  )
]

is_empty-nil : (l : List ℕ) → Fanout.is_empty l ≡ true → l ≡ []
is_empty-nil [] e = refl
is_empty-nil (x ∷ l) e = ground (arith, e)

pub unsubscribed_handlers :
    (d doc_id : Text) (h k : ℕ) (s : Fanout.Fanout)
    → op_handlers_of d (Fanout.unsubscribe_from_document doc_id h k s)
      ≡ (if doc_id === d then Fanout.delete_handler h (op_handlers_of d s) else op_handlers_of d s)
unfolding Fanout.unsubscribe_from_document
unsubscribed_handlers d doc_id h k s =
    let m = Fanout.unregister doc_id h s.op_handlers in
    ground (
      arith,
      ===_iff doc_id d,
      unregistered_handlers d doc_id h s,
      unregistered_handlers doc_id doc_id h s,
      ===_refl doc_id,
      get-remove doc_id d m,
      is_empty-nil (Fanout.handlers_in (get doc_id m)),
    )

-- A handler that is registered for a document and then given back leaves the routing of operations
-- as it was: every operation reaches the handlers that it reached before, for this document and for
-- all others. The handler was not registered for the document, and identifiers have no colon.
pub unsubscribe-subscribe :
    (doc_id d : Text) (h k : ℕ) (e : OperationEnvelope) (s : Fanout.Fanout)
    → has_colon d ≡ false
    → any (λ j. j == h) (op_handlers_of doc_id s) ≡ false
    → Fanout.route
        (doc_channel d)
        (Fanout.op e)
        (Fanout.unsubscribe_from_document doc_id h k (Fanout.subscribe_to_document doc_id h k s))
      ≡ Fanout.route (doc_channel d) (Fanout.op e) s
unsubscribe-subscribe doc_id d h k e s plain fresh =
    let s1 = Fanout.subscribe_to_document doc_id h k s in
    let s2 = Fanout.unsubscribe_from_document doc_id h k s1 in
    ground (
      arith,
      fresh,
      route-op d e s plain,
      route-op d e s2 plain,
      unsubscribed_handlers d doc_id h k s1,
      subscribed_handlers d doc_id h k s,
      ===_iff doc_id d,
      delete_handler-added h (op_handlers_of doc_id s),
    )
