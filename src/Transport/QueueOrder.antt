-- ===== src/Transport/QueueOrder.antt =====
-- The order in which a session's messages are taken from the queue of
-- src/server/transport/websocket-server.ts.
use sync_engine.Base.{
  take, ◌≡◌, refl, sym, ◌∙◌, ap, subst, Bool, true, false, not, List, [], ◌∷◌, ◌++◌, map, filter,
  arith, ltb, ◌⊎◌, filter-append, append_assoc, append-nil, Bool-cases, inl, inr,
}
use sync_engine.Transport.MessageQueue.{
  ClientMessage, is_operation, Queued, queued, place, QueueEvent, arrives, shifts, QueueState,
  shift, queue_step, queue_run,
}

abbrev messages : List Queued → List ClientMessage
messages queue = map (λ q. q.msg) queue

abbrev not_operation : ClientMessage → Bool
not_operation msg = not (is_operation msg)

-- Operations stand before all others, each entry with the priority of its message.
abbrev Ordered : List Queued → Type 0
Ordered [] = Unit
Ordered (q ∷ queue) =
    (q ≡ queued q.msg)
    × ((is_operation q.msg ≡ true) ⊎ (filter is_operation (messages queue) ≡ []))
    × Ordered queue

place_behind :
    (q r : Queued) (queue : List Queued)
    → ltb q.priority r.priority ≡ false
    → place q (r ∷ queue) ≡ r ∷ place q queue
unfolding place
place_behind q r queue h = ground (arith, h)

place_before :
    (q r : Queued) (queue : List Queued)
    → ltb q.priority r.priority ≡ true
    → place q (r ∷ queue) ≡ q ∷ r ∷ queue
unfolding place
place_before q r queue h = ground (arith, h)

place-operation :
    (m : ClientMessage) (queue : List Queued)
    → is_operation m ≡ true
    → Ordered queue
    → filter is_operation (messages (place (queued m) queue))
      ≡ filter is_operation (messages queue) ++ m ∷ []
unfolding place filter
place-operation m [] h o = ground (arith, h)
place-operation m (q ∷ queue) h o = ground (arith, h, o, place-operation m queue h o.2)

place-operation_others :
    (m : ClientMessage) (queue : List Queued)
    → is_operation m ≡ true
    → Ordered queue
    → filter not_operation (messages (place (queued m) queue))
      ≡ filter not_operation (messages queue)
unfolding place filter
place-operation_others m [] h o = ground (arith, h)
place-operation_others m (q ∷ queue) h o =
    ground (arith, h, o, place-operation_others m queue h o.2)

place-other :
    (m : ClientMessage) (queue : List Queued)
    → is_operation m ≡ false
    → Ordered queue
    → (filter is_operation (messages (place (queued m) queue))
        ≡ filter is_operation (messages queue))
      × (filter not_operation (messages (place (queued m) queue))
          ≡ filter not_operation (messages queue) ++ m ∷ [])
unfolding place filter
place-other m [] h o = ground (arith, h)
place-other m (q ∷ queue) h o = ground (arith, h, o, place-other m queue h o.2)

place-Ordered :
    (m : ClientMessage) (queue : List Queued) → Ordered queue → Ordered (place (queued m) queue)
unfolding place filter
place-Ordered m [] o = elim (Bool-cases (is_operation m)) [
  | inl h ↦ (refl, inl h, tt)
  | inr h ↦ (refl, inr refl, tt)
]
place-Ordered m (q ∷ queue) (e, o, rest) = elim (Bool-cases (is_operation m)) [
  | inl h ↦ elim (Bool-cases (is_operation q.msg)) [
    | inl first ↦
        subst Ordered (sym (place_behind (queued m) q queue (ground (arith, h, e, first))))
          (e, inl first, place-Ordered m queue rest)
    | inr later ↦
        subst Ordered (sym (place_before (queued m) q queue (ground (arith, h, e, later))))
          (refl, inl h, (e, o, rest))
  ]
  | inr h ↦ subst Ordered (sym (place_behind (queued m) q queue (ground (arith, h, e)))) (
    e,
    elim o [
      | inl first ↦ inl first
      | inr none_left ↦ inr (ground (arith, none_left, place-other m queue h rest))
    ],
    place-Ordered m queue rest,
  )
]

-- The messages of some events that arrive, in order.
pub arrivals : List QueueEvent → List ClientMessage
arrivals [] = []
arrivals (arrives m ∷ events) = m ∷ arrivals events
arrivals (shifts ∷ events) = arrivals events

-- All messages of a state, the taken ones first.
abbrev pub all_messages : QueueState → List ClientMessage
all_messages s = s.taken ++ messages s.queue

-- Of the messages that `keep` selects, the events add those that arrive, at the end.
abbrev Extends : (ClientMessage → Bool) → List QueueEvent → QueueState → QueueState → Type 0
Extends keep events s s' =
    filter keep (all_messages s') ≡ filter keep (all_messages s) ++ filter keep (arrivals events)

shift-messages :
    (queue : List Queued) (taken : List ClientMessage)
    → all_messages (shift queue taken) ≡ taken ++ messages queue
unfolding shift
shift-messages [] taken = refl
shift-messages (q ∷ queue) taken = append_assoc taken (q.msg ∷ []) (messages queue)

shift-Ordered :
    (queue : List Queued) (taken : List ClientMessage)
    → Ordered queue
    → Ordered (shift queue taken).queue
unfolding shift
shift-Ordered [] taken o = tt
shift-Ordered (q ∷ queue) taken o = o.2

arrive-Extends :
    (keep : ClientMessage → Bool) (m : ClientMessage) (s : QueueState)
    → filter keep (messages (place (queued m) s.queue))
      ≡ filter keep (messages s.queue) ++ filter keep (m ∷ [])
    → filter keep (s.taken ++ messages (place (queued m) s.queue))
      ≡ filter keep (all_messages s) ++ filter keep (m ∷ [])
arrive-Extends keep m s h = ground (
  arith,
  h,
  filter-append keep s.taken (messages (place (queued m) s.queue)),
  filter-append keep s.taken (messages s.queue),
  append_assoc (filter keep s.taken) (filter keep (messages s.queue)) (filter keep (m ∷ [])),
)

step-Extends :
    (e : QueueEvent) (s : QueueState)
    → Ordered s.queue
    → Extends is_operation (e ∷ []) s (queue_step e s)
      × Extends not_operation (e ∷ []) s (queue_step e s)
      × Ordered (queue_step e s).queue
unfolding queue_step arrivals filter
step-Extends shifts s o = (
  ap (filter is_operation) (shift-messages s.queue s.taken) ∙ sym (append-nil _),
  ap (filter not_operation) (shift-messages s.queue s.taken) ∙ sym (append-nil _),
  shift-Ordered s.queue s.taken o,
)
step-Extends (arrives m) s o = elim (Bool-cases (is_operation m)) [
  | inl h ↦ (
    arrive-Extends is_operation m s (ground (arith, h, place-operation m s.queue h o)),
    arrive-Extends not_operation m s (
        ground (
          arith,
          h,
          place-operation_others m s.queue h o,
          append-nil (filter not_operation (messages s.queue)),
        )),
    place-Ordered m s.queue o,
  )
  | inr h ↦ (
    arrive-Extends is_operation m s (
        ground (
          arith,
          h,
          place-other m s.queue h o,
          append-nil (filter is_operation (messages s.queue)),
        )),
    arrive-Extends not_operation m s (ground (arith, h, place-other m s.queue h o)),
    place-Ordered m s.queue o,
  )
]

arrivals-cons :
    (e : QueueEvent) (events : List QueueEvent)
    → arrivals (e ∷ events) ≡ arrivals (e ∷ []) ++ arrivals events
unfolding arrivals
arrivals-cons (arrives m) events = refl
arrivals-cons shifts events = refl

extend :
    (keep : ClientMessage → Bool) (e : QueueEvent) (events : List QueueEvent)
    (s s' s'' : QueueState)
    → Extends keep (e ∷ []) s s'
    → Extends keep events s' s''
    → Extends keep (e ∷ events) s s''
extend keep e events s s' s'' h k =
    k
    ∙ ground (
      arith,
      h,
      ap (filter keep) (arrivals-cons e events),
      filter-append keep (arrivals (e ∷ [])) (arrivals events),
      append_assoc (filter keep (all_messages s)) (filter keep (arrivals (e ∷ [])))
          (filter keep (arrivals events)),
    )

run-Extends :
    (events : List QueueEvent) (s : QueueState)
    → Ordered s.queue
    → Extends is_operation events s (queue_run events s)
      × Extends not_operation events s (queue_run events s)
      × Ordered (queue_run events s).queue
unfolding queue_run
run-Extends [] s o = unfold arrivals in unfold filter in (sym (append-nil _), sym (append-nil _), o)
run-Extends (e ∷ events) s o =
    let (first, first', o') = step-Extends e s o in
    let (rest, rest', o'') = run-Extends events (queue_step e s) o' in
    (
      extend is_operation e events s (queue_step e s) (queue_run (e ∷ events) s) first rest,
      extend not_operation e events s (queue_step e s) (queue_run (e ∷ events) s) first' rest',
      o'',
    )

-- The front is the earliest operation that waits, or else the earliest other message.
shift-taken :
    (queue : List Queued) (taken : List ClientMessage)
    → Ordered queue
    → (shift queue taken).taken
      ≡ taken
        ++ take 1 (filter is_operation (messages queue) ++ filter not_operation (messages queue))
unfolding shift filter
shift-taken [] taken o = sym (append-nil taken)
shift-taken (q ∷ queue) taken o = ground (arith, o)

abbrev pub no_messages : QueueState
no_messages = record { queue = []; taken = [] }

-- However messages arrive and are taken, none is lost, taken twice or overtaken by one of its kind:
-- the operations that were taken, followed by those that wait, are the operations that arrived, in
-- the order of their arrival, and so for all other messages. The next message that is taken is the
-- operation that arrived first of those that wait, or the first other message if none waits.
pub queue_fifo :
    (events : List QueueEvent)
    → let s = queue_run events no_messages in
      (filter is_operation (s.taken ++ map (λ q. q.msg) s.queue)
        ≡ filter is_operation (arrivals events))
      × (filter (λ m. not (is_operation m)) (s.taken ++ map (λ q. q.msg) s.queue)
          ≡ filter (λ m. not (is_operation m)) (arrivals events))
      × ((queue_step shifts s).taken
          ≡ s.taken
            ++ take 1 (
                filter is_operation (map (λ q. q.msg) s.queue)
                ++ filter (λ m. not (is_operation m)) (map (λ q. q.msg) s.queue)))
unfolding filter queue_step
queue_fifo events =
    let (first, others, o) = run-Extends events no_messages tt in
    let s = queue_run events no_messages in (first, others, shift-taken s.queue s.taken o)
