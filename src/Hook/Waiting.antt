-- ===== src/Hook/Waiting.antt =====
-- The operations that wait for an answer in the queue of src/client/hooks/useCollaborativeDoc.ts:
-- their numbers ascend, and none is above the last that was given out.
use sync_engine.Base.{
  ℕ, ◌+◌, ◌≤◌, ◌<◌, ◌≡◌, inl, inr, Bool, List, [], ◌∷◌, ◌++◌, filter, arith, All, All-append,
  Bool-cases,
}
use sync_engine.OfflineQueue.{QueuedOperation}

abbrev pub UpTo : ℕ → List QueuedOperation → Type 0
UpTo n = All (λ q. q.client_seq ≤ n)

abbrev pub Ascending : List QueuedOperation → Type 0
Ascending [] = Unit
Ascending (q ∷ queue) = All (λ r. q.client_seq < r.client_seq) queue × Ascending queue

abbrev pub Waits : List QueuedOperation → ℕ → Type 0
Waits queue n = UpTo n queue × Ascending queue

pub UpTo-le : (m n : ℕ) (queue : List QueuedOperation) → m ≤ n → UpTo m queue → UpTo n queue
UpTo-le m n [] h u = tt
UpTo-le m n (q ∷ queue) h u = (omega (arith, h, u.0), UpTo-le m n queue h u.1)

above-snoc :
    (n : ℕ) (q : QueuedOperation) (queue : List QueuedOperation)
    → UpTo n queue
    → q.client_seq ≡ n + 1
    → Ascending queue
    → Ascending (queue ++ q ∷ [])
above-snoc n q [] u e a = (tt, tt)
above-snoc n q (r ∷ queue) u e a = (
  All-append (λ s. r.client_seq < s.client_seq) queue (q ∷ []) a.0 (omega (arith, u.0, e), tt),
  above-snoc n q queue u.1 e a.1,
)

pub Waits-snoc :
    (n : ℕ) (q : QueuedOperation) (queue : List QueuedOperation)
    → q.client_seq ≡ n + 1
    → Waits queue n
    → Waits (queue ++ q ∷ []) (n + 1)
Waits-snoc n q queue e (u, a) = (
  All-append (λ r. r.client_seq ≤ n + 1) queue (q ∷ []) (UpTo-le n (n + 1) queue (omega arith) u)
      (omega (arith, e), tt),
  above-snoc n q queue u e a,
)

pub All-kept :
    (P : QueuedOperation → Type 0) (keep : QueuedOperation → Bool) (queue : List QueuedOperation)
    → All P queue
    → All P (filter keep queue)
unfolding filter
All-kept P keep [] a = tt
All-kept P keep (q ∷ queue) a = elim (Bool-cases (keep q)) [
  | inl kept ↦ rw kept (a.0, All-kept P keep queue a.1)
  | inr dropped ↦ rw dropped (All-kept P keep queue a.1)
]

pub Ascending-kept :
    (keep : QueuedOperation → Bool) (queue : List QueuedOperation)
    → Ascending queue
    → Ascending (filter keep queue)
unfolding filter
Ascending-kept keep [] a = tt
Ascending-kept keep (q ∷ queue) a = elim (Bool-cases (keep q)) [
  | inl kept ↦
      rw kept
        (All-kept (λ r. q.client_seq < r.client_seq) keep queue a.0, Ascending-kept keep queue a.1)
  | inr dropped ↦ rw dropped (Ascending-kept keep queue a.1)
]
