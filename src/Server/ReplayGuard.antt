-- ===== src/Server/ReplayGuard.antt =====
-- src/server/security/replay-guard.ts: nonces in Redis, with the operations table behind it.
use sync_engine.Base.{
  ℕ, ◌+◌, ◌-◌, ◌*◌, ◌≡◌, Bool, true, false, not, ◌||◌, Option, none, some, ◌++◌, leb, arith,
  Option-cases, inl, inr,
}
use sync_engine.Base.Text.{Text, codes, ◌===◌, ===_refl}
use sync_engine.Store.{Database, nonce_exists}

-- SET key '1' EX seconds NX in Redis, while no key expires: `none` where the call fails, and then
-- nothing is set; else whether the key was set, which it is exactly if it was not there.
pub record NonceStore : Type 1 where
  pub State : Type 0
  pub holds : Text → State → Bool
  pub set_nx : Text → State → Option Bool × State
  pub answer : (k : Text) (s : State) (b : Bool) → (set_nx k s).0 ≡ some b → b ≡ not (holds k s)
  pub kept :
      (k j : Text) (s : State) (b : Bool)
      → (set_nx k s).0 ≡ some b
      → holds j (set_nx k s).1 ≡ (k === j || holds j s)

-- REDIS_KEYS.replayNonce
abbrev pub replay_nonce : Text → Text → Text
replay_nonce doc_id nonce = codes "replay:" ++ (doc_id ++ (codes ":" ++ nonce))

-- `none` is a table that cannot be read.
abbrev pub fallback : Text → Option Database → Bool
fallback nonce none = true
fallback nonce (some db) = nonce_exists nonce db

module _ (R : NonceStore) where
  unfoldable pub is_replay : Text → Text → Option Database → R.State → Bool × R.State
  is_replay doc_id nonce pg s =
      let (answer, s') = R.set_nx (replay_nonce doc_id nonce) s in
      (elim answer [ some set ↦ not set | none ↦ fallback nonce pg ], s')

  -- After a check in which Redis answered, the next check of the same nonce for the same document
  -- reports a replay. Only should Redis not answer that next check, the table has to hold the nonce
  -- by then or be unreadable.
  pub replay_detected :
      (doc_id nonce : Text) (b : Bool) (pg later : Option Database) (s : R.State)
      → (R.set_nx (replay_nonce doc_id nonce) s).0 ≡ some b
      → ((R.set_nx (replay_nonce doc_id nonce) (is_replay doc_id nonce pg s).1).0 ≡ none
          → fallback nonce later ≡ true)
      → (is_replay doc_id nonce later (is_replay doc_id nonce pg s).1).0 ≡ true
  unfolding is_replay
  replay_detected doc_id nonce b pg later s h k =
      let key = replay_nonce doc_id nonce in
      let s' = (R.set_nx key s).1 in
      elim (Option-cases (R.set_nx key s').0) [
        | inl silent ↦ ground (arith, silent, k silent)
        | inr (set, e) ↦
            ground (arith, e, R.answer key s' set e, R.kept key key s b h, ===_refl key)
      ]

-- `Math.abs(now - opTime) <= windowMs`; `none` is a timestamp that is no date.
unfoldable pub is_timestamp_valid : ℕ → Option ℕ → ℕ → Bool
is_timestamp_valid window_seconds none now = false
is_timestamp_valid window_seconds (some op_time) now =
    leb ((now - op_time) + (op_time - now)) (window_seconds * 1000)
