-- ===== src/Server/RateLimiter.antt =====
-- src/server/sync/rate-limiter.ts: `checkRateLimit`, two counters for each user in Redis.
use sync_engine.Base.{
  ℕ, suc, ◌+◌, ◌/◌, ◌≤◌, ◌≡◌, Bool, true, false, ◌&&◌, Option, none, some, List, [], ◌∷◌, ◌++◌, ltb,
  max, arith, if◌then◌else◌,
}
use sync_engine.Base.Text.{Text, codes, ◌===◌, ===_iff}
use sync_engine.Op.{decimal}

-- Counters in Redis, as long as none of them expires: INCR adds one to a counter and answers it,
-- EXPIRE changes none.
pub record Counters : Type 1 where
  pub State : Type 0
  pub count : Text → State → ℕ
  pub incr : Text → State → ℕ × State
  pub expire : Text → ℕ → State → State
  pub incr-answer : (k : Text) (s : State) → (incr k s).0 ≡ suc (count k s)
  pub incr-count :
      (k j : Text) (s : State)
      → count j (incr k s).1 ≡ (if k === j then suc (count j s) else count j s)
  pub expire-count : (k j : Text) (t : ℕ) (s : State) → count j (expire k t s) ≡ count j s

pub record RateLimitResult : Type 0 where
  pub allowed : Bool
  pub retry_after_ms : Option ℕ

pub record Limits : Type 0 where
  pub per_second : ℕ
  pub per_minute : ℕ

abbrev pub per_sec_key : Text → ℕ → Text
per_sec_key user now = codes "rl:" ++ (user ++ (codes ":s:" ++ decimal (now / 1000)))

abbrev pub per_min_key : Text → ℕ → Text
per_min_key user now = codes "rl:" ++ (user ++ (codes ":m:" ++ decimal (now / 60000)))

abbrev pub judged : Limits → ℕ → ℕ → RateLimitResult
judged limits per_sec per_min =
    if ltb limits.per_second per_sec
    then record { allowed = false; retry_after_ms = some 1000 }
    else if ltb limits.per_minute per_min
    then record { allowed = false; retry_after_ms = some 60000 }
    else record { allowed = true; retry_after_ms = none }

module _ (R : Counters) (limits : Limits) where
  -- `now` is `Date.now()`; the pipeline gives its results.
  unfoldable pub check_answered : Text → ℕ → R.State → RateLimitResult × R.State
  check_answered user now s =
      let (per_sec, s1) = R.incr (per_sec_key user now) s in
      let s2 = R.expire (per_sec_key user now) 2 s1 in
      let (per_min, s3) = R.incr (per_min_key user now) s2 in
      let s4 = R.expire (per_min_key user now) 120 s3 in (judged limits per_sec per_min, s4)

  -- Without results, `exec` having given null, the call is allowed.
  unfoldable pub check_rate_limit : Bool → Text → ℕ → R.State → RateLimitResult × R.State
  unfolding check_answered
  check_rate_limit answered user now s =
      let checked = check_answered user now s in
      if answered then checked else (record { allowed = true; retry_after_ms = none }, s)

  -- How many of a sequence of calls are allowed, of those that use a key of the first kind.
  unfoldable pub allowed_at : Text → List (Text × ℕ) → R.State → ℕ
  unfolding check_rate_limit
  allowed_at key [] s = 0
  allowed_at key ((user, now) ∷ calls) s =
      let (result, s') = check_rate_limit true user now s in
      (if (per_sec_key user now === key) && result.allowed then 1 else 0) + allowed_at key calls s'

  check_answered-count :
      (key user : Text) (now : ℕ) (s : R.State)
      → (R.count key s ≤ R.count key (check_answered user now s).1)
        × ((per_sec_key user now === key) ≡ true
            → suc (R.count key s) ≤ R.count key (check_answered user now s).1)
        × ((check_answered user now s).0.allowed ≡ true
            → suc (R.count (per_sec_key user now) s) ≤ limits.per_second)
  unfolding check_answered
  check_answered-count key user now s =
      let a = per_sec_key user now in
      let b = per_min_key user now in
      let s1 = (R.incr a s).1 in
      let s2 = R.expire a 2 s1 in
      let s3 = (R.incr b s2).1 in
      ground (
        arith,
        R.incr-answer a s,
        R.incr-count a key s,
        R.expire-count a key 2 s1,
        R.incr-count b key s2,
        R.expire-count b key 120 s3,
      )

  allowed_at-le :
      (key : Text) (calls : List (Text × ℕ)) (s : R.State)
      → allowed_at key calls s + R.count key s ≤ max limits.per_second (R.count key s)
  unfolding allowed_at check_rate_limit
  allowed_at-le key [] s = omega arith
  allowed_at-le key ((user, now) ∷ calls) s = ground (
    arith,
    check_answered-count key user now s,
    allowed_at-le key calls (check_answered user now s).1,
    ===_iff (per_sec_key user now) key,
  )

  -- Of any sequence of calls that Redis answers, by any users and at any times, at most the limit
  -- for a second are allowed among those of one user in one second, as long as no counter expires
  -- in between.
  pub at_most_per_second :
      (user : Text) (now : ℕ) (calls : List (Text × ℕ)) (s : R.State)
      → allowed_at (per_sec_key user now) calls s ≤ limits.per_second
  at_most_per_second user now calls s = omega (arith, allowed_at-le (per_sec_key user now) calls s)
