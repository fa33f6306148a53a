-- ===== src/VectorClock.antt =====
-- src/crdt/vector-clock.ts (`VectorClockManager`, `mergeClocks`), `mergeVectorClocks` and
-- `incrementClock` of src/shared/types/operation.ts, and src/crdt/uid.ts.
pub mod Laws
mod Tests
use sync_engine.Base.{
  ℕ, suc, ◌+◌, ◌-◌, Bool, true, false, not, ◌&&◌, Option, none, some, List, [], ◌∷◌, map, max, ltb,
  leb, ◌==◌, if◌then◌else◌,
}
use sync_engine.Base.Text.{Text, ◌===◌}
use sync_engine.Base.Dict.{Dict, get, put}
use sync_engine.Op.{Uid, VectorClock}

-- `m.get(k) ?? 0`
abbrev pub or_zero : Option ℕ → ℕ
or_zero none = 0
or_zero (some n) = n

-- `VectorClockManager.get`
unfoldable pub clock_of : Text → VectorClock → ℕ
clock_of site clock = or_zero (get site clock)

unfoldable pub tick : Text → VectorClock → VectorClock
unfolding clock_of
tick site clock = put site (clock_of site clock + 1) clock

-- The loop of `merge` over the entries of the remote clock.
unfoldable pub merge : VectorClock → VectorClock → VectorClock
unfolding clock_of
merge clock [] = clock
merge clock ((site, remote) ∷ entries) =
    merge (if ltb (clock_of site clock) remote then put site remote clock else clock) entries

-- The loop of `dominates`.
unfoldable pub dominates : VectorClock → VectorClock → Bool
unfolding clock_of
dominates clock [] = true
dominates clock ((site, remote) ∷ entries) =
    let rest = dominates clock entries in if ltb (clock_of site clock) remote then false else rest

-- The second loop of `isCausallyReady`, which skips the sender's site.
unfoldable pub others_seen : VectorClock → Text → VectorClock → Bool
unfolding clock_of
others_seen clock sender [] = true
others_seen clock sender ((site, remote) ∷ entries) =
    let rest = others_seen clock sender entries in
    if site === sender then rest else if ltb (clock_of site clock) remote then false else rest

-- `opClock - 1` is below zero for the clock 0, and then no local clock is below it.
unfoldable pub is_causally_ready : VectorClock → Text → ℕ → VectorClock → Bool
unfolding clock_of others_seen
is_causally_ready clock sender op_clock op_vector =
    let local = clock_of sender clock in
    if not ((local + 1) == op_clock) && not (op_clock == 1) && ltb (local + 1) op_clock
    then false
    else others_seen clock sender op_vector

-- The loop of `mergeClocks` and of `mergeVectorClocks`: `a` is copied, then overwritten.
unfoldable pub merge_clocks : VectorClock → VectorClock → VectorClock
unfolding clock_of
merge_clocks a [] = a
merge_clocks a ((site, clock) ∷ entries) =
    merge_clocks (put site (max (clock_of site a) clock) a) entries

unfoldable pub merge_vector_clocks : VectorClock → VectorClock → VectorClock
unfolding clock_of
merge_vector_clocks a [] = a
merge_vector_clocks a ((site, clock) ∷ entries) =
    merge_vector_clocks (put site (max (clock_of site a) clock) a) entries

unfoldable pub increment_clock : VectorClock → Text → VectorClock
unfolding clock_of
increment_clock vc site = put site (clock_of site vc + 1) vc

-- `Math.max(localClock, ...Object.values(vectorClock))`
unfoldable pub max_seen : ℕ → VectorClock → ℕ
max_seen local [] = local
max_seen local ((site, clock) ∷ entries) = max_seen (max local clock) entries

unfoldable pub generate_uid : Text → ℕ → VectorClock → Uid × ℕ
unfolding max_seen
generate_uid site local vector =
    let next = max_seen local vector + 1 in (record { clock = next; site_id = site }, next)

unfoldable pub update_lamport_clock : ℕ → ℕ → ℕ
update_lamport_clock local remote = max local remote + 1
