-- ===== src/VectorClock/Tests.antt =====
-- Runs after tests/unit/crdt/vector-clock.test.ts and uid.test.ts, and the theorems at them.
use sync_engine.Base.{◌≡◌, refl, [], ◌∷◌}
use sync_engine.Base.Text.{codes, ◌===◌}
use sync_engine.Base.Dict.{get, put}
use sync_engine.Op.{VectorClock}
use sync_engine.VectorClock.{merge}

abbrev left : VectorClock
left = (codes "A", 3) ∷ (codes "B", 1) ∷ []

abbrev right : VectorClock
right = (codes "B", 5) ∷ (codes "C", 2) ∷ []

merge_run : merge left right ≡ (codes "A", 3) ∷ (codes "B", 5) ∷ (codes "C", 2) ∷ []
unfolding merge get put ◌===◌
merge_run = refl
