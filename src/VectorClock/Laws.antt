-- ===== src/VectorClock/Laws.antt =====
-- Merging is the pointwise maximum, domination the pointwise order, and fresh identifiers are above
-- all that was seen.
use sync_engine.Base.{
  ℕ, ◌+◌, ◌≤◌, ◌≡◌, refl, ◌≢◌, ◌↔◌, ◌⊎◌, true, none, [], ◌∷◌, max, ltb, arith, if◌then◌else◌,
}
use sync_engine.Base.Text.{Text, ◌===◌, ===_iff, ===_refl}
use sync_engine.Base.Dict.{get, put, get-put}
use sync_engine.Op.{Uid, VectorClock}
use sync_engine.Op.Order.{uid_gt}
use sync_engine.VectorClock.{
  clock_of, merge, dominates, others_seen, is_causally_ready, merge_clocks, merge_vector_clocks,
  max_seen, generate_uid,
}

-- A JavaScript object has each key once.
abbrev pub UniqueKeys : VectorClock → Type 0
UniqueKeys [] = Unit
UniqueKeys ((k, v) ∷ m) = (get k m ≡ none) × UniqueKeys m

clock_of-put :
    (k j : Text) (v : ℕ) (m : VectorClock)
    → clock_of j (put k v m) ≡ (if k === j then v else clock_of j m)
unfolding clock_of
clock_of-put k j v m = ground (arith, get-put k j v m)

clock_of-cons :
    (k j : Text) (v : ℕ) (m : VectorClock)
    → clock_of j ((k, v) ∷ m) ≡ (if k === j then v else clock_of j m)
unfolding clock_of get
clock_of-cons k j v m = ground arith

clock_of-absent : (j k : Text) (m : VectorClock) → get k m ≡ none → k ≡ j → clock_of j m ≡ 0
unfolding clock_of
clock_of-absent j k m h e = ground arith

-- After a merge each site stands at the maximum of the two clocks.
pub clock_of-merge :
    (site : Text) (clock remote : VectorClock)
    → UniqueKeys remote
    → clock_of site (merge clock remote) ≡ max (clock_of site clock) (clock_of site remote)
unfolding merge
clock_of-merge site clock [] u = unfold clock_of get in omega arith
clock_of-merge site clock ((k, v) ∷ m) u = ground (
  arith,
  clock_of-merge site (if ltb (clock_of k clock) v then put k v clock else clock) m,
  clock_of-put k site v clock,
  clock_of-cons k site v m,
  clock_of-absent site k m,
  ===_iff k site,
)

clock_of-merge_clocks :
    (site : Text) (a b : VectorClock)
    → UniqueKeys b
    → clock_of site (merge_clocks a b) ≡ max (clock_of site a) (clock_of site b)
unfolding merge_clocks
clock_of-merge_clocks site a [] u = unfold clock_of get in omega arith
clock_of-merge_clocks site a ((k, v) ∷ m) u = ground (
  arith,
  clock_of-merge_clocks site (put k (max (clock_of k a) v) a) m,
  clock_of-put k site (max (clock_of k a) v) a,
  clock_of-cons k site v m,
  clock_of-absent site k m,
  ===_iff k site,
)

merge_vector_clocks-eq : (a b : VectorClock) → merge_vector_clocks a b ≡ merge_clocks a b
unfolding merge_vector_clocks merge_clocks
merge_vector_clocks-eq a [] = refl
merge_vector_clocks-eq a ((k, v) ∷ m) = merge_vector_clocks-eq (put k (max (clock_of k a) v) a) m

-- The three merges agree at every site, and do not depend on the order of their arguments.
pub merges_agree :
    (site : Text) (a b : VectorClock)
    → UniqueKeys a
    → UniqueKeys b
    → (clock_of site (merge_clocks a b) ≡ clock_of site (merge a b))
      × (clock_of site (merge_vector_clocks a b) ≡ clock_of site (merge a b))
      × (clock_of site (merge a b) ≡ clock_of site (merge b a))
merges_agree site a b ua ub = ground (
  arith,
  merge_vector_clocks-eq a b,
  clock_of-merge_clocks site a b,
  clock_of-merge site a b,
  clock_of-merge site b a,
)

-- The rest of a clock is below what the whole clock is below.
tail_below :
    (bound : Text → ℕ) (k site : Text) (v : ℕ) (m : VectorClock)
    → get k m ≡ none
    → clock_of site ((k, v) ∷ m) ≤ bound site
    → clock_of site m ≤ bound site
tail_below bound k site v m u h =
    ground (arith, clock_of-cons k site v m, clock_of-absent site k m, ===_iff k site)

head_below :
    (bound : ℕ) (k : Text) (v : ℕ) (m : VectorClock) → clock_of k ((k, v) ∷ m) ≤ bound → v ≤ bound
head_below bound k v m h = ground (arith, clock_of-cons k k v m, ===_refl k)

dominates_sound :
    (clock m : VectorClock) (site : Text)
    → dominates clock m ≡ true
    → clock_of site m ≤ clock_of site clock
unfolding dominates get
dominates_sound clock [] site h = omega arith
dominates_sound clock ((k, v) ∷ m) site h =
    ground (arith, dominates_sound clock m site, clock_of-cons k site v m, ===_iff k site)

dominates_complete :
    (clock m : VectorClock)
    → UniqueKeys m
    → ((site : Text) → clock_of site m ≤ clock_of site clock)
    → dominates clock m ≡ true
unfolding dominates
dominates_complete clock [] u h = refl
dominates_complete clock ((k, v) ∷ m) u h =
    let rest =
      dominates_complete clock m u.1
        (λ site. tail_below (λ s. clock_of s clock) k site v m u.0 (h site)) in
    let here = head_below (clock_of k clock) k v m (h k) in ground arith

-- `dominates` decides the pointwise order of two clocks.
pub dominates_iff :
    (clock other : VectorClock)
    → UniqueKeys other
    → (dominates clock other ≡ true) ↔ ((site : Text) → clock_of site other ≤ clock_of site clock)
dominates_iff clock other u =
    (λ h site. dominates_sound clock other site h, dominates_complete clock other u)

others_sound :
    (clock : VectorClock) (sender : Text) (m : VectorClock) (site : Text)
    → others_seen clock sender m ≡ true
    → site ≢ sender
    → clock_of site m ≤ clock_of site clock
unfolding others_seen get
others_sound clock sender [] site h ne = omega arith
others_sound clock sender ((k, v) ∷ m) site h ne = ground (
  arith,
  others_sound clock sender m site,
  clock_of-cons k site v m,
  ===_iff k site,
  ===_iff k sender,
)

others_complete :
    (clock : VectorClock) (sender : Text) (m : VectorClock)
    → UniqueKeys m
    → ((site : Text) → site ≢ sender → clock_of site m ≤ clock_of site clock)
    → others_seen clock sender m ≡ true
unfolding others_seen
others_complete clock sender [] u h = refl
others_complete clock sender ((k, v) ∷ m) u h =
    let rest =
      others_complete clock sender m u.1
        (λ site ne. tail_below (λ s. clock_of s clock) k site v m u.0 (h site ne)) in
    let here = λ (ne : k ≢ sender). head_below (clock_of k clock) k v m (h k ne) in
    ground (arith, ===_iff k sender, here)

ready_split :
    (clock : VectorClock) (sender : Text) (op_clock : ℕ) (m : VectorClock)
    → is_causally_ready clock sender op_clock m ≡ true
    → (op_clock ≤ clock_of sender clock + 1) × (others_seen clock sender m ≡ true)
unfolding is_causally_ready
ready_split clock sender op_clock m h = ground arith

ready_join :
    (clock : VectorClock) (sender : Text) (op_clock : ℕ) (m : VectorClock)
    → op_clock ≤ clock_of sender clock + 1
    → others_seen clock sender m ≡ true
    → is_causally_ready clock sender op_clock m ≡ true
unfolding is_causally_ready
ready_join clock sender op_clock m h o = ground arith

-- An operation is ready exactly if its clock is at most one above the sender's local clock and all
-- other sites' clocks are reached: an operation that the sender's clock is past is ready too.
pub is_causally_ready_iff :
    (clock : VectorClock) (sender : Text) (op_clock : ℕ) (op_vector : VectorClock)
    → UniqueKeys op_vector
    → (is_causally_ready clock sender op_clock op_vector ≡ true) ↔ (
        (op_clock ≤ clock_of sender clock + 1)
        × ((site : Text) → site ≢ sender → clock_of site op_vector ≤ clock_of site clock))
is_causally_ready_iff clock sender op_clock op_vector u = (
  λ h.
      let (a, b) = ready_split clock sender op_clock op_vector h in
      (a, λ site ne. others_sound clock sender op_vector site b ne),
  λ h.
      ready_join clock sender op_clock op_vector h.0 (others_complete clock sender op_vector u h.1),
)

max_seen_bounds :
    (local : ℕ) (m : VectorClock) (site : Text)
    → (local ≤ max_seen local m) × (clock_of site m ≤ max_seen local m)
unfolding max_seen clock_of get
max_seen_bounds local [] site = omega arith
max_seen_bounds local ((k, v) ∷ m) site =
    let rest = max_seen_bounds (max local v) m site in ground (arith, clock_of-cons k site v m)

-- A generated identifier is above every identifier whose clock is at most the local clock or the
-- clock of some site in the vector, and the new local clock is its clock.
pub generate_uid_above :
    (site other : Text) (local : ℕ) (vector : VectorClock) (v : Uid)
    → (v.clock ≤ local) ⊎ (v.clock ≤ clock_of other vector)
    → (uid_gt (generate_uid site local vector).0 v ≡ true)
      × ((generate_uid site local vector).0.clock ≡ (generate_uid site local vector).1)
      × ((generate_uid site local vector).0.site_id ≡ site)
generate_uid_above site other local vector v h =
    let bounds = max_seen_bounds local vector other in
    unfold generate_uid uid_gt in (ground arith, refl, refl)
