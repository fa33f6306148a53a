-- ===== src/Base/Slices.antt =====
-- Prefixes and suffixes of lists by position.
use Prim.Native.Nat.{ℕ, zero, suc, ◌+◌, ◌-◌, ◌≤◌}
use mathlib.Core.Path.{◌≡◌, refl, ap, ◌∙◌}
use mathlib.Core.List.{List, [], ◌∷◌, ◌++◌, map}
use native.Mathlib.Omega.{arith}
use sync_engine.Base.Lists.{length, take, drop}

module _ {ℓ} {A : Type ℓ} where
  pub take-drop : (n : ℕ) (l : List A) → take n l ++ drop n l ≡ l
  take-drop zero l = refl
  take-drop (suc n) [] = refl
  take-drop (suc n) (x ∷ l) = ap (λ r. x ∷ r) (take-drop n l)

  pub length-take_le : (n : ℕ) (l : List A) → n ≤ length l → length (take n l) ≡ n
  length-take_le zero l h = refl
  length-take_le (suc n) [] h = absurd (ground arith)
  length-take_le (suc n) (x ∷ l) h = ground (arith, length-take_le n l)

  pub length-drop : (n : ℕ) (l : List A) → length (drop n l) ≡ length l - n
  length-drop zero l = omega arith
  length-drop (suc n) [] = omega arith
  length-drop (suc n) (x ∷ l) = ground (arith, length-drop n l)

  pub take-append : (l r : List A) → take (length l) (l ++ r) ≡ l
  take-append [] r = refl
  take-append (x ∷ l) r = ap (λ t. x ∷ t) (take-append l r)

  pub drop-append : (l r : List A) → drop (length l) (l ++ r) ≡ r
  drop-append [] r = refl
  drop-append (x ∷ l) r = drop-append l r

  -- A cut at or before the end of the first list.
  pub take-take :
      (m n : ℕ) (l r : List A) → m ≤ n → n ≤ length l → take m (take n l ++ r) ≡ take m l
  take-take zero n l r h k = refl
  take-take (suc m) zero l r h k = absurd (ground arith)
  take-take (suc m) (suc n) [] r h k = absurd (ground arith)
  take-take (suc m) (suc n) (x ∷ l) r h k =
      ap (λ t. x ∷ t) (take-take m n l r (ground arith) (ground arith))

  pub drop-take : (n : ℕ) (l r : List A) → n ≤ length l → drop n (take n l ++ r) ≡ r
  drop-take zero l r h = refl
  drop-take (suc n) [] r h = absurd (ground arith)
  drop-take (suc n) (x ∷ l) r h = drop-take n l r (ground arith)

  -- One element behind the cut.
  pub take-suc :
      (n : ℕ) (l r : List A) (x : A)
      → n ≤ length l
      → take (suc n) (take n l ++ x ∷ r) ≡ take n l ++ x ∷ []
  take-suc zero l r x h = refl
  take-suc (suc n) [] r x h = absurd (ground arith)
  take-suc (suc n) (y ∷ l) r x h = ap (λ t. y ∷ t) (take-suc n l r x (ground arith))

  pub drop-suc :
      (n : ℕ) (l r : List A) (x : A) → n ≤ length l → drop (suc n) (take n l ++ x ∷ r) ≡ r
  drop-suc zero l r x h = refl
  drop-suc (suc n) [] r x h = absurd (ground arith)
  drop-suc (suc n) (y ∷ l) r x h = drop-suc n l r x (ground arith)

  pub drop-drop : (m n : ℕ) (l : List A) → drop (m + n) l ≡ drop n (drop m l)
  drop-drop zero n l = ap (λ k. drop k l) (omega arith)
  drop-drop (suc m) n [] = ground (arith, drop-nil (suc m + n), drop-nil n)
    where
      drop-nil : (k : ℕ) → drop {A = A} k [] ≡ []
      drop-nil zero = refl
      drop-nil (suc k) = refl
  drop-drop (suc m) n (x ∷ l) =
      ap (λ k. drop k (x ∷ l)) (let e : suc m + n ≡ suc (m + n) = omega arith in e)
      ∙ drop-drop m n l

module _ {ℓ κ} {A : Type ℓ} {B : Type κ} (f : A → B) where
  pub map-take : (n : ℕ) (l : List A) → map f (take n l) ≡ take n (map f l)
  map-take zero l = refl
  map-take (suc n) [] = refl
  map-take (suc n) (x ∷ l) = ap (λ t. f x ∷ t) (map-take n l)

  pub map-drop : (n : ℕ) (l : List A) → map f (drop n l) ≡ drop n (map f l)
  map-drop zero l = refl
  map-drop (suc n) [] = refl
  map-drop (suc n) (x ∷ l) = map-drop n l

  pub map-append : (l r : List A) → map f (l ++ r) ≡ map f l ++ map f r
  map-append [] r = refl
  map-append (x ∷ l) r = ap (λ t. f x ∷ t) (map-append l r)

  pub length-map : (l : List A) → length (map f l) ≡ length l
  length-map [] = refl
  length-map (x ∷ l) = omega (arith, length-map l)
