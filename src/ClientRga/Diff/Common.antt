-- ===== src/ClientRga/Diff/Common.antt =====
-- The common prefix of two lists of code points, and the common suffix through reversed lists.
use sync_engine.Base.{
  ℕ, zero, suc, ◌-◌, ◌≤◌, ◌≡◌, refl, sym, ◌∙◌, ap, List, [], ◌∷◌, ◌++◌, arith, length, take, drop,
  length-append, append_assoc, append-nil,
}
use sync_engine.Base.Text.{Text, ===_iff}
use sync_engine.ClientRga.Diff.{common_prefix, reversed}

pub common_prefix_lem :
    (a b : List Text)
    → (take (common_prefix a b) a ≡ take (common_prefix a b) b)
      × (common_prefix a b ≤ length a)
      × (common_prefix a b ≤ length b)
unfolding common_prefix
common_prefix_lem [] b = (refl, omega arith, omega arith)
common_prefix_lem (x ∷ a) [] = (refl, omega arith, omega arith)
common_prefix_lem (x ∷ a) (y ∷ b) = ground (arith, ===_iff x y, common_prefix_lem a b)

pub length-reversed : (l : List Text) → length (reversed l) ≡ length l
length-reversed [] = refl
length-reversed (x ∷ l) = omega (arith, length-append (reversed l) (x ∷ []), length-reversed l)

reversed-append : (l r : List Text) → reversed (l ++ r) ≡ reversed r ++ reversed l
reversed-append [] r = sym (append-nil (reversed r))
reversed-append (x ∷ l) r =
    ap (λ t. t ++ x ∷ []) (reversed-append l r) ∙ append_assoc (reversed r) (reversed l) (x ∷ [])

reversed-reversed : (l : List Text) → reversed (reversed l) ≡ l
reversed-reversed [] = refl
reversed-reversed (x ∷ l) =
    reversed-append (reversed l) (x ∷ []) ∙ ap (λ t. x ∷ t) (reversed-reversed l)

drop-append_le : (n : ℕ) (l r : List Text) → n ≤ length l → drop n (l ++ r) ≡ drop n l ++ r
drop-append_le zero l r h = refl
drop-append_le (suc n) [] r h = absurd (ground (arith, h))
drop-append_le (suc n) (x ∷ l) r h = drop-append_le n l r (omega (arith, h))

drop-all : (l : List Text) → drop (length l) l ≡ []
drop-all [] = refl
drop-all (x ∷ l) = drop-all l

drop-reversed :
    (s : ℕ) (l : List Text) → s ≤ length l → drop (length l - s) (reversed l) ≡ reversed (take s l)
drop-reversed zero l h =
    ap (λ k. drop k (reversed l)) (omega (arith, length-reversed l)) ∙ drop-all (reversed l)
drop-reversed (suc s) [] h = absurd (ground (arith, h))
drop-reversed (suc s) (x ∷ l) h =
    ap (λ k. drop k (reversed l ++ x ∷ []))
      (let e : suc (length l) - suc s ≡ length l - s = omega arith in e)
    ∙ drop-append_le (length l - s) (reversed l) (x ∷ []) (omega (arith, length-reversed l))
    ∙ ap (λ t. t ++ x ∷ []) (drop-reversed s l (omega (arith, h)))

-- The last elements of two lists, as many as their reversed lists have in common at the front.
pub common_suffix_lem :
    (a b : List Text)
    → let s = common_prefix (reversed a) (reversed b) in
      (drop (length a - s) a ≡ drop (length b - s) b) × (s ≤ length a) × (s ≤ length b)
common_suffix_lem a b =
    let s = common_prefix (reversed a) (reversed b) in
    let (same, in_a, in_b) = common_prefix_lem (reversed a) (reversed b) in
    let cut = λ (l : List Text) (h : s ≤ length (reversed l)). drop-reversed s (reversed l) h in
    (
      ground (
        arith,
        same,
        cut a in_a,
        cut b in_b,
        reversed-reversed a,
        reversed-reversed b,
        length-reversed a,
        length-reversed b,
      ),
      omega (arith, in_a, length-reversed a),
      omega (arith, in_b, length-reversed b),
    )
