-- ===== src/Op/Key.antt =====
-- `uidKey` names an identifier: two identifiers with one key are equal.
use sync_engine.Base.{
  ℕ, zero, suc, ◌+◌, ◌-◌, ◌*◌, ◌/◌, ◌%◌, ◌<◌, ◌≡◌, ap, sym, ◌∙◌, [], ◌∷◌, ◌++◌, arith, ◌==◌, ltb,
  Bool-cases, inl, inr, append_assoc, if◌then◌else◌,
}
use sync_engine.Base.Text.{Text, codes}
use sync_engine.Op.{Uid, uid_key, decimal, decimal_from}

-- Reads the digits up to the first colon, and returns the number with the text behind the colon.
read_key : ℕ → Text → ℕ × Text
read_key acc [] = (acc, [])
read_key acc (c ∷ s) = if c == 58 then (acc, s) else read_key (acc * 10 + (c - 48)) s

read_digit : (acc k n : ℕ) → (acc * k + n / 10) * 10 + (n % 10 + 48 - 48) ≡ acc * (k * 10) + n
read_digit acc k n = omega arith

-- The digits of `n` in front of a text add `n` to what is read, behind `acc` times a power of ten.
read_key-decimal_from :
    (f n acc : ℕ) (t : Text)
    → n < f
    → (k : ℕ) × (read_key acc (decimal_from f n ++ t) ≡ read_key (acc * k + n) t)
unfolding read_key decimal_from
read_key-decimal_from zero n acc t h = elim h [ ]
read_key-decimal_from (suc f) n acc t h = elim (Bool-cases (ltb n 10)) [
  | inl small ↦ (10, rw small (ground arith))
  | inr big ↦
      let (k, e) = read_key-decimal_from f (n / 10) acc ((n % 10 + 48) ∷ t) (ground arith) in
      (k * 10, rw (big, append_assoc, e) (ground (arith, read_digit acc k n)))
]

read_key-decimal :
    (n acc : ℕ) (t : Text) → (k : ℕ) × (read_key acc (decimal n ++ t) ≡ read_key (acc * k + n) t)
unfolding decimal
read_key-decimal n acc t = read_key-decimal_from (suc n) n acc t (omega arith)

-- The key determines the clock and the site.
read_key-uid_key : (u : Uid) → read_key 0 (uid_key u) ≡ (u.clock, u.site_id)
unfolding uid_key read_key
read_key-uid_key u =
    let (k, e) = read_key-decimal u.clock 0 (codes ":" ++ u.site_id) in rw e (ground arith)

-- Two identifiers with the same map key have the same clock and the same site.
pub uid_key-injective : (u v : Uid) → uid_key u ≡ uid_key v → u ≡ v
uid_key-injective u v h =
    let e = sym (read_key-uid_key u) ∙ ap (read_key 0) h ∙ read_key-uid_key v in
    λ i. record { clock = (e i).0; site_id = (e i).1 }
