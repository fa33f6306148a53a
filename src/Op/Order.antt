-- ===== src/Op/Order.antt =====
-- `compareUID` is a strict total order on identifiers.
use sync_engine.Base.{◌≡◌, ◌≢◌, Bool, true, false, arith}
use native.Mathlib.Decide.{ℕ_discrete}
use sync_engine.Base.Text.{text_lt_irrefl, text_lt_trans, text_lt_total, text_lt_asymm}
use sync_engine.Op.{Uid, compare_uid, is_positive}

-- `compareUID(a, b) > 0`
unfoldable pub uid_gt : Uid → Uid → Bool
unfolding compare_uid
uid_gt a b = is_positive (compare_uid a b)

pub Uid-discrete : Discrete Uid
Uid-discrete = hlevel ℕ_discrete

pub uid_gt_irrefl : (a : Uid) → uid_gt a a ≡ false
unfolding uid_gt
uid_gt_irrefl a = ground (arith, text_lt_irrefl a.site_id)

pub uid_gt_trans : (a b c : Uid) → uid_gt a b ≡ true → uid_gt b c ≡ true → uid_gt a c ≡ true
unfolding uid_gt
uid_gt_trans a b c h k = ground (
  arith,
  text_lt_trans c.site_id b.site_id a.site_id,
  text_lt_asymm a.site_id b.site_id,
  text_lt_asymm b.site_id c.site_id,
  text_lt_asymm a.site_id c.site_id,
  text_lt_asymm c.site_id a.site_id,
  text_lt_trans a.site_id c.site_id b.site_id,
)

uid_ext : (a b : Uid) → a.clock ≡ b.clock → a.site_id ≡ b.site_id → a ≡ b
uid_ext a b p q = λ i. record { clock = p i; site_id = q i }

pub uid_gt_total : (a b : Uid) → a ≢ b → uid_gt a b ≡ false → uid_gt b a ≡ true
unfolding uid_gt
uid_gt_total a b n h = ground (
  arith,
  λ (p : a.clock ≡ b.clock) (q : a.site_id ≡ b.site_id). n (uid_ext a b p q),
  text_lt_total b.site_id a.site_id,
  text_lt_asymm b.site_id a.site_id,
)

pub uid_gt_asymm : (a b : Uid) → uid_gt a b ≡ true → uid_gt b a ≡ false
uid_gt_asymm a b h = ground (arith, uid_gt_trans a b a, uid_gt_irrefl a)
