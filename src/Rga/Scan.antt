-- ===== src/Rga/Scan.antt =====
-- The splices of two inserts commute, whatever the list.
use sync_engine.Base.{◌≡◌, refl, sym, subst, ◌≢◌, true, false, List, [], ◌∷◌, arith}
use sync_engine.Base.Text.{Text}
use sync_engine.Op.{Uid}
use sync_engine.Op.Order.{uid_gt, uid_gt_trans, uid_gt_total, uid_gt_asymm, Uid-discrete}
use sync_engine.Rga.{Node, keyed, scan_insert, insert_after}

-- What is above `c` and not above `b` leaves `b` above `c`.
pub uid_gt_between : (a b c : Uid) → uid_gt a c ≡ true → uid_gt a b ≡ false → uid_gt b c ≡ true
uid_gt_between a b c h k = elim (Uid-discrete a b) [
  | yes p ↦ subst (λ u. uid_gt u c ≡ true) p h
  | no p ↦ uid_gt_trans b a c (uid_gt_total a b p k) h
]

pub scan_insert_comm :
    (x y : Node) (l : List Node)
    → x.uid ≢ y.uid
    → scan_insert x (scan_insert y l) ≡ scan_insert y (scan_insert x l)
unfolding scan_insert
scan_insert_comm x y [] h = ground (arith, uid_gt_total x.uid y.uid h, uid_gt_asymm x.uid y.uid)
scan_insert_comm x y (n ∷ l) h = ground (
  arith,
  scan_insert_comm x y l h,
  uid_gt_total x.uid y.uid h,
  uid_gt_asymm x.uid y.uid,
  uid_gt_between n.uid x.uid y.uid,
  uid_gt_between n.uid y.uid x.uid,
)

module _ (k : Text) (x y : Node) (distinct : x.uid ≢ y.uid) (free : keyed k x ≡ false) where
  scan-insert_after_comm :
      (l : List Node) → scan_insert x (insert_after k y l) ≡ insert_after k y (scan_insert x l)
  unfolding scan_insert insert_after
  scan-insert_after_comm [] = ground arith
  scan-insert_after_comm (n ∷ l) =
      ground (arith, scan-insert_after_comm l, scan_insert_comm x y l distinct)

-- Two nodes of different identifiers, each spliced in behind a node that is no new one.
pub insert_after_comm :
    (k j : Text) (x y : Node) (l : List Node)
    → x.uid ≢ y.uid
    → keyed j x ≡ false
    → keyed k y ≡ false
    → insert_after k x (insert_after j y l) ≡ insert_after j y (insert_after k x l)
unfolding insert_after
insert_after_comm k j x y [] distinct hx hy = refl
insert_after_comm k j x y (n ∷ l) distinct hx hy = ground (
  arith,
  insert_after_comm k j x y l distinct hx hy,
  scan_insert_comm x y l distinct,
  scan-insert_after_comm j x y distinct hx l,
  scan-insert_after_comm k y x (λ e. distinct (sym e)) hy l,
)
