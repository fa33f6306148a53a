-- ===== src/OperationLog/Delivery/Progress.antt =====
-- What a flush does: it applies some of the operations that wait, in an order in which each can be
-- applied, and keeps the others.
use mathlib.Core.List.{Perm, perm_middle}
use mathlib.Core.List.Perm
use sync_engine.Base.{
  ℕ, zero, suc, ◌≡◌, refl, sym, subst, ◌∙◌, ap, List, [], ◌∷◌, ◌++◌, map, arith, ◌⊎◌, Bool-cases,
  List-cases, inl, inr, append_assoc,
}
use sync_engine.Op.{Operation}
use sync_engine.Rga.{Rga, apply_operation}
use sync_engine.Rga.Commute.{Succeeds, after}
use sync_engine.Rga.Converge.{run, AllSucceed}
use sync_engine.OperationLog.{
  PendingOp, OperationLog, record_applied, retried, flush_pass, flush_loop,
}
use sync_engine.OperationLog.Flush.{apply_operation_failed}
use sync_engine.OperationLog.Delivery.{pending_op}

-- From the document `d` and the operations `ps`, some are applied, which leads to `d'`, and `still`
-- are left.
abbrev pub Progress : List PendingOp → Rga → List PendingOp → Rga → Type 0
Progress ps d still d' =
    (done : List Operation) × (d' ≡ run done d)
    × AllSucceed done d
    × Perm (map pending_op ps) (done ++ map pending_op still)

Progress-none : (ps : List PendingOp) (d : Rga) → Progress ps d ps d
unfolding run
Progress-none ps d = ([], refl, tt, Perm.refl (map pending_op ps))

Progress-applied :
    (p : PendingOp) (ps still : List PendingOp) (d d' : Rga)
    → Succeeds p.envelope.op d
    → Progress ps (after p.envelope.op d) still d'
    → Progress (p ∷ ps) d still d'
unfolding run
Progress-applied p ps still d d' h (done, e, all, perm) =
    (p.envelope.op ∷ done, e, (h, all), Perm.cons p.envelope.op perm)

Progress-blocked :
    (p : PendingOp) (ps still : List PendingOp) (d d' : Rga)
    → Progress ps d still d'
    → Progress (p ∷ ps) d (retried p ∷ still) d'
Progress-blocked p ps still d d' (done, e, all, perm) = (
  done,
  e,
  all,
  Perm.trans (Perm.cons p.envelope.op perm) (Perm.symm (perm_middle done (map pending_op still))),
)

pub AllSucceed-append :
    (xs ys : List Operation) (d : Rga)
    → AllSucceed xs d
    → AllSucceed ys (run xs d)
    → AllSucceed (xs ++ ys) d × (run (xs ++ ys) d ≡ run ys (run xs d))
unfolding run
AllSucceed-append [] ys d hx hy = (hy, refl)
AllSucceed-append (x ∷ xs) ys d hx hy =
    let (all, e) = AllSucceed-append xs ys (after x d) hx.1 hy in ((hx.0, all), e)

pub Progress-trans :
    (ps qs rs : List PendingOp) (d d' d'' : Rga)
    → Progress ps d qs d'
    → Progress qs d' rs d''
    → Progress ps d rs d''
Progress-trans ps qs rs d d' d'' (done, e, all, perm) (more, e', all', perm') =
    let (both, f) = AllSucceed-append done more d all (subst (AllSucceed more) e all') in
    (
      done ++ more,
      e' ∙ ap (run more) e ∙ sym f,
      both,
      subst (Perm (map pending_op ps)) (sym (append_assoc done more (map pending_op rs)))
          (Perm.trans perm (Perm.append_left done perm')),
    )

pub flush_pass-Progress :
    (ps : List PendingOp) (log : OperationLog) (d : Rga)
    → Progress ps d (flush_pass ps log d).0 (flush_pass ps log d).2
unfolding flush_pass
flush_pass-Progress [] log d = Progress-none [] d
flush_pass-Progress (p ∷ ps) log d = elim (Bool-cases (apply_operation p.envelope.op d).1) [
  | inl applied ↦ rw applied (
      Progress-applied p ps _ d _ applied
        (flush_pass-Progress ps (record_applied p.envelope log) (after p.envelope.op d)))
  | inr blocked ↦
      rw (blocked, apply_operation_failed p.envelope.op d blocked)
        (Progress-blocked p ps _ d _ (flush_pass-Progress ps log d))
]

-- One round: the log and the document behind a pass over the buffer.
abbrev pub passed_log : OperationLog → Rga → OperationLog
passed_log log d = record (flush_pass log.buffer log d).1 {
  buffer = (flush_pass log.buffer log d).0;
}

abbrev pub passed_doc : OperationLog → Rga → Rga
passed_doc log d = (flush_pass log.buffer log d).2

flush_loop_cases :
    (fuel : ℕ) (log : OperationLog) (d : Rga)
    → (flush_loop (suc fuel) log d ≡ (log, d))
      ⊎ ((flush_loop (suc fuel) log d ≡ (passed_log log d, passed_doc log d))
          ⊎ (flush_loop (suc fuel) log d ≡ flush_loop fuel (passed_log log d) (passed_doc log d)))
unfolding flush_loop
flush_loop_cases fuel log d = elim (List-cases log.buffer) [
  | inl empty ↦ inl (ground (arith, empty))
  | inr (p, ps, full) ↦ elim (Bool-cases (flush_pass (p ∷ ps) log d).3) [
    | inl progress ↦ inr (inr (ground (arith, full, progress)))
    | inr stuck ↦ inr (inl (ground (arith, full, stuck)))
  ]
]

-- What a round keeps, the loop keeps.
pub flush_loop_keeps {ℓ} :
    (P : OperationLog → Rga → Type ℓ)
    → ((log : OperationLog) (d : Rga) → P log d → P (passed_log log d) (passed_doc log d))
    → (fuel : ℕ) (log : OperationLog) (d : Rga) → P log d
    → P (flush_loop fuel log d).0 (flush_loop fuel log d).1
flush_loop_keeps P round zero log d h = unfold flush_loop in h
flush_loop_keeps P round (suc fuel) log d h = elim (flush_loop_cases fuel log d) [
  | inl e ↦ subst (λ r. P r.0 r.1) (sym e) h
  | inr (inl e) ↦ subst (λ r. P r.0 r.1) (sym e) (round log d h)
  | inr (inr e) ↦
      subst (λ r. P r.0 r.1) (sym e)
        (flush_loop_keeps P round fuel (passed_log log d) (passed_doc log d) (round log d h))
]

pub flush_loop-Progress :
    (fuel : ℕ) (log : OperationLog) (d : Rga)
    → Progress log.buffer d (flush_loop fuel log d).0.buffer (flush_loop fuel log d).1
flush_loop-Progress fuel log d =
    flush_loop_keeps (λ log' d'. Progress log.buffer d log'.buffer d')
      (λ log' d' h.
        Progress-trans log.buffer log'.buffer (passed_log log' d').buffer d d' (passed_doc log' d')
          h (flush_pass-Progress log'.buffer log' d'))
      fuel log d (Progress-none log.buffer d)
