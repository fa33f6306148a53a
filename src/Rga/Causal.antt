-- ===== src/Rga/Causal.antt =====
-- Operations that were held back: of a set that can be applied in some order, what is left over
-- cannot all be blocked.
use mathlib.Core.List.{
  Mem, Perm, append_of_mem, mem-append, perm_inv_core, mem-cons_self, mem-cons_of_mem, mem-cons,
  not-mem-nil,
}
use mathlib.Core.List.Perm
use mathlib.Core.Logic.Or
use mathlib.Core.Logic.{∥∥₁_elim}
use sync_engine.Base.{
  ℕ, ◌≡◌, sym, subst, ◌∙◌, ap, false, length-append, List, [], ◌∷◌, ◌++◌, length, arith, All,
  append_assoc,
}
use sync_engine.Op.{Operation}
use sync_engine.Rga.{Rga, apply_operation}
use sync_engine.Rga.Commute.{Succeeds, after}
use sync_engine.Rga.Converge.{Succeeds-after, run, AllSucceed, move_front, AgreeOn}

abbrev pub Blocked : Operation → Rga → Type 0
Blocked op d = (apply_operation op d).1 ≡ false

Succeeds-run :
    (a : Operation) (ops : List Operation) (d : Rga) → Succeeds a d → Succeeds a (run ops d)
unfolding run
Succeeds-run a [] d h = h
Succeeds-run a (b ∷ ops) d h = Succeeds-run a ops (after b d) (Succeeds-after a b d h)

⊥-prop : IsProp ⊥
⊥-prop = hlevel

ℕ-set : IsSet ℕ
ℕ-set = hlevel

clash : (a : Operation) (d : Rga) → Blocked a d → Succeeds a d → ⊥
clash a d b s = ground arith

not_left_over :
    (a : Operation) (bs : List Operation) (d : Rga)
    → All (λ b. Blocked b d) bs
    → Succeeds a d
    → Mem a bs
    → ⊥
not_left_over a [] d h s m = not-mem-nil m
not_left_over a (b ∷ bs) d h s m =
    Or.elim ⊥-prop (mem-cons.0 m) (λ e. clash a d (subst (λ o. Blocked o d) (sym e) h.0) s)
      (λ r. not_left_over a bs d h.1 s r)

-- Where some operations were applied and the rest is blocked, and all of them could have been
-- applied in some order, no rest is left.
pub none-Blocked :
    (order applied rest : List Operation) (d : Rga)
    → AgreeOn order
    → AllSucceed order d
    → AllSucceed applied d
    → Perm order (applied ++ rest)
    → All (λ b. Blocked b (run applied d)) rest
    → length rest ≡ 0
unfolding AgreeOn
none-Blocked [] applied rest d c ho ha p h =
    omega (arith, ap length (Perm.nil-eq p), length-append applied rest)
none-Blocked (a ∷ order) applied rest d c ho ha p h =
    Or.elim (ℕ-set _ _) (mem-append.0 ((Perm.mem_iff p).0 mem-cons_self))
      (λ m. ∥∥₁_elim (append_of_mem m) (ℕ-set _ _) (λ split.
        let (s, t, e) = split in
        let p' : Perm (a ∷ order) (s ++ (a ∷ (t ++ rest))) =
          subst (Perm (a ∷ order)) (ap (λ l. l ++ rest) e ∙ append_assoc s (a ∷ t) rest) p in
        let (ha', moved) =
          move_front a s t d
            (λ b mb. c a b mem-cons_self ((Perm.mem_iff p').1 (mem-append.1 (Or.inl mb)))) ho.0
            (subst (λ l. AllSucceed l d) e ha) in
        none-Blocked order (s ++ t) rest (after a d)
          (λ b o mb mo. c b o (mem-cons_of_mem a mb) (mem-cons_of_mem a mo)) ho.1 ha'
          (subst (Perm order) (sym (append_assoc s t rest))
            (perm_inv_core a [] s order (t ++ rest) p'))
          (subst (λ x. All (λ b. Blocked b x) rest) (ap (λ l. run l d) e ∙ moved) h)))
      (λ m. absurd (not_left_over a rest (run applied d) h (Succeeds-run a applied d ho.0) m))
