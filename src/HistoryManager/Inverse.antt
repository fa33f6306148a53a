-- ===== src/HistoryManager/Inverse.antt =====
-- Undo and redo of src/crdt/history-manager.ts against each other.
use sync_engine.Base.{
  ◌≡◌, refl, none, some, List, [], ◌∷◌, ◌++◌, arith, Option-cases, List-cases, inl, inr,
}
use sync_engine.Op.{Operation}
use sync_engine.Rga.{Rga}
use sync_engine.HistoryManager.{History, commit_batch, pop, create_inverse_ops, undo, redo}

pop-append {ℓ} : {A : Type ℓ} (l : List A) (x : A) → pop (l ++ x ∷ []) ≡ some (x, l)
unfolding pop
pop-append [] x = refl
pop-append (y ∷ l) x = ground (arith, pop-append l x)

pop-none {ℓ} : {A : Type ℓ} (l : List A) → pop l ≡ none → l ≡ []
unfolding pop
pop-none [] h = refl
pop-none (y ∷ l) h = ground arith

pop_split {ℓ} :
    {A : Type ℓ} (l : List A) (x : A) (rest : List A) → pop l ≡ some (x, rest) → l ≡ rest ++ x ∷ []
unfolding pop
pop_split [] x rest h = ground arith
pop_split (y ∷ l) x rest h = elim (Option-cases (pop l)) [
  | inl nothing ↦ ground (arith, nothing, pop-none l nothing)
  | inr ((top, below), e) ↦ ground (arith, e, pop_split l top below e)
]

commit_idle : (h : History) → h.current_batch ≡ [] → commit_batch h ≡ h
unfolding commit_batch
commit_idle h e = ground (arith, e)

commit_batch-current : (h : History) → (commit_batch h).current_batch ≡ []
unfolding commit_batch
commit_batch-current h = elim (List-cases h.current_batch) [
  | inl empty ↦ ground (arith, empty)
  | inr (op, ops, full) ↦ ground (arith, full)
]

-- Where undo finds a batch, it answers the inverses of the operations of the last batch, those that
-- were not committed yet included, and a redo at once answers that batch and puts both stacks back
-- as they stood.
pub undo-redo :
    (d : Rga) (h : History) (inverses : List Operation)
    → (undo d h).0 ≡ some inverses
    → (batch : List Operation) × (pop (commit_batch h).undo_stack
        ≡ some (batch, (undo d h).1.undo_stack))
      × (inverses ≡ create_inverse_ops d batch)
      × (redo (undo d h).1 ≡ (some batch, commit_batch h))
unfolding undo redo
undo-redo d h inverses e = elim (Option-cases (pop (commit_batch h).undo_stack)) [
  | inl nothing ↦ absurd (ground (arith, nothing, e))
  | inr ((batch, below), top) ↦ (
    batch,
    ground (arith, top),
    ground (arith, top, e),
    ground (
      arith,
      top,
      pop_split (commit_batch h).undo_stack batch below top,
      pop-append (commit_batch h).redo_stack batch,
      commit_batch-current h,
      commit_idle (undo d h).1,
    ),
  )
]
