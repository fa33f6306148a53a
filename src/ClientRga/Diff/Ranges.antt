-- ===== src/ClientRga/Diff/Ranges.antt =====
-- What a run of local deletes, and a run of local inserts, does to the characters of a replica.
use sync_engine.Base.{
  ℕ, zero, suc, ◌+◌, ◌-◌, ◌≤◌, ◌≡◌, sym, ◌∙◌, ap, List, [], ◌∷◌, ◌++◌, arith, length, take, drop,
  length-append, append_assoc,
}
use sync_engine.Base.Slices.{
  take-drop, length-take_le, length-drop, take-take, drop-take, take-suc, drop-suc,
}
use sync_engine.Base.Text.{Text}
use sync_engine.ClientRga.{ClientRga, local_insert, local_delete}
use sync_engine.ClientRga.Agree.{IsClientWellFormed}
use sync_engine.ClientRga.Diff.{delete_range, insert_range}
use sync_engine.ClientRga.Diff.Kept.{
  contents, local_insert-IsClientWellFormed, local_delete-IsClientWellFormed, local_insert-contents,
  local_delete-contents,
}

length-spliced :
    (k m : ℕ) (l : List Text)
    → k ≤ m
    → m ≤ length l
    → length (take k l ++ drop m l) ≡ length l + k - m
length-spliced k m l h g = omega (
  arith,
  h,
  g,
  length-append (take k l) (drop m l),
  length-take_le k l (omega (arith, h, g)),
  length-drop m l,
)

pub delete_range_lem :
    (first n : ℕ) (d : ClientRga)
    → IsClientWellFormed d
    → first + n ≤ length (contents d)
    → IsClientWellFormed (delete_range first n d).1
      × (contents (delete_range first n d).1
          ≡ take first (contents d) ++ drop (first + n) (contents d))
unfolding delete_range
delete_range_lem first zero d wf h = (
  wf,
  sym (take-drop first (contents d))
      ∙ ap (λ k. take first (contents d) ++ drop k (contents d)) (omega arith),
)
delete_range_lem first (suc n) d wf h =
    let l = contents d in
    let d' = (local_delete (first + n) d).1 in
    let cut = local_delete-contents (first + n) d wf (omega (arith, h)) in
    let enough : first + n ≤ length (contents d') = omega (
      arith,
      h,
      ap length cut,
      length-spliced (first + n) (suc (first + n)) l (omega arith) (omega (arith, h)),
    ) in
    let (wf', done) =
      delete_range_lem first n d' (local_delete-IsClientWellFormed (first + n) d wf) enough in
    (
      wf',
      done
          ∙ ap (λ t. take first t ++ drop (first + n) t) cut
          ∙ ground (
            arith,
            take-take first (first + n) l (drop (suc (first + n)) l) (omega arith)
                (omega (arith, h)),
            drop-take (first + n) l (drop (suc (first + n)) l) (omega (arith, h)),
            ap (λ (k : ℕ). drop k l) (let e : suc (first + n) ≡ first + suc n = omega arith in e),
          ),
    )

pub insert_range_lem :
    (k : ℕ) (chars : List Text) (d : ClientRga)
    → IsClientWellFormed d
    → k ≤ length (contents d)
    → IsClientWellFormed (insert_range k chars d).1
      × (contents (insert_range k chars d).1
          ≡ take k (contents d) ++ (chars ++ drop k (contents d)))
unfolding insert_range
insert_range_lem k [] d wf h = (wf, sym (take-drop k (contents d)))
insert_range_lem k (c ∷ chars) d wf h =
    let l = contents d in
    let d' = (local_insert k c d).1 in
    let put = local_insert-contents k c d wf h in
    let enough : suc k ≤ length (contents d') = omega (
      arith,
      h,
      ap length put,
      length-append (take k l) (c ∷ drop k l),
      length-take_le k l h,
      length-drop k l,
    ) in
    let (wf', done) =
      insert_range_lem (suc k) chars d' (local_insert-IsClientWellFormed k c d wf) enough in
    (
      wf',
      done
          ∙ ap (λ t. take (suc k) t ++ (chars ++ drop (suc k) t)) put
          ∙ ground (
            arith,
            take-suc k l (drop k l) c h,
            drop-suc k l (drop k l) c h,
            append_assoc (take k l) (c ∷ []) (chars ++ drop k l),
          ),
    )
