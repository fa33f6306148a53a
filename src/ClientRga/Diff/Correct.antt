-- ===== src/ClientRga/Diff/Correct.antt =====
-- The edits that `diffToOperations` of src/client/crdt/client-rga.ts makes lead to the new text.
use sync_engine.Base.{
  ℕ, ◌-◌, ◌≤◌, ◌≡◌, refl, ◌∙◌, ap, List, [], ◌∷◌, ◌++◌, map, filter, arith, length, take, drop,
  length-append,
}
use sync_engine.Base.Slices.{
  take-drop, length-take_le, length-drop, take-take, drop-take, drop-drop,
}
use sync_engine.Base.Text.{Text}
use sync_engine.Rga.{Node, behind_root}
use sync_engine.Rga.Read.{text_of, string_of}
use sync_engine.ClientRga.{ClientRga, client_text}
use sync_engine.ClientRga.Agree.{IsClientWellFormed}
use sync_engine.ClientRga.Editing.{visible}
use sync_engine.ClientRga.Diff.{
  code_points, common_prefix, reversed, delete_range, insert_range, diff_to_operations,
}
use sync_engine.ClientRga.Diff.Kept.{contents}
use sync_engine.ClientRga.Diff.Common.{common_prefix_lem, common_suffix_lem}
use sync_engine.ClientRga.Diff.Ranges.{delete_range_lem, insert_range_lem}

-- `join('')`
abbrev joined : List Text → Text
joined [] = []
joined (c ∷ chars) = c ++ joined chars

joined-code_points : (s : Text) → joined (code_points s) ≡ s
unfolding code_points
joined-code_points [] = refl
joined-code_points (a ∷ []) = refl
joined-code_points (a ∷ b ∷ s) = ground (arith, joined-code_points s, joined-code_points (b ∷ s))

text_of-joined : (l : List Node) → text_of l ≡ joined (map (λ n. string_of n.value) (visible l))
unfolding text_of filter
text_of-joined [] = refl
text_of-joined (n ∷ l) = ground (arith, text_of-joined l)

module _ (old new : List Text) where
  abbrev prefix : ℕ
  prefix = common_prefix old new

  abbrev old_rest : List Text
  old_rest = drop prefix old

  abbrev new_rest : List Text
  new_rest = drop prefix new

  abbrev suffix : ℕ
  suffix = common_prefix (reversed old_rest) (reversed new_rest)

  -- The edits of the code points `old` into `new`.
  edit : ClientRga → ClientRga
  edit d =
      (insert_range prefix (take (length new_rest - suffix) new_rest)
        (delete_range prefix (length old_rest - suffix) d).1).1

  edit_lem :
      (d : ClientRga)
      → IsClientWellFormed d
      → contents d ≡ old
      → IsClientWellFormed (edit d) × (contents (edit d) ≡ new)
  unfolding edit
  edit_lem d wf shown =
      let (same, in_old, in_new) = common_prefix_lem old new in
      let (tail, in_old_rest, in_new_rest) = common_suffix_lem old_rest new_rest in
      let n = length old_rest - suffix in
      let m = length new_rest - suffix in
      let d1 = (delete_range prefix n d).1 in
      let (wf1, cut) =
        delete_range_lem prefix n d wf
          (omega (arith, ap length shown, in_old, length-drop prefix old)) in
      let cut' : contents d1 ≡ take prefix old ++ drop n old_rest =
        ground (arith, cut, shown, drop-drop prefix n old) in
      let enough : prefix ≤ length (contents d1) = omega (
        arith,
        ap length cut',
        length-append (take prefix old) (drop n old_rest),
        length-take_le prefix old in_old,
      ) in
      let (wf2, put) = insert_range_lem prefix (take m new_rest) d1 wf1 enough in
      (
        wf2,
        put
            ∙ ap (λ t. take prefix t ++ (take m new_rest ++ drop prefix t)) cut'
            ∙ ground (
              arith,
              same,
              tail,
              take-take prefix prefix old (drop n old_rest) (omega arith) in_old,
              drop-take prefix old (drop n old_rest) in_old,
              take-drop m new_rest,
              take-drop prefix new,
            ),
      )

-- Where the visible nodes of a replica hold the code points of the text that the editor had, the
-- edits that `diffToOperations` makes for a change of that text leave the replica well-formed and
-- showing exactly the new text, one code point in each visible node.
pub diff_to_operations_lem :
    (before after : Text) (d : ClientRga)
    → IsClientWellFormed d
    → contents d ≡ code_points before
    → let d' = (diff_to_operations before after d).1 in
      IsClientWellFormed d' × (contents d' ≡ code_points after) × (client_text d' ≡ after)
unfolding diff_to_operations edit client_text
diff_to_operations_lem before after d wf shown =
    let (wf', done) = edit_lem (code_points before) (code_points after) d wf shown in
    let d' = (diff_to_operations before after d).1 in
    (wf', done, text_of-joined (behind_root d'.chain) ∙ ap joined done ∙ joined-code_points after)
