-- ===== src/ClientRga/Diff.antt =====
-- `diffToOperations`: one change of the text as local edits.
pub mod Kept
pub mod Common
pub mod Ranges
pub mod Correct
use sync_engine.Base.{
  ℕ, zero, suc, ◌+◌, ◌-◌, Bool, ◌&&◌, Option, none, some, List, [], ◌∷◌, ◌++◌, length, take, drop,
  leb, if◌then◌else◌,
}
use sync_engine.Base.Text.{Text, ◌===◌}
use sync_engine.Op.{Uid, Operation, insert, delete}
use sync_engine.ClientRga.{ClientRga, local_insert, local_delete}

abbrev is_high : ℕ → Bool
is_high c = leb 55296 c && leb c 56319

abbrev is_low : ℕ → Bool
is_low c = leb 56320 c && leb c 57343

-- `[...s]`: the code points, of one code unit or of a surrogate pair
unfoldable pub code_points : Text → List Text
code_points [] = []
code_points (a ∷ []) = (a ∷ []) ∷ []
code_points (a ∷ b ∷ s) =
    let paired = (a ∷ b ∷ []) ∷ code_points s in
    let single = (a ∷ []) ∷ code_points (b ∷ s) in if is_high a && is_low b then paired else single

unfoldable pub common_prefix : List Text → List Text → ℕ
common_prefix [] bs = 0
common_prefix (a ∷ rest_before) [] = 0
common_prefix (a ∷ rest_before) (b ∷ bs) =
    let rest = suc (common_prefix rest_before bs) in if a === b then rest else 0

abbrev pub reversed : List Text → List Text
reversed [] = []
reversed (a ∷ l) = reversed l ++ a ∷ []

-- `if (delOp) ops.push(delOp)`
abbrev noted : Option Uid → List Operation → List Operation
noted none ops = ops
noted (some uid) ops = delete uid ∷ ops

-- The deletes from the last changed position down to the first.
unfoldable pub delete_range : ℕ → ℕ → ClientRga → List Operation × ClientRga
delete_range first zero d = ([], d)
delete_range first (suc n) d =
    let (uid, d') = local_delete (first + n) d in
    let (ops, d'') = delete_range first n d' in (noted uid ops, d'')

-- The inserts from the first changed position up.
unfoldable pub insert_range : ℕ → List Text → ClientRga → List Operation × ClientRga
insert_range k [] d = ([], d)
insert_range k (c ∷ chars) d =
    let (op, d') = local_insert k c d in
    let (ops, d'') = insert_range (suc k) chars d' in (insert op ∷ ops, d'')

-- The common suffix is looked for behind the common prefix.
unfoldable pub diff_to_operations : Text → Text → ClientRga → List Operation × ClientRga
unfolding common_prefix delete_range insert_range
diff_to_operations before after d =
    let old = code_points before in
    let new = code_points after in
    let prefix = common_prefix old new in
    let old_rest = drop prefix old in
    let new_rest = drop prefix new in
    let suffix = common_prefix (reversed old_rest) (reversed new_rest) in
    let (deletes, d') = delete_range prefix (length old_rest - suffix) d in
    let (inserts, d'') = insert_range prefix (take (length new_rest - suffix) new_rest) d' in
    (deletes ++ inserts, d'')
