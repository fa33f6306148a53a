-- ===== src/Rga/Read.antt =====
-- The queries of `RGADocument`: what a reader sees of the list.
pub mod Positions
use sync_engine.Base.{
  ℕ, zero, suc, ◌+◌, Bool, true, false, not, ◌&&◌, Option, none, some, List, [], ◌∷◌, ◌++◌, ◌==◌,
  filter, if◌then◌else◌,
}
use sync_engine.Base.Text.{Text, ◌===◌}
use sync_engine.Op.{ℤ, pos, negsuc, Uid, uid_key, Value, str, json}
use sync_engine.Rga.{Rga, Node, behind_root, get_node}

-- `toNodes`
unfoldable pub to_nodes : Rga → List Node
to_nodes d = filter (λ n. not n.tombstoned) (behind_root d.chain)

-- `typeof node.value === 'string'`, and the string
abbrev pub string_of : Value → Text
string_of (str s) = s
string_of (json s) = []

-- The loop of `toText` and its `join('')`.
unfoldable pub text_of : List Node → Text
text_of [] = []
text_of (n ∷ l) = let rest = text_of l in if n.tombstoned then rest else string_of n.value ++ rest

unfoldable pub to_text : Rga → Text
unfolding text_of
to_text d = text_of (behind_root d.chain)

abbrev pub same_uid : Uid → Uid → Bool
same_uid u v = u.clock == v.clock && u.site_id === v.site_id

-- The loop of `uidToIndex`.
unfoldable pub index_from : ℕ → Uid → List Node → ℤ
index_from idx u [] = negsuc 0
index_from idx u (n ∷ l) =
    let rest = index_from (if n.tombstoned then idx else idx + 1) u l in
    if not n.tombstoned && same_uid n.uid u then pos idx else rest

unfoldable pub uid_to_index : Option Uid → Rga → ℤ
unfolding index_from
uid_to_index none d = pos 0
uid_to_index (some u) d = index_from 0 u (behind_root d.chain)

-- The loop of `indexToUID`.
unfoldable pub uid_from : ℕ → ℕ → List Node → Option Uid
uid_from idx index [] = none
uid_from idx index (n ∷ l) =
    let rest = uid_from (if n.tombstoned then idx else idx + 1) index l in
    if not n.tombstoned && (idx + 1) == index then some n.uid else rest

unfoldable pub index_to_uid : ℕ → Rga → Option Uid
unfolding uid_from
index_to_uid index d = if index == 0 then none else uid_from 0 index (behind_root d.chain)

unfoldable pub get_after_uid : ℕ → Rga → Option Uid
get_after_uid index d = if index == 0 then none else index_to_uid index d

-- `this._length === 0`
unfoldable pub is_empty : Rga → Bool
is_empty d = elim d.doc_length [ pos n ↦ n == 0 | negsuc n ↦ false ]
