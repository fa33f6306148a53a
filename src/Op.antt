-- ===== src/Op.antt =====
-- src/shared/types/operation.ts: identifiers, operations and envelopes.
pub mod Order
pub mod Key
use sync_engine.Base.{
  ℕ, zero, suc, ◌+◌, ◌-◌, ◌/◌, ◌%◌, ◌<◌, Bool, true, false, Option, none, some, List, [], ◌∷◌, ◌++◌,
  ltb, leb, ◌==◌, if◌then◌else◌,
}
use sync_engine.Base.Text.{Text, codes, ◌===◌, text_lt}
use sync_engine.Base.Dict.{Dict}

-- A comparison's result, a JavaScript number of which the callers read the sign:
-- `negsuc n` is -(n + 1).
pub data ℤ : Type 0 where
  pos : ℕ → ℤ
  negsuc : ℕ → ℤ

-- `a - b` on numbers
abbrev pub sub_ℕ : ℕ → ℕ → ℤ
sub_ℕ a b = if leb b a then pos (a - b) else negsuc (b - a - 1)

-- `z > 0`
abbrev pub is_positive : ℤ → Bool
is_positive (pos n) = ltb 0 n
is_positive (negsuc n) = false

pub record Uid : Type 0 where
  pub clock : ℕ
  pub site_id : Text

unfoldable pub compare_uid : Uid → Uid → ℤ
compare_uid a b =
    if a.clock == b.clock
    then (if text_lt a.site_id b.site_id
        then negsuc 0
        else if text_lt b.site_id a.site_id
        then pos 1
        else pos 0)
    else sub_ℕ a.clock b.clock

-- The decimal digits of a number, as a template literal prints it. A number has at most as many
-- digits as its value plus one, which is the fuel.
decimal_from : ℕ → ℕ → Text
decimal_from zero n = []
decimal_from (suc f) n =
    let last = (n % 10 + 48) ∷ [] in
    let rest = decimal_from f (n / 10) in if ltb n 10 then last else rest ++ last

unfoldable pub decimal : ℕ → Text
unfolding decimal_from
decimal n = decimal_from (suc n) n

-- `${uid.clock}:${uid.siteId}`
unfoldable pub uid_key : Uid → Text
uid_key uid = decimal uid.clock ++ (codes ":" ++ uid.site_id)

abbrev pub root_uid : Uid
root_uid = record { clock = 0; site_id = codes "__root__" }

-- A JSON value (`any` in the source). What is no string is kept as its JSON text.
pub data Value : Type 0 where
  str : Text → Value
  json : Text → Value

pub record InsertOperation : Type 0 where
  pub uid : Uid
  pub after : Option Uid
  pub value : Value

pub record FormatOperation : Type 0 where
  pub uid : Uid
  pub attributes : Dict Value

-- `RGAOperation`, and the `ROLLBACK` sentinel that `restoreToRevision` stores by a cast.
pub data Operation : Type 0 where
  insert : InsertOperation → Operation
  delete : Uid → Operation
  format : FormatOperation → Operation
  rollback : Uid → Operation

-- `VectorClock`, and `Record<string, number>` in general
abbrev pub VectorClock : Type 0
VectorClock = Dict ℕ

pub record OperationEnvelope : Type 0 where
  pub id : Text
  pub doc_id : Text
  pub session_id : Text
  pub user_id : Text
  pub op : Operation
  pub seq : ℕ
  pub client_seq : ℕ
  pub timestamp : Text
  pub vector_clock : VectorClock
  pub nonce : Text
