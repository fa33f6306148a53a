-- ===== src/Transport/Fanout/Channels.antt =====
-- The names of the channels of src/server/fanout/redis-pubsub.ts and src/shared/constants.ts, and the
-- document that a name leads back to.
use sync_engine.Base.{
  ◌≡◌, ◌≢◌, refl, Bool, true, false, ◌&&◌, ◌==◌, [], ◌∷◌, ◌++◌, any, arith, if◌then◌else◌, drop,
  length,
}
use sync_engine.Base.Text.{Text, codes, ◌===◌, ===_refl}

abbrev pub doc_channel : Text → Text
doc_channel doc_id = codes "doc:" ++ (doc_id ++ codes ":ops")

abbrev pub presence_channel : Text → Text
presence_channel doc_id = codes "doc:" ++ (doc_id ++ codes ":presence")

abbrev pub user_channel : Text → Text
user_channel user_id = codes "user:" ++ (user_id ++ codes ":notifications")

-- `s.startsWith(p)`
unfoldable pub starts_with : Text → Text → Bool
starts_with [] s = true
starts_with (c ∷ p) [] = false
starts_with (c ∷ p) (d ∷ s) = c == d && starts_with p s

-- `s.endsWith(p)`
unfoldable pub ends_with : Text → Text → Bool
ends_with p [] = p === []
ends_with p (c ∷ s) = if p === (c ∷ s) then true else ends_with p s

-- `s.replace(p, '')` for a text `p`: its first occurrence is left out
unfoldable pub without_first : Text → Text → Text
unfolding starts_with
without_first p [] = []
without_first p (c ∷ s) =
    let further = c ∷ without_first p s in
    if starts_with p (c ∷ s) then drop (length p) (c ∷ s) else further

unfoldable pub extract_doc_id : Text → Text → Text
unfolding without_first
extract_doc_id channel suffix = without_first suffix (without_first (codes "doc:") channel)

-- Up to the first colon
unfoldable pub up_to_colon : Text → Text
up_to_colon [] = []
up_to_colon (c ∷ s) = let further = c ∷ up_to_colon s in if c == b':' then [] else further

unfoldable pub behind_colon : Text → Text
behind_colon [] = []
behind_colon (c ∷ s) = let further = behind_colon s in if c == b':' then s else further

-- `channel.split(':')[1]`
unfoldable pub user_of_channel : Text → Text
unfolding up_to_colon behind_colon
user_of_channel c = up_to_colon (behind_colon c)

-- Identifiers have no colon.
unfoldable pub has_colon : Text → Bool
has_colon s = any (λ c. c == b':') s

starts_with_self : (p : Text) → starts_with p p ≡ true
unfolding starts_with
starts_with_self [] = refl
starts_with_self (c ∷ p) = ground (arith, starts_with_self p)

drop-length : (p : Text) → drop (length p) p ≡ []
drop-length [] = refl
drop-length (c ∷ p) = drop-length p

without_first-behind :
    (p doc_id : Text)
    → has_colon doc_id ≡ false
    → without_first (b':' ∷ p) (doc_id ++ b':' ∷ p) ≡ doc_id
unfolding without_first has_colon any starts_with
without_first-behind p [] h = ground (arith, starts_with_self p, drop-length p)
without_first-behind p (c ∷ doc_id) h = ground (arith, h, without_first-behind p doc_id)

pub extract_doc_id-channel :
    (p doc_id : Text)
    → has_colon doc_id ≡ false
    → extract_doc_id (codes "doc:" ++ (doc_id ++ b':' ∷ p)) (b':' ∷ p) ≡ doc_id
unfolding extract_doc_id without_first starts_with
extract_doc_id-channel p doc_id h = ground (arith, without_first-behind p doc_id h)

pub ends_with-append : (p s : Text) → p ≢ [] → ends_with p (s ++ p) ≡ true
unfolding ends_with
ends_with-append [] [] n = absurd (n refl)
ends_with-append (c ∷ p) [] n = ground (arith, ===_refl (c ∷ p))
ends_with-append p (d ∷ s) n = ground (arith, ends_with-append p s n)
