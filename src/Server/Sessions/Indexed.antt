-- ===== src/Server/Sessions/Indexed.antt =====
-- The indexes by document and by user agree with the sessions.
use sync_engine.Base.{
  ℕ, ◌≡◌, refl, Bool, false, not, ◌&&◌, ◌||◌, Option, none, some, List, [], ◌∷◌, any, filter,
  any-append, arith, if◌then◌else◌, Option-cases, inl, inr,
}
use sync_engine.Base.Text.{Text, ◌===◌, ===_iff}
use sync_engine.Base.Dict.{Dict, get, get-put, get-remove}
use sync_engine.Server.Sessions.{
  ClientSession, SessionParams, Sessions, or_empty, truthy, is_id, add_id, remove_id, add_to,
  put_or_remove, drop_from, new_session, register_session, remove_session,
}

-- The identifier stands in the set of the key.
unfoldable pub member : Text → Text → Dict (List Text) → Bool
member k j m = any (is_id j) (or_empty (get k m))

any-add_id :
    (id j : Text) (ids : List Text)
    → any (is_id j) (add_id id ids) ≡ (id === j || any (is_id j) ids)
unfolding any
any-add_id id j ids = ground (arith, any-append (is_id j) ids (id ∷ []), ===_iff id j)

any-remove_id :
    (id j : Text) (ids : List Text)
    → any (is_id j) (remove_id id ids) ≡ (not (id === j) && any (is_id j) ids)
unfolding any filter
any-remove_id id j [] = ground arith
any-remove_id id j (i ∷ ids) =
    ground (arith, any-remove_id id j ids, ===_iff id j, ===_iff i j, ===_iff i id)

member-add_to :
    (k id d j : Text) (m : Dict (List Text))
    → member d j (add_to k id m) ≡ ((k === d && id === j) || member d j m)
unfolding member add_to
member-add_to k id d j m = ground (
  arith,
  get-put k d (add_id id (or_empty (get k m))) m,
  any-add_id id j (or_empty (get k m)),
  ===_iff k d,
)

member-put_or_remove :
    (k d j : Text) (ids : List Text) (m : Dict (List Text))
    → member d j (put_or_remove k ids m) ≡ (if k === d then any (is_id j) ids else member d j m)
unfolding member any
member-put_or_remove k d j [] m = ground (arith, get-remove k d m)
member-put_or_remove k d j (i ∷ ids) m = ground (arith, get-put k d (i ∷ ids) m)

member_of : (k j : Text) (m : Dict (List Text)) → member k j m ≡ any (is_id j) (or_empty (get k m))
unfolding member
member_of k j m = refl

member-drop_from :
    (k id d j : Text) (m : Dict (List Text))
    → member d j (drop_from k id m) ≡ (not (k === d && id === j) && member d j m)
unfolding drop_from any
member-drop_from k id d j m = elim (Option-cases (get k m)) [
  | inl nothing ↦ ground (arith, nothing, ===_iff k d, member_of k j m)
  | inr (ids, e) ↦ ground (
    arith,
    e,
    member-put_or_remove k d j (remove_id id ids) m,
    any-remove_id id j ids,
    member_of k j m,
    ===_iff k d,
  )
]

-- A session with the identifier is there, and is in the document.
abbrev pub in_doc : Text → Option ClientSession → Bool
in_doc d none = false
in_doc d (some s) = elim (truthy s.doc_id) [ none ↦ false | some c ↦ c === d ]

abbrev pub of_user : Text → Option ClientSession → Bool
of_user u none = false
of_user u (some s) = s.user_id === u

-- The set of a document holds exactly the sessions in it, and the set of a user exactly the user's.
pub record IsIndexed (s : Sessions) : Type 0 where
  pub by_doc : (d j : Text) → member d j s.doc_sessions ≡ in_doc d (get j s.sessions)
  pub by_user : (u j : Text) → member u j s.user_sessions ≡ of_user u (get j s.sessions)

-- A new session under an identifier that no session has keeps both indexes right.
pub register_session-IsIndexed :
    (p : SessionParams) (id : Text) (socket now : ℕ) (s : Sessions)
    → get id s.sessions ≡ none
    → IsIndexed s
    → IsIndexed (register_session p id socket now s).1
unfolding register_session
register_session-IsIndexed p id socket now s fresh h = record {
  by_doc = λ d j. elim (Option-cases (truthy p.doc_id)) [
    | inl nowhere ↦ ground (
      arith,
      nowhere,
      fresh,
      h.by_doc d j,
      get-put id j (new_session p id socket now) s.sessions,
      ===_iff id j,
    )
    | inr (c, e) ↦ ground (
      arith,
      e,
      fresh,
      h.by_doc d j,
      get-put id j (new_session p id socket now) s.sessions,
      ===_iff id j,
      member-add_to c id d j s.doc_sessions,
    )
  ];
  by_user = λ u j. ground (
    arith,
    fresh,
    h.by_user u j,
    get-put id j (new_session p id socket now) s.sessions,
    ===_iff id j,
    member-add_to p.user_id id u j s.user_sessions,
  );
}

-- Removing a session, whether it is there or not, keeps both indexes right.
pub remove_session-IsIndexed :
    (id : Text) (s : Sessions) → IsIndexed s → IsIndexed (remove_session id s).1
unfolding remove_session
remove_session-IsIndexed id s h = record {
  by_doc = λ d j. elim (Option-cases (get id s.sessions)) [
    | inl missing ↦ ground (arith, missing, h.by_doc d j)
    | inr (session, e) ↦ elim (Option-cases (truthy session.doc_id)) [
      | inl nowhere ↦
          ground (arith, e, nowhere, h.by_doc d j, get-remove id j s.sessions, ===_iff id j)
      | inr (c, at) ↦ ground (
        arith,
        e,
        at,
        h.by_doc d j,
        get-remove id j s.sessions,
        ===_iff id j,
        member-drop_from c id d j s.doc_sessions,
      )
    ]
  ];
  by_user = λ u j. elim (Option-cases (get id s.sessions)) [
    | inl missing ↦ ground (arith, missing, h.by_user u j)
    | inr (session, e) ↦ ground (
      arith,
      e,
      h.by_user u j,
      get-remove id j s.sessions,
      ===_iff id j,
      member-drop_from session.user_id id u j s.user_sessions,
    )
  ];
}
