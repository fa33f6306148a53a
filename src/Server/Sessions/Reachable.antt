-- ===== src/Server/Sessions/Reachable.antt =====
-- The states of src/server/transport/session-manager.ts that a worker can come to.
use sync_engine.Base.{ℕ, ◌≡◌, refl, sym, subst, none, [], any}
use sync_engine.Base.Text.{Text}
use sync_engine.Base.Dict.{get}
use sync_engine.Server.Sessions.{SessionParams, Sessions, register_session, remove_session}
use sync_engine.Server.Sessions.Indexed.{
  member, IsIndexed, register_session-IsIndexed, remove_session-IsIndexed,
}

abbrev pub no_sessions : Sessions
no_sessions = record { sessions = []; doc_sessions = []; user_sessions = [] }

-- From an empty worker by registrations, each under an identifier that is new, and removals.
pub data Reachable : Sessions → Type 0 where
  begins : (t : Sessions) → t ≡ no_sessions → Reachable t
  registers :
      (s t : Sessions) (p : SessionParams) (id : Text) (socket now : ℕ)
      → get id s.sessions ≡ none
      → t ≡ (register_session p id socket now s).1
      → Reachable s
      → Reachable t
  removes : (s t : Sessions) (id : Text) → t ≡ (remove_session id s).1 → Reachable s → Reachable t

no_sessions-IsIndexed : IsIndexed no_sessions
unfolding member get any
no_sessions-IsIndexed = record { by_doc = λ d j. refl; by_user = λ u j. refl }

-- In every state that a worker can come to by registering sessions, each under a new identifier, and
-- removing any, the set of a document holds exactly the sessions in it, and the set of a user exactly
-- the user's.
pub Reachable-IsIndexed : (t : Sessions) → Reachable t → IsIndexed t
Reachable-IsIndexed t (begins _ e) = subst IsIndexed (sym e) no_sessions-IsIndexed
Reachable-IsIndexed t (registers s _ p id socket now fresh e r) =
    subst IsIndexed (sym e)
      (register_session-IsIndexed p id socket now s fresh (Reachable-IsIndexed s r))
Reachable-IsIndexed t (removes s _ id e r) =
    subst IsIndexed (sym e) (remove_session-IsIndexed id s (Reachable-IsIndexed s r))
