-- ===== src/Documents/Routes.antt =====
-- src/server/api/routes/documents.ts and invites.ts behind the two middlewares: each request of a
-- user with the status that answers it. The texts of error messages are left out.
use sync_engine.Base.{
  ℕ, Bool, not, ◌&&◌, Option, none, some, List, [], ◌∷◌, ◌++◌, length, map, take, drop, any, find,
  filter, ltb, leb, ◌==◌, if◌then◌else◌,
}
use sync_engine.Base.Text.{Text, codes, ◌===◌}
use sync_engine.Documents.{
  UserRow, DocumentRow, InvitationRow, Directory, Collaborator, DocumentWithPermission, owner,
  editor, viewer, grant_of, audit, create_document, get_document_with_permission, list_documents,
  soft_delete_document, get_collaborators, update_collaborator_role, remove_collaborator,
}
use sync_engine.Documents.Invitations.{
  pending, get_invitation_by_token, revoke_invitation, create_email_invitation, accept_invitation,
  reject_invitation, create_notification,
}

pub record PendingInvitation : Type 0 where
  pub id : Text
  pub invitee_email : Text
  pub role : Text
  pub expires_at : ℕ

abbrev listed : InvitationRow → PendingInvitation
listed i = record {
  id = i.id;
  invitee_email = i.invitee_email;
  role = i.role;
  expires_at = i.expires_at;
}

pub data Body : Type 0 where
  ok : Body
  document : DocumentRow → Body
  permitted : DocumentWithPermission → Body
  documents : List DocumentWithPermission → Body
  invitation : InvitationRow → Body
  offer : Text → Text → Text → Body
  invitations : List PendingInvitation → Body
  collaborators : List Collaborator → Body
  joined : Text → Body

-- A handler that throws answers nothing: Express 4 does not see a promise that was rejected.
pub data Response : Type 0 where
  success : ℕ → Body → Response
  refusal : ℕ → Response
  unanswered : Response

-- The fields of a body that may be missing.
pub record InviteBody : Type 0 where
  pub email : Option Text
  pub role : Option Text
  pub type : Option Text

pub data Request : Type 0 where
  create_doc : Text → Request
  list_docs : Request
  get_doc : Text → Request
  delete_doc : Text → Request
  invite_user : Text → InviteBody → Request
  list_invites : Text → Request
  list_collaborators : Text → Request
  change_role : Text → Text → Option Text → Request
  remove_member : Text → Text → Request
  get_invite : Text → Request
  accept_invite : Text → Request
  reject_invite : Text → Request
  revoke_invite : Text → Request

pub record Requester : Type 0 where
  pub user_id : Text
  pub user_email : Text

-- What a request draws: the time, identifiers, the token, and whether Redis takes a message.
pub record Supplied : Type 0 where
  pub now : ℕ
  pub id : Text
  pub notification_id : Text
  pub token : Text
  pub redis_answers : Bool

-- The characters that `trim` takes off
abbrev blanks : Text
blanks =
    9 ∷ 10 ∷ 11 ∷ 12 ∷ 13 ∷ 32 ∷ 160 ∷ 5760 ∷ 8192 ∷ 8193 ∷ 8194 ∷ 8195 ∷ 8196 ∷ 8197 ∷ 8198 ∷ 8199
    ∷ 8200 ∷ 8201 ∷ 8202 ∷ 8232 ∷ 8233 ∷ 8239 ∷ 8287 ∷ 12288 ∷ 65279 ∷ []

unfoldable pub trim_start : Text → Text
trim_start [] = []
trim_start (c ∷ s) = let rest = trim_start s in if any (λ b. b == c) blanks then rest else c ∷ s

unfoldable pub trim_end : Text → Text
trim_end [] = []
trim_end (c ∷ s) = elim (trim_end s) [
  | [] ↦ if any (λ b. b == c) blanks then [] else c ∷ []
  | d ∷ r ↦ c ∷ d ∷ r
]

-- CreateDocumentSchema: the length is tested before the text is trimmed.
unfoldable pub validated_title : Text → Option Text
unfolding trim_start trim_end
validated_title title =
    if leb 1 (length title) && leb (length title) 200
    then some (trim_end (trim_start title))
    else none

abbrev pub or_else : Text → Option Text → Text
or_else d none = d
or_else d (some t) = t

abbrev found_body : Option DocumentWithPermission → Body → Response
found_body none body = refusal 404
found_body (some d) body = success 200 body

abbrev is_pending : Text → ℕ → InvitationRow → Bool
is_pending doc_id now i = i.doc_id === doc_id && i.status === pending && ltb now i.expires_at

-- Invitations of a document to one address that can still be answered.
unfoldable pub pending_for : Text → Text → ℕ → List InvitationRow → List InvitationRow
pending_for doc_id email now rows =
    filter (λ i. i.invitee_email === email && is_pending doc_id now i) rows

unfoldable pub create_route : Requester → Text → Supplied → Directory → Response × Directory
unfolding create_document validated_title
create_route who title w t = elim (validated_title title) [
  | none ↦ (refusal 400, t)
  | some title' ↦ elim (create_document title' who.user_id w.id w.now t) [
    | none ↦ (unanswered, t)
    | some (d, t') ↦ (success 201 (document d), t')
  ]
]

unfoldable pub delete_route : Requester → Text → Supplied → Directory → Response × Directory
unfolding get_document_with_permission soft_delete_document
delete_route who doc_id w t = elim (get_document_with_permission doc_id who.user_id t) [
  | none ↦ (refusal 404, t)
  | some d ↦
      if not (d.role === owner)
      then (refusal 403, t)
      else (success 200 ok, soft_delete_document doc_id who.user_id w.now t)
]

-- Steps 6 to 8 and the log of the activity.
unfoldable pub send_invitation :
    Requester
    → Text
    → DocumentWithPermission
    → Text
    → Text
    → Text
    → Supplied
    → Directory
    → Response × Directory
unfolding create_email_invitation create_notification
send_invitation who doc_id d target email role w t =
    elim (create_email_invitation doc_id who.user_id email role 72 w.id w.token w.now t) [
      | none ↦ (unanswered, t)
      | some (i, t1) ↦
          elim (create_notification target (codes "INVITATION") (codes "Document Invitation")
            (who.user_email ++ codes " invited you to edit \"" ++ d.document.title ++ codes "\"")
            (codes "/invite/" ++ w.token) w.notification_id w.now t1) [
              | none ↦ (unanswered, t1)
              | some (n, t2) ↦
                  if w.redis_answers
                  then (
                    success 201 (invitation i),
                    audit doc_id who.user_id (codes "invite_user")
                        ((codes "invited_email", email) ∷ (codes "role", role) ∷ [])
                        (record t2 { published = t2.published ++ (target, n) ∷ [] }),
                  )
                  else (unanswered, t2)
            ]
    ]

-- Steps 2 to 5, for a user with the address.
unfoldable pub invite_registered :
    Requester
    → Text
    → DocumentWithPermission
    → UserRow
    → Text
    → Text
    → Supplied
    → Directory
    → Response × Directory
unfolding send_invitation pending_for grant_of
invite_registered who doc_id d target email role w t =
    if target.id === who.user_id
    then (refusal 400, t)
    else elim (grant_of doc_id target.id t.permissions) [
      | some p ↦ (refusal 400, t)
      | none ↦
          if leb 10 (length (filter (λ p. p.doc_id === doc_id) t.permissions))
          then (refusal 400, t)
          else elim (pending_for doc_id email w.now t.invitations) [
            | i ∷ rest ↦ (refusal 400, t)
            | [] ↦ send_invitation who doc_id d target.id email role w t
          ]
    ]

unfoldable pub invite_route :
    Requester → Text → InviteBody → Supplied → Directory → Response × Directory
unfolding get_document_with_permission invite_registered
invite_route who doc_id body w t = elim (get_document_with_permission doc_id who.user_id t) [
  | none ↦ (refusal 404, t)
  | some d ↦
      if not (d.role === owner) && not (d.role === editor)
      then (refusal 403, t)
      else if not (or_else (codes "email") body.type === codes "email")
      then (refusal 400, t)
      else if or_else [] body.email === []
      then (refusal 400, t)
      else elim (find (λ u. u.email === or_else [] body.email) t.users) [
        | none ↦ (refusal 404, t)
        | some target ↦
            invite_registered who doc_id d target (or_else [] body.email) (or_else viewer body.role)
              w t
      ]
]

unfoldable pub change_role_route :
    Requester → Text → Text → Option Text → Directory → Response × Directory
unfolding get_document_with_permission update_collaborator_role
change_role_route who doc_id target role t =
    elim (get_document_with_permission doc_id who.user_id t) [
      | none ↦ (refusal 403, t)
      | some d ↦
          if not (d.role === owner)
          then (refusal 403, t)
          else elim (update_collaborator_role doc_id target role t) [
            | none ↦ (unanswered, t)
            | some t' ↦ (success 200 ok, t')
          ]
    ]

unfoldable pub remove_member_route : Requester → Text → Text → Directory → Response × Directory
unfolding get_document_with_permission remove_collaborator
remove_member_route who doc_id target t = elim (get_document_with_permission doc_id who.user_id t) [
  | none ↦ (refusal 403, t)
  | some d ↦
      if not (d.role === owner) && not (who.user_id === target)
      then (refusal 403, t)
      else (success 200 ok, remove_collaborator doc_id target t)
]

abbrev accept_answer : Option (Text × Directory) → Directory → Response × Directory
accept_answer none t = (refusal 400, t)
accept_answer (some (doc_id, t')) t = (success 200 (joined doc_id), t')

abbrev reject_answer : Option Directory → Directory → Response × Directory
reject_answer none t = (refusal 400, t)
reject_answer (some t') t = (success 200 ok, t')

unfoldable pub serve : Requester → Request → Supplied → Directory → Response × Directory
unfolding create_route delete_route invite_route change_role_route remove_member_route
    list_documents get_collaborators get_document_with_permission accept_invitation
    reject_invitation revoke_invitation get_invitation_by_token
serve who (create_doc title) w t = create_route who title w t
serve who list_docs w t = (success 200 (documents (list_documents who.user_id t)), t)
serve who (get_doc doc_id) w t = elim (get_document_with_permission doc_id who.user_id t) [
  | none ↦ (refusal 404, t)
  | some d ↦ (success 200 (permitted d), t)
]
serve who (delete_doc doc_id) w t = delete_route who doc_id w t
serve who (invite_user doc_id body) w t = invite_route who doc_id body w t
serve who (list_invites doc_id) w t = (
  found_body (get_document_with_permission doc_id who.user_id t)
      (invitations (map listed (filter (is_pending doc_id w.now) t.invitations))),
  t,
)
serve who (list_collaborators doc_id) w t = (
  found_body (get_document_with_permission doc_id who.user_id t)
      (collaborators (get_collaborators doc_id t)),
  t,
)
serve who (change_role doc_id target role) w t = change_role_route who doc_id target role t
serve who (remove_member doc_id target) w t = remove_member_route who doc_id target t
serve who (get_invite token) w t = elim (get_invitation_by_token token w.now t) [
  | none ↦ (refusal 404, t)
  | some i ↦ (success 200 (offer i.doc_id i.role i.invitee_email), t)
]
serve who (accept_invite token) w t = accept_answer (accept_invitation token who.user_id w.now t) t
serve who (reject_invite token) w t = reject_answer (reject_invitation token who.user_id w.now t) t
serve who (revoke_invite id) w t = (success 200 ok, revoke_invitation id t)

abbrev bearer : Text
bearer = codes "Bearer "

-- `requireAuth`, by a check of the token in the header
unfoldable pub require_auth : (Text → Option Requester) → Option Text → Option Requester
require_auth verify none = none
require_auth verify (some header) =
    if take (length bearer) header === bearer then verify (drop (length bearer) header) else none

unfoldable pub handle_request :
    (Text → Option Requester) → Option Text → Request → Supplied → Directory → Response × Directory
unfolding require_auth serve
handle_request verify header req w t = elim (require_auth verify header) [
  | none ↦ (refusal 401, t)
  | some who ↦ serve who req w t
]
