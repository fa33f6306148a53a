-- ===== src/Documents/Refusals.antt =====
-- The requests that are refused, of src/server/api/routes/documents.ts and invites.ts.
use sync_engine.Base.{ℕ, ◌≡◌, refl, Option, arith, Option-cases, inl, inr, find, []}
use sync_engine.Base.Text.{Text, ◌===◌}
use sync_engine.Documents.{
  Directory, DocumentWithPermission, UserRow, get_document_with_permission, viewer,
}
use sync_engine.Documents.Invitations.{create_email_invitation, create_notification}
use sync_engine.Documents.Routes

module _ (who : Routes.Requester) (w : Routes.Supplied) (t : Directory) (status : ℕ) where
  -- Nothing is written where the answer is a refusal.
  abbrev Untouched : Routes.Response × Directory → Type 0
  Untouched answer = answer.0 ≡ Routes.refusal status → answer.1 ≡ t

  send_invitation-refusal :
      (doc_id : Text) (a : DocumentWithPermission) (target email role : Text)
      → Untouched (Routes.send_invitation who doc_id a target email role w t)
  unfolding Routes.send_invitation create_email_invitation create_notification
  send_invitation-refusal doc_id a target email role h = ground (arith, h)

  invite_registered-refusal :
      (doc_id : Text) (a : DocumentWithPermission) (target : UserRow) (email role : Text)
      → Untouched (Routes.invite_registered who doc_id a target email role w t)
  unfolding Routes.invite_registered
  invite_registered-refusal doc_id a target email role h =
      ground (arith, h, send_invitation-refusal doc_id a target.id email role)

  invite_route-refusal :
      (doc_id : Text) (body : Routes.InviteBody)
      → Untouched (Routes.invite_route who doc_id body w t)
  unfolding Routes.invite_route
  invite_route-refusal doc_id body h =
      elim (Option-cases (get_document_with_permission doc_id who.user_id t)) [
        | inl hidden ↦ ground (arith, hidden)
        | inr (a, seen) ↦
            elim (Option-cases (find (λ u. u.email === Routes.or_else [] body.email) t.users)) [
              | inl unknown ↦ ground (arith, seen, unknown)
              | inr (target, known) ↦ ground (
                arith,
                h,
                seen,
                known,
                invite_registered-refusal doc_id a target (Routes.or_else [] body.email)
                    (Routes.or_else viewer body.role),
              )
            ]
      ]

  serve-refusal : (req : Routes.Request) → Untouched (Routes.serve who req w t)
  unfolding Routes.serve
  serve-refusal (Routes.create_doc title) h = unfold Routes.create_route in ground (arith, h)
  serve-refusal Routes.list_docs h = refl
  serve-refusal (Routes.get_doc doc_id) h = ground (arith, h)
  serve-refusal (Routes.delete_doc doc_id) h = unfold Routes.delete_route in ground (arith, h)
  serve-refusal (Routes.invite_user doc_id body) h = invite_route-refusal doc_id body h
  serve-refusal (Routes.list_invites doc_id) h = refl
  serve-refusal (Routes.list_collaborators doc_id) h = refl
  serve-refusal (Routes.change_role doc_id target role) h =
      unfold Routes.change_role_route in ground (arith, h)
  serve-refusal (Routes.remove_member doc_id target) h =
      unfold Routes.remove_member_route in ground (arith, h)
  serve-refusal (Routes.get_invite token) h = ground (arith, h)
  serve-refusal (Routes.accept_invite token) h = ground (arith, h)
  serve-refusal (Routes.reject_invite token) h = ground (arith, h)
  serve-refusal (Routes.revoke_invite id) h = ground (arith, h)

-- A request that is answered by an error status has changed no table and published nothing,
-- whoever sent it and whatever its header holds.
pub handle_request-refusal :
    (verify : Text → Option Routes.Requester) (header : Option Text) (req : Routes.Request)
    (w : Routes.Supplied) (t : Directory) (status : ℕ)
    → (Routes.handle_request verify header req w t).0 ≡ Routes.refusal status
    → (Routes.handle_request verify header req w t).1 ≡ t
unfolding Routes.handle_request
handle_request-refusal verify header req w t status h =
    elim (Option-cases (Routes.require_auth verify header)) [
      | inl denied ↦ ground (arith, denied)
      | inr (who, named) ↦ ground (arith, h, named, serve-refusal who w t status req)
    ]
