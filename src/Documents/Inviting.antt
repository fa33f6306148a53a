-- ===== src/Documents/Inviting.antt =====
-- `POST /api/docs/:id/invites` of src/server/api/routes/documents.ts: what an invitation that was sent
-- is known to be.
use sync_engine.Base.{
  ◌≡◌, sym, subst, ◌⊎◌, ◌<◌, true, none, some, [], ◌∷◌, ◌++◌, arith, Bool-cases, Option-cases,
  List-cases, inl, inr, find, filter, length, leb, find-eq_some, false,
}
use sync_engine.Base.Text.{Text, ◌===◌, ===→eq}
use sync_engine.Documents.{
  Directory, DocumentWithPermission, UserRow, InvitationRow, grant_of, get_document_with_permission,
  viewer, editor, owner,
}
use sync_engine.Documents.Invitations.{create_email_invitation, create_notification, pending}
use sync_engine.Documents.Access.{role_in, get_document_with_permission-some}
use sync_engine.Documents.Routes

module _ (who : Routes.Requester) (doc_id : Text) (body : Routes.InviteBody) (w : Routes.Supplied)
    (t : Directory) where
  abbrev address : Text
  address = Routes.or_else [] body.email

  -- The invitation `i` that was sent to the user `target`, and the tables after it.
  pub record Sent (target : UserRow) (i : InvitationRow) (t' : Directory) : Type 0 where
    pub addressed : target.email ≡ i.invitee_email
    pub by_member :
        (role_in doc_id who.user_id t ≡ some owner) ⊎ (role_in doc_id who.user_id t ≡ some editor)
    pub not_self : (target.id === who.user_id) ≡ false
    pub stranger : role_in doc_id target.id t ≡ none
    pub below_limit : length (filter (λ p. p.doc_id === doc_id) t.permissions) < 10
    pub first : Routes.pending_for doc_id i.invitee_email w.now t.invitations ≡ []
    pub of_document : i.doc_id ≡ doc_id
    pub of_inviter : i.inviter_id ≡ who.user_id
    pub is_pending : i.status ≡ pending
    pub stored : t'.invitations ≡ t.invitations ++ i ∷ []
    pub no_grant : t'.permissions ≡ t.permissions

  send_invitation-Sent :
      (a : DocumentWithPermission) (target : UserRow) (role : Text) (i : InvitationRow)
      → (Routes.send_invitation who doc_id a target.id address role w t).0
        ≡ Routes.success 201 (Routes.invitation i)
      → let t' = (Routes.send_invitation who doc_id a target.id address role w t).1 in
        (i.invitee_email ≡ address)
        × (i.doc_id ≡ doc_id)
        × (i.inviter_id ≡ who.user_id)
        × (i.status ≡ pending)
        × (i.role ≡ role)
        × (t'.invitations ≡ t.invitations ++ i ∷ [])
        × (t'.permissions ≡ t.permissions)
  unfolding Routes.send_invitation create_email_invitation create_notification
  send_invitation-Sent a target role i h = ground (arith, h)

  invite_registered-Sent :
      (a : DocumentWithPermission) (target : UserRow) (role : Text) (i : InvitationRow)
      → (Routes.invite_registered who doc_id a target address role w t).0
        ≡ Routes.success 201 (Routes.invitation i)
      → (target.email === address) ≡ true
      → (role_in doc_id who.user_id t ≡ some owner) ⊎ (role_in doc_id who.user_id t ≡ some editor)
      → Sent target i (Routes.invite_registered who doc_id a target address role w t).1
  unfolding Routes.invite_registered
  invite_registered-Sent a target role i h known member =
      elim (Bool-cases (target.id === who.user_id)) [
        | inl self ↦ absurd (ground (arith, h, self))
        | inr other ↦ elim (Option-cases (grant_of doc_id target.id t.permissions)) [
          | inr (p, granted) ↦ absurd (ground (arith, h, other, granted))
          | inl stranger ↦
              elim (Bool-cases
                (leb 10 (length (filter (λ p. p.doc_id === doc_id) t.permissions)))) [
                  | inl full ↦ absurd (ground (arith, h, other, stranger, full))
                  | inr below ↦
                      elim (List-cases (Routes.pending_for doc_id address w.now t.invitations)) [
                        | inr (j, rest, waiting) ↦
                            absurd (ground (arith, h, other, stranger, below, waiting))
                        | inl free ↦
                            let sent =
                              send_invitation-Sent a target role i
                                (ground (arith, h, other, stranger, below, free)) in
                            ground (
                              arith,
                              h,
                              known,
                              member,
                              other,
                              stranger,
                              below,
                              free,
                              ===→eq target.email address,
                              sent,
                            )
                      ]
                ]
        ]
      ]

  abbrev pub answered : Routes.Response × Directory
  answered = Routes.serve who (Routes.invite_user doc_id body) w t

  -- Where a request to invite is answered by 201, the inviter is an owner or an editor of the
  -- document, the address is a registered user's who is neither the inviter nor a collaborator yet,
  -- there are fewer than ten collaborators, no invitation of the address to the document was
  -- pending, and exactly the pending invitation that is answered was added; no permission changed.
  pub invite_route-Sent :
      (i : InvitationRow)
      → answered.0 ≡ Routes.success 201 (Routes.invitation i)
      → (target : UserRow) × (find (λ u. u.email === i.invitee_email) t.users ≡ some target)
        × Sent target i answered.1
  unfolding Routes.serve Routes.invite_route
  invite_route-Sent i h = elim (Option-cases (get_document_with_permission doc_id who.user_id t)) [
    | inl hidden ↦ absurd (ground (arith, h, hidden))
    | inr (a, seen) ↦ elim (Option-cases (find (λ u. u.email === address) t.users)) [
      | inl unknown ↦ absurd (ground (arith, h, seen, unknown))
      | inr (target, known) ↦
          let role = Routes.or_else viewer body.role in
          let right = (get_document_with_permission-some doc_id who.user_id t a seen).0 in
          let answer : answered ≡ Routes.invite_registered who doc_id a target address role w t =
            ground (arith, h, seen, known) in
          let member : (role_in doc_id who.user_id t ≡ some owner)
              ⊎ (role_in doc_id who.user_id t ≡ some editor) =
            elim (Bool-cases (a.role === owner)) [
              | inl top ↦ inl (ground (arith, right, ===→eq a.role owner top))
              | inr lower ↦ elim (Bool-cases (a.role === editor)) [
                | inl edits ↦ inr (ground (arith, right, ===→eq a.role editor edits))
                | inr reads ↦ absurd (ground (arith, h, seen, lower, reads))
              ]
            ] in
          let email_met = find-eq_some (λ u. u.email === address) t.users target known in
          let sent =
            invite_registered-Sent a target role i (ground (arith, h, answer)) email_met member in
          (
            target,
            ground (arith, known, sent.addressed, ===→eq target.email address email_met),
            subst (λ r. Sent target i r.1) (sym answer) sent,
          )
    ]
  ]
