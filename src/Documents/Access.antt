-- ===== src/Documents/Access.antt =====
-- Who can change what a user may do with a document: src/server/api/routes/documents.ts and invites.ts.
mod Roles
unfoldable pub use Roles.*
use sync_engine.Base.{
  ℕ, ◌≡◌, refl, sym, ◌∙◌, ap, ◌⊎◌, inl, inr, true, false, not, ◌&&◌, Option, none, some, List, [],
  ◌∷◌, ◌++◌, map, find, filter, any, arith, if◌then◌else◌, Bool-cases, Option-cases, and_split,
  subst,
}
use sync_engine.Base.Text.{Text, ◌===◌, ===_iff, ===→eq}
use sync_engine.Documents.{
  PermissionRow, InvitationRow, Directory, DocumentWithPermission, DocumentRow, owner, is_grant,
  grant_of, live_document, regraded, get_document_with_permission, create_document,
  update_collaborator_role, remove_collaborator, soft_delete_document,
}
use sync_engine.Documents.Invitations.{
  get_invitation_by_token, accept_invitation, upsert_permission, create_email_invitation,
  create_notification,
}
use sync_engine.Documents.Routes

-- The ways in which a request may change the role of user `u` in document `d`, with the new role.
pub data Authorised (who : Routes.Requester) (w : Routes.Supplied) (t : Directory) (d u : Text)
    : Routes.Request → Option Text → Type 0 where
  by_creating :
      (title : Text)
      → d ≡ w.id
      → u ≡ who.user_id
      → Authorised who w t d u (Routes.create_doc title) (some owner)
  by_accepting :
      (token : Text) (i : InvitationRow)
      → get_invitation_by_token token w.now t ≡ some i
      → d ≡ i.doc_id
      → u ≡ who.user_id
      → Authorised who w t d u (Routes.accept_invite token) (some i.role)
  by_owner :
      (doc_id target role : Text)
      → d ≡ doc_id
      → u ≡ target
      → role_in d who.user_id t ≡ some owner
      → Authorised who w t d u (Routes.change_role doc_id target (some role)) (some role)
  by_removing :
      (doc_id target : Text)
      → d ≡ doc_id
      → u ≡ target
      → (role_in d who.user_id t ≡ some owner) ⊎ (who.user_id ≡ u)
      → Authorised who w t d u (Routes.remove_member doc_id target) none

module _ (who : Routes.Requester) (w : Routes.Supplied) (t : Directory) (d u : Text) where
  abbrev pub Justified : Routes.Request → Directory → Type 0
  Justified req t' = (role_in d u t' ≡ role_in d u t) ⊎ Authorised who w t d u req (role_in d u t')

  justify :
      (req : Routes.Request) (t' : Directory) (r : Option Text)
      → role_in d u t' ≡ r
      → Authorised who w t d u req r
      → Justified req t'
  justify req t' r e a = inr (subst (Authorised who w t d u req) (sym e) a)

  create_route-Justified :
      (title : Text) → Justified (Routes.create_doc title) (Routes.create_route who title w t).1
  unfolding Routes.create_route
  create_route-Justified title = elim (Option-cases (Routes.validated_title title)) [
    | inl bad ↦ inl (ground (arith, bad))
    | inr (title', good) ↦ elim (Option-cases (create_document title' who.user_id w.id w.now t)) [
      | inl failed ↦ inl (ground (arith, good, failed))
      | inr ((row, t'), made) ↦
          let after : (Routes.create_route who title w t).1 ≡ t' = ground (arith, good, made) in
          let e = role_in-create_document title' who.user_id w.id w.now t t' row d u made in
          elim (Bool-cases (w.id === d && who.user_id === u)) [
            | inr other ↦ inl (ground (arith, e, other, after))
            | inl same ↦
                let (p, q) = and_split (w.id === d) (who.user_id === u) same in
                justify (Routes.create_doc title) (Routes.create_route who title w t).1 (some owner)
                  (ground (arith, e, same, after))
                  (by_creating title (sym (===→eq w.id d p)) (sym (===→eq who.user_id u q)))
          ]
    ]
  ]

  accept-Justified :
      (token : Text)
      → Justified (Routes.accept_invite token) (Routes.serve who (Routes.accept_invite token) w t).1
  unfolding Routes.serve
  accept-Justified token = elim (Option-cases (accept_invitation token who.user_id w.now t)) [
    | inl failed ↦ inl (ground (arith, failed))
    | inr ((doc_id, t'), done) ↦
        let after : (Routes.serve who (Routes.accept_invite token) w t).1 ≡ t' =
          ground (arith, done) in
        elim (role_in-accept_invitation token who.user_id doc_id w.now t t' d u done) [
          | inl kept ↦ inl (ground (arith, kept, after))
          | inr (i, found, e, f, new) ↦
              justify (Routes.accept_invite token)
                (Routes.serve who (Routes.accept_invite token) w t).1 (some i.role)
                (ground (arith, new, after)) (by_accepting token i found e f)
        ]
  ]

  change_role_route-Justified :
      (doc_id target : Text) (role : Option Text)
      → Justified
          (Routes.change_role doc_id target role)
          (Routes.change_role_route who doc_id target role t).1
  unfolding Routes.change_role_route
  change_role_route-Justified doc_id target role =
      elim (Option-cases (get_document_with_permission doc_id who.user_id t)) [
        | inl hidden ↦ inl (ground (arith, hidden))
        | inr (a, seen) ↦ elim (Bool-cases (a.role === owner)) [
          | inr lower ↦ inl (ground (arith, seen, lower))
          | inl top ↦ elim (Option-cases (update_collaborator_role doc_id target role t)) [
            | inl failed ↦ inl (ground (arith, seen, top, failed))
            | inr (t', done) ↦
                let after : (Routes.change_role_route who doc_id target role t).1 ≡ t' =
                  ground (arith, seen, top, done) in
                elim (role_in-update_collaborator_role doc_id target role t t' d u done) [
                  | inl kept ↦ inl (ground (arith, kept, after))
                  | inr (r, given, e, f, new) ↦
                      subst
                        (λ o.
                          Justified (Routes.change_role doc_id target o)
                            (Routes.change_role_route who doc_id target role t).1)
                        (sym given)
                        (justify (Routes.change_role doc_id target (some r))
                          (Routes.change_role_route who doc_id target role t).1 (some r)
                          (ground (arith, new, after))
                          (by_owner doc_id target r e f (
                            ground (
                              arith,
                              e,
                              ===→eq a.role owner top,
                              get_document_with_permission-some doc_id who.user_id t a seen,
                            ))))
                ]
          ]
        ]
      ]

  remove_member_route-Justified :
      (doc_id target : Text)
      → Justified
          (Routes.remove_member doc_id target)
          (Routes.remove_member_route who doc_id target t).1
  unfolding Routes.remove_member_route
  remove_member_route-Justified doc_id target =
      let t1 = (Routes.remove_member_route who doc_id target t).1 in
      let gone = role_in-remove_collaborator doc_id target t d u in
      elim (Option-cases (get_document_with_permission doc_id who.user_id t)) [
        | inl hidden ↦ inl (ground (arith, hidden))
        | inr (a, seen) ↦ elim (Bool-cases (doc_id === d && target === u)) [
          | inr other ↦ inl (ground (arith, seen, other, gone))
          | inl same ↦
              let (p, q) = and_split (doc_id === d) (target === u) same in
              let right = get_document_with_permission-some doc_id who.user_id t a seen in
              elim (Bool-cases (a.role === owner)) [
                | inl top ↦
                    justify (Routes.remove_member doc_id target) t1 none
                      (ground (arith, seen, top, same, gone))
                      (by_removing doc_id target (sym (===→eq doc_id d p)) (sym (===→eq target u q))
                        (inl (ground (arith, right, ===→eq a.role owner top, ===→eq doc_id d p))))
                | inr lower ↦ elim (Bool-cases (who.user_id === target)) [
                  | inl self ↦
                      justify (Routes.remove_member doc_id target) t1 none
                        (ground (arith, seen, lower, self, same, gone))
                        (by_removing doc_id target (sym (===→eq doc_id d p))
                          (sym (===→eq target u q))
                          (inr (===→eq who.user_id target self ∙ ===→eq target u q)))
                  | inr someone ↦ inl (ground (arith, seen, lower, someone))
                ]
              ]
        ]
      ]

  invite_route-kept :
      (doc_id : Text) (body : Routes.InviteBody)
      → (Routes.invite_route who doc_id body w t).1.permissions ≡ t.permissions
  unfolding Routes.invite_route Routes.invite_registered Routes.send_invitation
      create_email_invitation create_notification
  invite_route-kept doc_id body = ground arith

  -- A request changes the role of a user in a document only in one of these ways: the user creates the
  -- document and becomes its owner; the user accepts an invitation that has not expired and gets its
  -- role; an owner of the document gives the user a role; an owner, or the user, removes the user.
  pub permission_changes : (req : Routes.Request) → Justified req (Routes.serve who req w t).1
  unfolding Routes.serve
  permission_changes (Routes.create_doc title) = create_route-Justified title
  permission_changes Routes.list_docs = inl refl
  permission_changes (Routes.get_doc doc_id) = inl (ground arith)
  permission_changes (Routes.delete_doc doc_id) =
      inl (unfold Routes.delete_route soft_delete_document in ground arith)
  permission_changes (Routes.invite_user doc_id body) =
      inl (ap (λ rows. role_of (grant_of d u rows)) (invite_route-kept doc_id body))
  permission_changes (Routes.list_invites doc_id) = inl refl
  permission_changes (Routes.list_collaborators doc_id) = inl refl
  permission_changes (Routes.change_role doc_id target role) =
      change_role_route-Justified doc_id target role
  permission_changes (Routes.remove_member doc_id target) =
      remove_member_route-Justified doc_id target
  permission_changes (Routes.get_invite token) = inl (ground arith)
  permission_changes (Routes.accept_invite token) = accept-Justified token
  permission_changes (Routes.reject_invite token) = inl (ground (arith))
  permission_changes (Routes.revoke_invite id) = inl refl
