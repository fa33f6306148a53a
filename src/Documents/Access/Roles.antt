-- ===== src/Documents/Access/Roles.antt =====
-- What the operations of src/server/persistence/document-store.ts and invitation-store.ts do to the
-- role of a user in a document.
use sync_engine.Base.{
  ℕ, ◌≡◌, refl, sym, ◌⊎◌, inl, inr, true, false, not, ◌&&◌, Option, none, some, List, [], ◌∷◌, ◌++◌,
  map, find, filter, any, arith, if◌then◌else◌, Bool-cases, Option-cases, and_split,
}
use sync_engine.Base.Text.{Text, ◌===◌, ===_iff, ===→eq}
use sync_engine.Documents.{
  PermissionRow, InvitationRow, Directory, DocumentWithPermission, DocumentRow, owner, is_grant,
  grant_of, live_document, regraded, get_document_with_permission, create_document,
  update_collaborator_role, remove_collaborator,
}
use sync_engine.Documents.Invitations.{
  get_invitation_by_token, accept_invitation, upsert_permission,
}

abbrev pub role_of : Option PermissionRow → Option Text
role_of none = none
role_of (some p) = some p.role

-- The role of a user in a document.
abbrev pub role_in : Text → Text → Directory → Option Text
role_in doc_id user_id t = role_of (grant_of doc_id user_id t.permissions)

pub grant_of-append :
    (d u : Text) (rows : List PermissionRow) (p : PermissionRow)
    → role_of (grant_of d u (rows ++ p ∷ [])) ≡ elim (grant_of d u rows) [
      | some q ↦ some q.role
      | none ↦ if is_grant d u p then some p.role else none
    ]
unfolding grant_of find
grant_of-append d u [] p = ground arith
grant_of-append d u (q ∷ rows) p = ground (arith, grant_of-append d u rows p)

pub grant_of-regraded :
    (d u doc_id user_id r : Text) (rows : List PermissionRow)
    → role_of (grant_of d u (map (regraded doc_id user_id r) rows)) ≡ elim (grant_of d u rows) [
      | some q ↦ some (if doc_id === d && user_id === u then r else q.role)
      | none ↦ none
    ]
unfolding grant_of find
grant_of-regraded d u doc_id user_id r [] = refl
grant_of-regraded d u doc_id user_id r (q ∷ rows) = ground (
  arith,
  ===_iff q.doc_id d,
  ===_iff q.doc_id doc_id,
  ===_iff q.user_id u,
  ===_iff q.user_id user_id,
  ===_iff doc_id d,
  ===_iff user_id u,
  grant_of-regraded d u doc_id user_id r rows,
)

pub grant_of-filter :
    (d u doc_id user_id : Text) (rows : List PermissionRow)
    → role_of (grant_of d u (filter (λ p. not (is_grant doc_id user_id p)) rows))
      ≡ (if doc_id === d && user_id === u then none else role_of (grant_of d u rows))
unfolding grant_of find filter
grant_of-filter d u doc_id user_id [] = ground arith
grant_of-filter d u doc_id user_id (q ∷ rows) = ground (
  arith,
  ===_iff q.doc_id d,
  ===_iff q.doc_id doc_id,
  ===_iff q.user_id u,
  ===_iff q.user_id user_id,
  ===_iff doc_id d,
  ===_iff user_id u,
  grant_of-filter d u doc_id user_id rows,
)

pub any-grant_of :
    (d u : Text) (rows : List PermissionRow)
    → any (is_grant d u) rows ≡ elim (grant_of d u rows) [ some q ↦ true | none ↦ false ]
unfolding any grant_of find
any-grant_of d u [] = refl
any-grant_of d u (q ∷ rows) = ground (arith, any-grant_of d u rows)

pub role_in-create_document :
    (title owner_id id : Text) (now : ℕ) (t t' : Directory) (row : DocumentRow) (d u : Text)
    → create_document title owner_id id now t ≡ some (row, t')
    → role_in d u t' ≡ (if id === d && owner_id === u then some owner else role_in d u t)
unfolding create_document
role_in-create_document title owner_id id now t t' row d u h = ground (
  arith,
  h,
  ===_iff id d,
  ===_iff owner_id u,
  grant_of-append d u t.permissions (record { doc_id = id; user_id = owner_id; role = owner }),
)

pub role_in-accept_invitation :
    (token user_id doc_id : Text) (now : ℕ) (t t' : Directory) (d u : Text)
    → accept_invitation token user_id now t ≡ some (doc_id, t')
    → (role_in d u t' ≡ role_in d u t)
      ⊎ ((i : InvitationRow) × (get_invitation_by_token token now t ≡ some i)
          × (d ≡ i.doc_id)
          × (u ≡ user_id)
          × (role_in d u t' ≡ some i.role))
unfolding accept_invitation upsert_permission
role_in-accept_invitation token user_id doc_id now t t' d u h =
    elim (Option-cases (get_invitation_by_token token now t)) [
      | inl closed ↦ inl (ground (arith, h, closed))
      | inr (i, found) ↦ elim (Bool-cases (i.doc_id === d && user_id === u)) [
        | inl same ↦
            let (p, q) = and_split (i.doc_id === d) (user_id === u) same in
            inr (
              i,
              found,
              sym (===→eq i.doc_id d p),
              sym (===→eq user_id u q),
              ground (
                arith,
                h,
                found,
                same,
                p,
                q,
                ===→eq i.doc_id d,
                ===→eq user_id u,
                any-grant_of i.doc_id user_id t.permissions,
                grant_of-regraded d u i.doc_id user_id i.role t.permissions,
                grant_of-append d u t.permissions
                    (record { doc_id = i.doc_id; user_id = user_id; role = i.role }),
              ),
            )
        | inr other ↦ inl (
            ground (
              arith,
              h,
              found,
              other,
              any-grant_of i.doc_id user_id t.permissions,
              grant_of-regraded d u i.doc_id user_id i.role t.permissions,
              grant_of-append d u t.permissions
                  (record { doc_id = i.doc_id; user_id = user_id; role = i.role }),
            ))
      ]
    ]

pub role_in-update_collaborator_role :
    (doc_id user_id : Text) (role : Option Text) (t t' : Directory) (d u : Text)
    → update_collaborator_role doc_id user_id role t ≡ some t'
    → (role_in d u t' ≡ role_in d u t)
      ⊎ ((r : Text) × (role ≡ some r) × (d ≡ doc_id) × (u ≡ user_id) × (role_in d u t' ≡ some r))
unfolding update_collaborator_role
role_in-update_collaborator_role doc_id user_id none t t' d u h = inl (ground (arith, h))
role_in-update_collaborator_role doc_id user_id (some r) t t' d u h =
    elim (Bool-cases (doc_id === d && user_id === u)) [
      | inr other ↦
          inl (ground (arith, h, other, grant_of-regraded d u doc_id user_id r t.permissions))
      | inl same ↦ elim (Option-cases (grant_of d u t.permissions)) [
        | inl absent ↦
            inl (
              ground (arith, h, absent, same, grant_of-regraded d u doc_id user_id r t.permissions))
        | inr (q, there) ↦
            let (a, b) = and_split (doc_id === d) (user_id === u) same in
            inr (
              r,
              refl,
              sym (===→eq doc_id d a),
              sym (===→eq user_id u b),
              ground (arith, h, there, same, grant_of-regraded d u doc_id user_id r t.permissions),
            )
      ]
    ]

pub role_in-remove_collaborator :
    (doc_id user_id : Text) (t : Directory) (d u : Text)
    → role_in d u (remove_collaborator doc_id user_id t)
      ≡ (if doc_id === d && user_id === u then none else role_in d u t)
unfolding remove_collaborator
role_in-remove_collaborator doc_id user_id t d u = grant_of-filter d u doc_id user_id t.permissions

-- Where a document is found with a permission, it is live and the role is the row's.
pub get_document_with_permission-some :
    (doc_id user_id : Text) (t : Directory) (a : DocumentWithPermission)
    → get_document_with_permission doc_id user_id t ≡ some a
    → (role_in doc_id user_id t ≡ some a.role)
      × (live_document doc_id t.documents ≡ some a.document)
unfolding get_document_with_permission
get_document_with_permission-some doc_id user_id t a h = ground (arith, h)
