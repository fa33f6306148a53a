-- ===== src/Documents.antt =====
-- src/server/persistence/document-store.ts, and the tables of accounts and documents in schema.sql
-- with their keys and checks.
pub mod Invitations
pub mod Notifications
pub mod Routes
pub mod Access
pub mod Refusals
pub mod Inviting
pub mod Deleted
pub mod Tests
use sync_engine.Base.{
  ℕ, Bool, true, false, not, ◌&&◌, Option, none, some, List, [], ◌∷◌, ◌++◌, map, any, find, filter,
  ltb, if◌then◌else◌, ◌>>=◌,
}
use sync_engine.Base.Text.{Text, codes, ◌===◌}
use sync_engine.Base.Dict.{Dict}

pub record UserRow : Type 0 where
  pub id : Text
  pub email : Text
  pub display_name : Text
  pub color : Text

pub record DocumentRow : Type 0 where
  pub id : Text
  pub title : Text
  pub owner_id : Text
  pub created_at : ℕ
  pub updated_at : ℕ
  pub is_deleted : Bool

pub record PermissionRow : Type 0 where
  pub doc_id : Text
  pub user_id : Text
  pub role : Text

pub record InvitationRow : Type 0 where
  pub id : Text
  pub doc_id : Text
  pub inviter_id : Text
  pub invitee_email : Text
  pub role : Text
  pub token : Text
  pub status : Text
  pub expires_at : ℕ
  pub created_at : ℕ

pub record NotificationRow : Type 0 where
  pub id : Text
  pub user_id : Text
  pub type : Text
  pub message : Text
  pub read_at : Option ℕ
  pub metadata : Dict Text
  pub created_at : ℕ

pub record AuditRow : Type 0 where
  pub doc_id : Text
  pub user_id : Text
  pub action : Text
  pub metadata : Dict Text

-- The tables, and what was published to each user's channel.
pub record Directory : Type 0 where
  pub users : List UserRow
  pub documents : List DocumentRow
  pub permissions : List PermissionRow
  pub invitations : List InvitationRow
  pub notifications : List NotificationRow
  pub audit_log : List AuditRow
  pub published : List (Text × NotificationRow)

abbrev pub owner : Text
owner = codes "owner"

abbrev pub editor : Text
editor = codes "editor"

abbrev pub viewer : Text
viewer = codes "viewer"

abbrev pub commenter : Text
commenter = codes "commenter"

-- CHECK (role IN ('owner', 'editor', 'viewer'))
unfoldable pub is_role : Text → Bool
is_role role = any (λ r. r === role) (owner ∷ editor ∷ viewer ∷ [])

unfoldable pub has_user : Text → List UserRow → Bool
has_user user_id users = any (λ u. u.id === user_id) users

unfoldable pub has_document : Text → List DocumentRow → Bool
has_document doc_id docs = any (λ d. d.id === doc_id) docs

-- The primary key of `document_permissions`.
abbrev pub is_grant : Text → Text → PermissionRow → Bool
is_grant doc_id user_id p = p.doc_id === doc_id && p.user_id === user_id

unfoldable pub grant_of : Text → Text → List PermissionRow → Option PermissionRow
grant_of doc_id user_id rows = find (is_grant doc_id user_id) rows

abbrev pub is_live : Text → DocumentRow → Bool
is_live doc_id d = d.id === doc_id && not d.is_deleted

unfoldable pub live_document : Text → List DocumentRow → Option DocumentRow
live_document doc_id docs = find (is_live doc_id) docs

abbrev pub audit : Text → Text → Text → Dict Text → Directory → Directory
audit doc_id user_id action metadata t = record t {
  audit_log =
      t.audit_log
      ++ record { doc_id = doc_id; user_id = user_id; action = action; metadata = metadata } ∷ [];
}

abbrev new_document : Text → Text → Text → ℕ → DocumentRow
new_document id title owner_id now = record {
  id = id;
  title = title;
  owner_id = owner_id;
  created_at = now;
  updated_at = now;
  is_deleted = false;
}

abbrev owner_row : Text → Text → PermissionRow
owner_row id owner_id = record { doc_id = id; user_id = owner_id; role = owner }

-- One transaction: none where a key or a reference fails.
unfoldable pub create_document :
    Text → Text → Text → ℕ → Directory → Option (DocumentRow × Directory)
unfolding has_user has_document grant_of
create_document title owner_id id now t =
    if has_document id t.documents
    then none
    else if not (has_user owner_id t.users)
    then none
    else elim (grant_of id owner_id t.permissions) [
      | some p ↦ none
      | none ↦ some (
        new_document id title owner_id now,
        audit id owner_id (codes "create") ((codes "title", title) ∷ []) (record t {
          documents = t.documents ++ new_document id title owner_id now ∷ [];
          permissions = t.permissions ++ owner_row id owner_id ∷ [];
        }),
      )
    ]

unfoldable pub get_document : Text → Directory → Option DocumentRow
unfolding live_document
get_document doc_id t = live_document doc_id t.documents

pub record DocumentWithPermission : Type 0 where
  pub document : DocumentRow
  pub role : Text

unfoldable pub get_document_with_permission :
    Text → Text → Directory → Option DocumentWithPermission
unfolding live_document grant_of
get_document_with_permission doc_id user_id t = do
  d ← live_document doc_id t.documents
  p ← grant_of doc_id user_id t.permissions
  some (record { document = d; role = p.role })

-- ORDER BY updated_at DESC
unfoldable pub insert_recent :
    DocumentWithPermission → List DocumentWithPermission → List DocumentWithPermission
insert_recent a [] = a ∷ []
insert_recent a (b ∷ rest) =
    let further = b ∷ insert_recent a rest in
    if ltb b.document.updated_at a.document.updated_at then a ∷ b ∷ rest else further

unfoldable pub visible_documents :
    Text → List PermissionRow → List DocumentRow → List DocumentWithPermission
unfolding insert_recent grant_of
visible_documents user_id rows [] = []
visible_documents user_id rows (d ∷ docs) =
    let rest = visible_documents user_id rows docs in
    elim (if d.is_deleted then none else grant_of d.id user_id rows) [
      | none ↦ rest
      | some p ↦ insert_recent (record { document = d; role = p.role }) rest
    ]

unfoldable pub list_documents : Text → Directory → List DocumentWithPermission
unfolding visible_documents
list_documents user_id t = visible_documents user_id t.permissions t.documents

abbrev renamed : Text → Text → ℕ → DocumentRow → DocumentRow
renamed doc_id title now d =
    if d.id === doc_id then record d { title = title; updated_at = now } else d

unfoldable pub update_document_title : Text → Text → ℕ → Directory → Directory
update_document_title doc_id title now t = record t {
  documents = map (renamed doc_id title now) t.documents;
}

abbrev touched : Text → ℕ → DocumentRow → DocumentRow
touched doc_id now d = if d.id === doc_id then record d { updated_at = now } else d

unfoldable pub touch_document : Text → ℕ → Directory → Directory
touch_document doc_id now t = record t { documents = map (touched doc_id now) t.documents }

abbrev pub deleted_at : Text → ℕ → DocumentRow → DocumentRow
deleted_at doc_id now d =
    if d.id === doc_id then record d { updated_at = now; is_deleted = true } else d

unfoldable pub soft_delete_document : Text → Text → ℕ → Directory → Directory
soft_delete_document doc_id user_id now t =
    audit doc_id user_id (codes "delete") []
      (record t { documents = map (deleted_at doc_id now) t.documents })

pub record Collaborator : Type 0 where
  pub user_id : Text
  pub role : Text
  pub email : Text
  pub display_name : Text

abbrev with_user : Option UserRow → PermissionRow → List Collaborator → List Collaborator
with_user none p rest = rest
with_user (some u) p rest =
    record { user_id = p.user_id; role = p.role; email = u.email; display_name = u.display_name }
    ∷ rest

unfoldable pub collaborators_among : Text → List UserRow → List PermissionRow → List Collaborator
collaborators_among doc_id users [] = []
collaborators_among doc_id users (p ∷ rows) =
    let rest = collaborators_among doc_id users rows in
    if p.doc_id === doc_id then with_user (find (λ u. u.id === p.user_id) users) p rest else rest

unfoldable pub get_collaborators : Text → Directory → List Collaborator
unfolding collaborators_among
get_collaborators doc_id t = collaborators_among doc_id t.users t.permissions

abbrev pub regraded : Text → Text → Text → PermissionRow → PermissionRow
regraded doc_id user_id role p = if is_grant doc_id user_id p then record p { role = role } else p

-- The check is made for a row that is written only; a missing role is NULL, which no row may hold.
unfoldable pub update_collaborator_role : Text → Text → Option Text → Directory → Option Directory
unfolding is_role
update_collaborator_role doc_id user_id role t = elim role [
  | none ↦ if any (is_grant doc_id user_id) t.permissions then none else some t
  | some r ↦
      if any (is_grant doc_id user_id) t.permissions && not (is_role r)
      then none
      else some (record t { permissions = map (regraded doc_id user_id r) t.permissions })
]

unfoldable pub remove_collaborator : Text → Text → Directory → Directory
remove_collaborator doc_id user_id t = record t {
  permissions = filter (λ p. not (is_grant doc_id user_id p)) t.permissions;
}
