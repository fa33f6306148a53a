-- ===== src/Documents/Invitations.antt =====
-- src/server/persistence/invitation-store.ts, and `createNotification` of notification-store.ts.
use sync_engine.Base.{
  ℕ, ◌+◌, ◌*◌, Bool, not, ◌&&◌, Option, none, some, List, [], ◌∷◌, ◌++◌, map, any, find, filter,
  ltb, if◌then◌else◌, ◌>>=◌,
}
use sync_engine.Base.Text.{Text, codes, ◌===◌}
use sync_engine.Documents.{
  PermissionRow, InvitationRow, NotificationRow, Directory, owner, editor, viewer, commenter,
  is_role, has_user, has_document, is_grant, audit, regraded,
}

-- CHECK (role IN ('owner', 'editor', 'commenter', 'viewer'))
unfoldable pub is_invitation_role : Text → Bool
is_invitation_role role = any (λ r. r === role) (owner ∷ editor ∷ commenter ∷ viewer ∷ [])

unfoldable pub token_in_use : Text → List InvitationRow → Bool
token_in_use token rows = any (λ i. i.token === token) rows

-- The row's keys, references and checks.
unfoldable pub is_storable : InvitationRow → Directory → Bool
unfolding is_invitation_role token_in_use has_user has_document
is_storable i t =
    is_invitation_role i.role
    && not (token_in_use i.token t.invitations)
    && not (any (λ j. j.id === i.id) t.invitations)
    && has_document i.doc_id t.documents
    && has_user i.inviter_id t.users

-- `setHours` by the hours given, in milliseconds
abbrev pub hours : ℕ → ℕ
hours n = n * 3600000

abbrev pub pending : Text
pending = codes "pending"

unfoldable pub create_email_invitation :
    Text → Text → Text → Text → ℕ → Text → Text → ℕ → Directory → Option (InvitationRow × Directory)
unfolding is_storable
create_email_invitation doc_id inviter_id email role expires_in_hours id token now t =
    let row : InvitationRow = record {
      id = id;
      doc_id = doc_id;
      inviter_id = inviter_id;
      invitee_email = email;
      role = role;
      token = token;
      status = pending;
      expires_at = now + hours expires_in_hours;
      created_at = now;
    } in
    if is_storable row t
    then some (row, record t { invitations = t.invitations ++ row ∷ [] })
    else none

abbrev pub is_open : Text → ℕ → InvitationRow → Bool
is_open token now i = i.token === token && ltb now i.expires_at

unfoldable pub get_invitation_by_token : Text → ℕ → Directory → Option InvitationRow
get_invitation_by_token token now t = find (is_open token now) t.invitations

unfoldable pub revoke_invitation : Text → Directory → Directory
revoke_invitation id t = record t { invitations = filter (λ i. not (i.id === id)) t.invitations }

-- `ON CONFLICT (doc_id, user_id) DO UPDATE SET role = EXCLUDED.role`
unfoldable pub upsert_permission : PermissionRow → Directory → Option Directory
unfolding is_role has_user has_document
upsert_permission p t =
    if is_role p.role && has_document p.doc_id t.documents && has_user p.user_id t.users
    then if any (is_grant p.doc_id p.user_id) t.permissions
      then some (record t { permissions = map (regraded p.doc_id p.user_id p.role) t.permissions })
      else some (record t { permissions = t.permissions ++ p ∷ [] })
    else none

abbrev marked : Text → Text → InvitationRow → InvitationRow
marked id status i = if i.id === id then record i { status = status } else i

-- `if (invite.invitee_email)`
abbrev pub mark_used : InvitationRow → Text → Directory → Directory
mark_used i status t =
    if i.invitee_email === []
    then t
    else record t { invitations = map (marked i.id status) t.invitations }

unfoldable pub accept_invitation : Text → Text → ℕ → Directory → Option (Text × Directory)
unfolding get_invitation_by_token upsert_permission
accept_invitation token user_id now t = do
  i ← get_invitation_by_token token now t
  t' ← upsert_permission (record { doc_id = i.doc_id; user_id = user_id; role = i.role }) t
  some (
    i.doc_id,
    audit i.doc_id user_id (codes "accept_invite") ((codes "role", i.role) ∷ [])
        (mark_used i (codes "accepted") t'),
  )

unfoldable pub reject_invitation : Text → Text → ℕ → Directory → Option Directory
unfolding get_invitation_by_token
reject_invitation token user_id now t = do
  i ← get_invitation_by_token token now t
  some (
      audit i.doc_id user_id (codes "reject_invite") ((codes "role", i.role) ∷ [])
        (mark_used i (codes "rejected") t))

unfoldable pub create_notification :
    Text → Text → Text → Text → Text → Text → ℕ → Directory → Option (NotificationRow × Directory)
unfolding has_user
create_notification user_id type title message link id now t =
    let row : NotificationRow = record {
      id = id;
      user_id = user_id;
      type = type;
      message = message;
      read_at = none;
      metadata = (codes "title", title) ∷ (codes "link", link) ∷ [];
      created_at = now;
    } in
    if has_user user_id t.users
    then some (row, record t { notifications = t.notifications ++ row ∷ [] })
    else none
