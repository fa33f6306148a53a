-- ===== src/Documents/Tests.antt =====
-- The requests at two users and a document: runs, and the theorems at them.
use sync_engine.Base.{◌≡◌, refl, true, false, Option, none, some, List, [], ◌∷◌, any, find, filter}
use sync_engine.Base.Text.{Text, codes, ◌===◌}
use sync_engine.Documents.{UserRow, InvitationRow, Directory, owner, editor}
use sync_engine.Documents.Invitations.{pending}
use sync_engine.Documents.Routes
use sync_engine.Documents.Access.{role_in, Justified, permission_changes}
use sync_engine.Documents.Refusals.{handle_request-refusal}
use sync_engine.Documents.Inviting.{Sent, invite_route-Sent}
use sync_engine.Documents.Deleted.{run, deleted_for_good}

abbrev ann : Routes.Requester
ann = record { user_id = codes "a"; user_email = codes "a@x" }

abbrev bob : Routes.Requester
bob = record { user_id = codes "b"; user_email = codes "b@x" }

abbrev pub paper : Text
paper = codes "d"

abbrev invited : InvitationRow
invited = record {
  id = codes "i";
  doc_id = paper;
  inviter_id = codes "a";
  invitee_email = codes "b@x";
  role = editor;
  token = codes "k";
  status = pending;
  expires_at = 259200005;
  created_at = 5;
}

abbrev pub start : Directory
start = record {
  users =
      record {
        id = codes "a";
        email = codes "a@x";
        display_name = codes "Ann";
        color = codes "#000";
      }
      ∷ record {
        id = codes "b";
        email = codes "b@x";
        display_name = codes "Bob";
        color = codes "#000";
      }
      ∷ [];
  documents =
      record {
        id = paper;
        title = codes "Paper";
        owner_id = codes "a";
        created_at = 1;
        updated_at = 1;
        is_deleted = false;
      }
      ∷ [];
  permissions = record { doc_id = paper; user_id = codes "a"; role = owner } ∷ [];
  invitations = [];
  notifications = [];
  audit_log = [];
  published = [];
}

abbrev draws : Routes.Supplied
draws = record {
  now = 5;
  id = codes "i";
  notification_id = codes "n";
  token = codes "k";
  redis_answers = true;
}

abbrev invitation_body : Routes.InviteBody
invitation_body = record { email = some (codes "b@x"); role = some editor; type = none }

abbrev with_invitation : Directory
with_invitation = record start { invitations = invited ∷ [] }

bob_joins :
    role_in paper
      (codes "b")
      (Routes.serve bob (Routes.accept_invite (codes "k")) draws with_invitation).1
    ≡ some editor
unfolding Routes.serve ◌===◌ any find filter
bob_joins = refl

-- The length is tested before the blanks are taken off.
blank_title : Routes.validated_title (codes "  ") ≡ some []
unfolding Routes.validated_title ◌===◌ any find filter
blank_title = refl

permission_changes_example :
    Justified bob draws with_invitation paper
      (codes "b")
      (Routes.accept_invite (codes "k"))
      (Routes.serve bob (Routes.accept_invite (codes "k")) draws with_invitation).1
permission_changes_example =
    permission_changes bob draws with_invitation paper (codes "b")
      (Routes.accept_invite (codes "k"))

abbrev known_header : Text → Option Routes.Requester
known_header token = some bob

handle_request-refusal_example :
    (Routes.handle_request known_header
      (some (codes "Bearer t"))
      (Routes.delete_doc paper)
      draws
      start).1
    ≡ start
unfolding Routes.handle_request ◌===◌ any find filter
handle_request-refusal_example =
    handle_request-refusal known_header (some (codes "Bearer t")) (Routes.delete_doc paper) draws
      start 404 refl

invite_route-Sent_example :
    (target : UserRow) × (find (λ u. u.email === codes "b@x") start.users ≡ some target)
    × Sent ann paper invitation_body draws start target invited
        (Routes.serve ann (Routes.invite_user paper invitation_body) draws start).1
unfolding Routes.serve ◌===◌ any find filter
invite_route-Sent_example = invite_route-Sent ann paper invitation_body draws start invited refl

abbrev later : List (Routes.Requester × Routes.Request × Routes.Supplied)
later = (ann, Routes.create_doc (codes "Paper"), draws) ∷ (bob, Routes.list_docs, draws) ∷ []

deleted_for_good_example :
    (Routes.serve ann
      (Routes.get_doc paper)
      draws
      (run later (Routes.serve ann (Routes.delete_doc paper) draws start).1)).0
    ≡ Routes.refusal 404
unfolding Routes.serve ◌===◌ any find filter
deleted_for_good_example = deleted_for_good ann paper draws start later ann draws refl
