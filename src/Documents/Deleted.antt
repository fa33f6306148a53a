-- ===== src/Documents/Deleted.antt =====
-- Documents that were deleted: src/server/api/routes/documents.ts and document-store.ts.
use sync_engine.Base.{
  ℕ, ◌≡◌, refl, ◌⊎◌, true, false, none, some, List, [], ◌∷◌, ◌++◌, map, any, find, arith,
  Bool-cases, Option-cases, inl, inr,
}
use sync_engine.Base.Text.{Text, ◌===◌, ===→eq}
use sync_engine.Documents.{
  Directory, DocumentRow, has_document, live_document, deleted_at, create_document,
  get_document_with_permission, soft_delete_document, update_collaborator_role, owner,
}
use sync_engine.Documents.Invitations.{
  accept_invitation, upsert_permission, reject_invitation, create_email_invitation,
  create_notification,
}
use sync_engine.Documents.Access.{get_document_with_permission-some}
use sync_engine.Documents.Routes

-- The document was stored once, and no live row has its identifier.
pub record IsDeleted (doc_id : Text) (t : Directory) : Type 0 where
  pub stored : has_document doc_id t.documents ≡ true
  pub not_live : live_document doc_id t.documents ≡ none

live_document-append :
    (doc_id : Text) (docs : List DocumentRow) (d : DocumentRow)
    → live_document doc_id docs ≡ none
    → (d.id === doc_id) ≡ false
    → live_document doc_id (docs ++ d ∷ []) ≡ none
unfolding live_document find
live_document-append doc_id [] d h n = ground (arith, n)
live_document-append doc_id (e ∷ docs) d h n =
    ground (arith, h, n, live_document-append doc_id docs d)

has_document-append :
    (doc_id : Text) (docs : List DocumentRow) (d : DocumentRow)
    → has_document doc_id docs ≡ true
    → has_document doc_id (docs ++ d ∷ []) ≡ true
unfolding has_document any
has_document-append doc_id [] d h = ground (arith, h)
has_document-append doc_id (e ∷ docs) d h = ground (arith, h, has_document-append doc_id docs d)

live_document-deleted_at :
    (doc_id other : Text) (now : ℕ) (docs : List DocumentRow)
    → live_document doc_id docs ≡ none
    → live_document doc_id (map (deleted_at other now) docs) ≡ none
unfolding live_document find
live_document-deleted_at doc_id other now [] h = refl
live_document-deleted_at doc_id other now (d ∷ docs) h =
    ground (arith, h, live_document-deleted_at doc_id other now docs)

pub deleted_at-not_live :
    (doc_id : Text) (now : ℕ) (docs : List DocumentRow)
    → live_document doc_id (map (deleted_at doc_id now) docs) ≡ none
unfolding live_document find
deleted_at-not_live doc_id now [] = refl
deleted_at-not_live doc_id now (d ∷ docs) = ground (arith, deleted_at-not_live doc_id now docs)

has_document-deleted_at :
    (doc_id other : Text) (now : ℕ) (docs : List DocumentRow)
    → has_document doc_id (map (deleted_at other now) docs) ≡ has_document doc_id docs
unfolding has_document any
has_document-deleted_at doc_id other now [] = refl
has_document-deleted_at doc_id other now (d ∷ docs) =
    ground (arith, has_document-deleted_at doc_id other now docs)

live-has_document :
    (doc_id : Text) (docs : List DocumentRow) (d : DocumentRow)
    → live_document doc_id docs ≡ some d
    → has_document doc_id docs ≡ true
unfolding live_document find has_document any
live-has_document doc_id [] d h = ground (arith, h)
live-has_document doc_id (e ∷ docs) d h = ground (arith, h, live-has_document doc_id docs d)

-- The documents after a request: as before, with one more of a new identifier, or with one deleted.
abbrev DocumentsAfter : List DocumentRow → List DocumentRow → Type 0
DocumentsAfter docs docs' =
    (docs' ≡ docs)
    ⊎ ((d : DocumentRow) × (has_document d.id docs ≡ false) × (docs' ≡ docs ++ d ∷ []))
    ⊎ ((id : Text) × (now : ℕ) × (docs' ≡ map (deleted_at id now) docs))

kept-IsDeleted :
    (doc_id : Text) (t t' : Directory)
    → IsDeleted doc_id t
    → DocumentsAfter t.documents t'.documents
    → IsDeleted doc_id t'
kept-IsDeleted doc_id t t' gone (inl same) = ground (arith, gone, same)
kept-IsDeleted doc_id t t' gone (inr (inl (d, fresh, more))) =
    let other : (d.id === doc_id) ≡ false =
      ground (arith, ===→eq d.id doc_id, fresh, gone.stored) in
    ground (
      arith,
      more,
      gone,
      live_document-append doc_id t.documents d gone.not_live other,
      has_document-append doc_id t.documents d gone.stored,
    )
kept-IsDeleted doc_id t t' gone (inr (inr (id, now, marked))) = ground (
  arith,
  marked,
  gone,
  live_document-deleted_at doc_id id now t.documents gone.not_live,
  has_document-deleted_at doc_id id now t.documents,
)

module _ (who : Routes.Requester) (w : Routes.Supplied) (t : Directory) where
  create_route-documents :
      (title : Text) → DocumentsAfter t.documents (Routes.create_route who title w t).1.documents
  unfolding Routes.create_route create_document
  create_route-documents title = elim (Option-cases (Routes.validated_title title)) [
    | inl bad ↦ inl (ground (arith, bad))
    | inr (title', good) ↦ elim (Option-cases (create_document title' who.user_id w.id w.now t)) [
      | inl failed ↦ inl (ground (arith, good, failed))
      | inr ((row, t'), made) ↦ inr (inl (row, ground (arith, made), ground (arith, good, made)))
    ]
  ]

  delete_route-documents :
      (doc_id : Text) → DocumentsAfter t.documents (Routes.delete_route who doc_id w t).1.documents
  unfolding Routes.delete_route soft_delete_document
  delete_route-documents doc_id =
      elim (Option-cases (get_document_with_permission doc_id who.user_id t)) [
        | inl hidden ↦ inl (ground (arith, hidden))
        | inr (a, seen) ↦ elim (Bool-cases (a.role === owner)) [
          | inl top ↦ inr (inr (doc_id, w.now, ground (arith, seen, top)))
          | inr lower ↦ inl (ground (arith, seen, lower))
        ]
      ]

  invite_route-documents :
      (doc_id : Text) (body : Routes.InviteBody)
      → (Routes.invite_route who doc_id body w t).1.documents ≡ t.documents
  unfolding Routes.invite_route Routes.invite_registered Routes.send_invitation
      create_email_invitation create_notification
  invite_route-documents doc_id body = ground arith

  serve-documents :
      (req : Routes.Request) → DocumentsAfter t.documents (Routes.serve who req w t).1.documents
  unfolding Routes.serve
  serve-documents (Routes.create_doc title) = create_route-documents title
  serve-documents Routes.list_docs = inl refl
  serve-documents (Routes.get_doc doc_id) = inl (ground arith)
  serve-documents (Routes.delete_doc doc_id) = delete_route-documents doc_id
  serve-documents (Routes.invite_user doc_id body) = inl (invite_route-documents doc_id body)
  serve-documents (Routes.list_invites doc_id) = inl refl
  serve-documents (Routes.list_collaborators doc_id) = inl refl
  serve-documents (Routes.change_role doc_id target role) =
      inl (unfold Routes.change_role_route update_collaborator_role in ground arith)
  serve-documents (Routes.remove_member doc_id target) =
      inl (unfold Routes.remove_member_route in ground arith)
  serve-documents (Routes.get_invite token) = inl (ground arith)
  serve-documents (Routes.accept_invite token) =
      inl (unfold accept_invitation upsert_permission in ground arith)
  serve-documents (Routes.reject_invite token) = inl (unfold reject_invitation in ground arith)
  serve-documents (Routes.revoke_invite id) = inl refl

-- Requests that are served one after the other.
pub run : List (Routes.Requester × Routes.Request × Routes.Supplied) → Directory → Directory
run [] t = t
run ((who, req, w) ∷ later) t = run later (Routes.serve who req w t).1

run-IsDeleted :
    (later : List (Routes.Requester × Routes.Request × Routes.Supplied)) (doc_id : Text)
    (t : Directory)
    → IsDeleted doc_id t
    → IsDeleted doc_id (run later t)
unfolding run
run-IsDeleted [] doc_id t gone = gone
run-IsDeleted ((who, req, w) ∷ later) doc_id t gone =
    run-IsDeleted later doc_id (Routes.serve who req w t).1
      (kept-IsDeleted doc_id t (Routes.serve who req w t).1 gone (serve-documents who w t req))

delete_route-IsDeleted :
    (who : Routes.Requester) (doc_id : Text) (w : Routes.Supplied) (t : Directory)
    → (Routes.serve who (Routes.delete_doc doc_id) w t).0 ≡ Routes.success 200 Routes.ok
    → IsDeleted doc_id (Routes.serve who (Routes.delete_doc doc_id) w t).1
unfolding Routes.serve Routes.delete_route soft_delete_document
delete_route-IsDeleted who doc_id w t h =
    elim (Option-cases (get_document_with_permission doc_id who.user_id t)) [
      | inl hidden ↦ absurd (ground (arith, h, hidden))
      | inr (a, seen) ↦
          let there = (get_document_with_permission-some doc_id who.user_id t a seen).1 in
          ground (
            arith,
            h,
            seen,
            deleted_at-not_live doc_id w.now t.documents,
            has_document-deleted_at doc_id doc_id w.now t.documents,
            live-has_document doc_id t.documents a.document there,
          )
    ]

-- Once a request to delete a document is answered by success, no later request brings it back:
-- after any requests of any users, every user's request for the document is answered by 404, also
-- the owner's.
pub deleted_for_good :
    (who : Routes.Requester) (doc_id : Text) (w : Routes.Supplied) (t : Directory)
    (later : List (Routes.Requester × Routes.Request × Routes.Supplied)) (reader : Routes.Requester)
    (w' : Routes.Supplied)
    → (Routes.serve who (Routes.delete_doc doc_id) w t).0 ≡ Routes.success 200 Routes.ok
    → (Routes.serve reader
        (Routes.get_doc doc_id)
        w'
        (run later (Routes.serve who (Routes.delete_doc doc_id) w t).1)).0
      ≡ Routes.refusal 404
deleted_for_good who doc_id w t later reader w' h =
    let t' = run later (Routes.serve who (Routes.delete_doc doc_id) w t).1 in
    let gone =
      run-IsDeleted later doc_id (Routes.serve who (Routes.delete_doc doc_id) w t).1
        (delete_route-IsDeleted who doc_id w t h) in
    unfold Routes.serve get_document_with_permission in ground (arith, gone.not_live)
