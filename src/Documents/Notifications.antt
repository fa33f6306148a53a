-- ===== src/Documents/Notifications.antt =====
-- The reading and marking of notifications: src/server/persistence/notification-store.ts.
use sync_engine.Base.{
  ℕ, ◌≡◌, refl, Bool, true, false, not, ◌&&◌, Option, none, some, List, [], ◌∷◌, map, filter, take,
  drop, ltb, arith, if◌then◌else◌,
}
use sync_engine.Base.Text.{Text, ◌===◌, ===_iff}
use sync_engine.Documents.{NotificationRow, Directory}

-- ORDER BY created_at DESC
unfoldable pub insert_latest : NotificationRow → List NotificationRow → List NotificationRow
insert_latest n [] = n ∷ []
insert_latest n (m ∷ rows) =
    let further = m ∷ insert_latest n rows in
    if ltb m.created_at n.created_at then n ∷ m ∷ rows else further

unfoldable pub latest_first : List NotificationRow → List NotificationRow
unfolding insert_latest
latest_first [] = []
latest_first (n ∷ rows) = insert_latest n (latest_first rows)

abbrev pub notifications_of : Text → List NotificationRow → List NotificationRow
notifications_of user_id rows = filter (λ n. n.user_id === user_id) rows

-- LIMIT and OFFSET
unfoldable pub get_user_notifications : Text → ℕ → ℕ → Directory → List NotificationRow
unfolding latest_first
get_user_notifications user_id limit offset t =
    take limit (drop offset (latest_first (notifications_of user_id t.notifications)))

abbrev read_by : Text → Text → ℕ → NotificationRow → NotificationRow
read_by id user_id now n =
    if n.id === id && n.user_id === user_id then record n { read_at = some now } else n

unfoldable pub mark_notification_as_read : Text → Text → ℕ → Directory → Directory
mark_notification_as_read id user_id now t = record t {
  notifications = map (read_by id user_id now) t.notifications;
}

-- `read_at IS NULL`
abbrev is_unread : Option ℕ → Bool
is_unread none = true
is_unread (some at) = false

abbrev all_read_by : Text → ℕ → NotificationRow → NotificationRow
all_read_by user_id now n =
    if n.user_id === user_id && is_unread n.read_at then record n { read_at = some now } else n

unfoldable pub mark_all_notifications_as_read : Text → ℕ → Directory → Directory
mark_all_notifications_as_read user_id now t = record t {
  notifications = map (all_read_by user_id now) t.notifications;
}

unfoldable pub delete_notification : Text → Text → Directory → Directory
delete_notification id user_id t = record t {
  notifications = filter (λ n. not (n.id === id && n.user_id === user_id)) t.notifications;
}

-- The rows of any other user stay as they are, whichever of the three a user does.
module _ (id user_id other : Text) (now : ℕ) (differ : (user_id === other) ≡ false) where
  marked_others :
      (rows : List NotificationRow)
      → notifications_of other (map (read_by id user_id now) rows) ≡ notifications_of other rows
  unfolding filter
  marked_others [] = refl
  marked_others (n ∷ rows) = ground (
    arith,
    differ,
    marked_others rows,
    ===_iff n.user_id user_id,
    ===_iff n.user_id other,
    ===_iff user_id other,
  )

  all_marked_others :
      (rows : List NotificationRow)
      → notifications_of other (map (all_read_by user_id now) rows) ≡ notifications_of other rows
  unfolding filter
  all_marked_others [] = refl
  all_marked_others (n ∷ rows) = ground (
    arith,
    differ,
    all_marked_others rows,
    ===_iff n.user_id user_id,
    ===_iff n.user_id other,
    ===_iff user_id other,
  )

  deleted_others :
      (rows : List NotificationRow)
      → notifications_of other (filter (λ n. not (n.id === id && n.user_id === user_id)) rows)
        ≡ notifications_of other rows
  unfolding filter
  deleted_others [] = refl
  deleted_others (n ∷ rows) = ground (
    arith,
    differ,
    deleted_others rows,
    ===_iff n.user_id user_id,
    ===_iff n.user_id other,
    ===_iff user_id other,
  )
