-- ===== src/Circles/Seasons.antt =====
-- The statements of backend/internal/circles/postgres_repository.go on invitations and seasons.
use proof_forge.Prelude.{
  ℕ, ◌+◌, none, some, Bool, true, false, ◌&&◌, List, [], ◌∷◌, ◌++◌, map, any, select, find_by, ltb,
  ◌==◌, if◌then◌else◌,
}
use proof_forge.Prelude.Text.{Text, codes, text_eq}
use proof_forge.Prelude.Table.{find, modify}
use proof_forge.Prelude.Sorting.{descending}
use proof_forge.Prelude.Action.{
  pure, statement, query, execute, or_fail, guard, transaction, ◌>>=◌, ◌>>◌,
}
use proof_forge.Users.{user_keyed}
use proof_forge.Circles.Domain.{
  CircleInvitation, CircleInvitationStatus, pending, accepted, declined, observer, Season,
  completed, SeasonEndAction, db_failure, circle_invitation_not_found,
  circle_invitation_already_done, season_not_found,
}
use proof_forge.Circles.Tables.{
  Store, M, SeasonRow, InvitationRow, circle_keyed, season_keyed, invitation_keyed,
  is_active_season,
}
use proof_forge.Circles.Repository.{
  tx_mark, new_membership, place_membership, place_season, season_of,
}

pub record InviteToCircleParams : Type 0 where
  pub circle_id : ℕ
  pub inviter_user_id : ℕ
  pub target_email : Text
  pub message : Text

abbrev pub is_invitation : ℕ → Text → InvitationRow → Bool
is_invitation circle email i = i.circle_id == circle && text_eq i.target_email email

-- DO UPDATE SET status = 'pending', message = EXCLUDED.message
abbrev pub renewed : Text → InvitationRow → InvitationRow
renewed message i = record i { status = pending; message = message }

abbrev fresh_invitation : ℕ → ℕ → InviteToCircleParams → InvitationRow
fresh_invitation id db_now p = record {
  id = id;
  circle_id = p.circle_id;
  inviter_user_id = p.inviter_user_id;
  target_email = p.target_email;
  status = pending;
  message = p.message;
  created_at = db_now;
}

-- INSERT INTO circle_invitations … ON CONFLICT (circle_id, target_email) DO UPDATE … RETURNING
unfoldable pub upsert_invitation : ℕ → InviteToCircleParams → Store → InvitationRow × Store
upsert_invitation db_now p s =
    elim (find_by (is_invitation p.circle_id p.target_email) s.invitations) [
      | none ↦ (
        fresh_invitation s.next_invitation_id db_now p,
        record s {
          invitations = s.invitations ++ fresh_invitation s.next_invitation_id db_now p ∷ [];
          next_invitation_id = s.next_invitation_id + 1;
        },
      )
      | some i ↦ (
        renewed p.message i,
        record s { invitations = modify i.id (renewed p.message) s.invitations },
      )
    ]

abbrev invitation_of : InvitationRow → Text → CircleInvitation
invitation_of i name = record {
  id = i.id;
  circle_id = i.circle_id;
  circle_name = name;
  inviter_id = i.inviter_user_id;
  target_email = i.target_email;
  status = i.status;
  message = i.message;
  created_at = i.created_at;
}

-- InviteToCircle
unfoldable pub invite : ℕ → InviteToCircleParams → M CircleInvitation
invite db_now p = do
  row ← statement db_failure (upsert_invitation db_now p)
  c ← query db_failure (λ s. find p.circle_id s.circles)
  c ← or_fail c db_failure
  pure (invitation_of row c.name)

abbrev pub is_open : CircleInvitationStatus → Bool
is_open pending = true
is_open accepted = false
is_open declined = false

-- JOIN circles c ON c.id = ci.circle_id
unfoldable pub named_invitations : Store → List InvitationRow → List CircleInvitation
named_invitations s [] = []
named_invitations s (i ∷ is) = elim (find i.circle_id s.circles) [
  | none ↦ named_invitations s is
  | some c ↦ invitation_of i c.name ∷ named_invitations s is
]

-- ListInvitationsForUser
unfoldable pub list_invitations_for_user : Text → M (List CircleInvitation)
list_invitations_for_user email = query db_failure λ s. named_invitations s (
    descending (λ i. i.created_at)
      (select (λ i. text_eq i.target_email email && is_open i.status) s.invitations))

abbrev pub with_status : CircleInvitationStatus → InvitationRow → InvitationRow
with_status status i = record i { status = status }

-- UPDATE circle_invitations SET status … WHERE id = …; whether a row has the id.
abbrev pub set_invitation : ℕ → CircleInvitationStatus → Store → Bool × Store
set_invitation id status s = (
  any (λ i. i.id == id) s.invitations,
  record s { invitations = modify id (with_status status) s.invitations },
)

-- AcceptCircleInvitation; the membership is inserted ON CONFLICT DO NOTHING.
unfoldable pub accept_invitation : ℕ → ℕ → ℕ → M (Unit {0})
accept_invitation db_now id user = transaction do
  tx_mark
  u ← query db_failure (λ s. find user s.users)
  u ← or_fail u circle_invitation_not_found
  i ← query db_failure (λ s. find id s.invitations)
  i ← or_fail i circle_invitation_not_found
  guard (is_open i.status) circle_invitation_already_done
  guard (text_eq i.target_email u.email) circle_invitation_not_found
  statement db_failure (set_invitation id accepted)
  statement db_failure (place_membership (new_membership i.circle_id user observer db_now))
  tx_mark

-- DeclineCircleInvitation
unfoldable pub decline_invitation : ℕ → M (Unit {0})
decline_invitation id = do
  affected ← statement db_failure (set_invitation id declined)
  guard affected circle_invitation_not_found

-- GetSeason
unfoldable pub get_season : ℕ → ℕ → M Season
get_season circle season = do
  row ← query db_failure (λ s. find_by (λ r. r.id == season && r.circle_id == circle) s.seasons)
  row ← or_fail row season_not_found
  pure (season_of row)

abbrev pub ended_with : SeasonEndAction → SeasonRow → SeasonRow
ended_with action r = record r { status = completed; ended_action = some action }

-- The columns of circle_seasons after all migrations (00002_circles.sql and
-- 00007_goal_circle_required.sql).
abbrev season_columns : List Text
season_columns =
    codes "id"
    ∷ codes "circle_id"
    ∷ codes "status"
    ∷ codes "starts_at"
    ∷ codes "ends_at"
    ∷ codes "created_at"
    ∷ codes "ended_action"
    ∷ codes "successor_circle_id"
    ∷ []

abbrev is_season_column : Text → Bool
is_season_column c = any (λ d. text_eq c d) season_columns

-- MarkSeasonCompleted. The database refuses an UPDATE that sets a column that the table lacks.
unfoldable pub mark_season_completed : ℕ → SeasonEndAction → M (Unit {0})
mark_season_completed season action = do
  guard
      (is_season_column (codes "status")
        && is_season_column (codes "ended_action")
        && is_season_column (codes "updated_at"))
      db_failure
  affected ← statement db_failure (λ s. (
    any (λ r. r.id == season) s.seasons,
    record s { seasons = modify season (ended_with action) s.seasons },
  ))
  guard affected season_not_found

-- CreateExtendedSeason
unfoldable pub create_extended_season : ℕ → ℕ → ℕ → M Season
create_extended_season circle starts_at ends_at = do
  row ← statement db_failure (place_season circle starts_at ends_at)
  pure (season_of row)

-- status = 'active' AND ends_at < NOW()
abbrev pub is_expired : ℕ → ℕ → SeasonRow → Bool
is_expired circle now r = is_active_season circle r && ltb r.ends_at now

abbrev pub expire : ℕ → ℕ → SeasonRow → SeasonRow
expire circle now r = if is_expired circle now r then record r { status = completed } else r

-- LazyCompleteExpiredSeason
unfoldable pub lazy_complete_expired_season : ℕ → ℕ → M (Unit {0})
lazy_complete_expired_season db_now circle =
    execute db_failure λ s. record s { seasons = map (expire circle db_now) s.seasons }
