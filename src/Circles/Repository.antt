-- ===== src/Circles/Repository.antt =====
-- The statements of backend/internal/circles/postgres_repository.go on circles and members.
use proof_forge.Prelude.{
  ℕ, ◌+◌, Option, none, some, Bool, true, false, not, ◌&&◌, ◌||◌, List, [], ◌∷◌, ◌++◌, map, any,
  select, find_by, ltb, ◌==◌, if◌then◌else◌,
}
use proof_forge.Prelude.Text.{Text, text_eq}
use proof_forge.Prelude.Table.{find}
use proof_forge.Prelude.Sorting.{sort_by, descending}
use proof_forge.Prelude.Action.{
  pure, statement, query, execute, or_fail, guard, transaction, ◌>>=◌, ◌>>◌,
}
use proof_forge.Users.{User, user_keyed}
use proof_forge.Goals.{goal_keyed}
use proof_forge.Circles.Domain.{
  Circle, Member, active_member, MemberRole, owner, observer, Season, active, Detail, db_failure,
  circle_not_found, not_circle_member, already_circle_member, circle_is_full,
}
use proof_forge.Circles.Tables.{
  Store, M, MembershipRow, SeasonRow, circle_keyed, is_active_member, is_membership,
  is_active_season, member_count,
}

pub record CreateCircleParams : Type 0 where
  pub owner_user_id : ℕ
  pub name : Text
  pub invite_code : Text
  pub member_limit : ℕ
  pub starts_at : ℕ
  pub ends_at : ℕ

pub record JoinCircleParams : Type 0 where
  pub user_id : ℕ
  pub invite_code : Text
  pub joined_at : ℕ

-- BEGIN and COMMIT may be refused too.
abbrev pub tx_mark : M (Unit {0})
tx_mark = execute db_failure (λ s. s)

abbrev has_code : Text → Circle → Bool
has_code code c = text_eq c.invite_code code

abbrev pub new_circle : ℕ → ℕ → CreateCircleParams → Circle
new_circle id db_now p = record {
  id = id;
  owner_user_id = p.owner_user_id;
  name = p.name;
  invite_code = p.invite_code;
  member_limit = p.member_limit;
  created_at = db_now;
  updated_at = db_now;
}

-- INSERT INTO circles; the code is unique.
unfoldable pub place_circle : ℕ → CreateCircleParams → Store → Option ℕ × Store
place_circle db_now p s = if any (has_code p.invite_code) s.circles then (none, s) else (
  some s.next_circle_id,
  record s {
    circles = s.circles ++ new_circle s.next_circle_id db_now p ∷ [];
    next_circle_id = s.next_circle_id + 1;
  },
)

abbrev pub new_membership : ℕ → ℕ → MemberRole → ℕ → MembershipRow
new_membership circle user role joined_at = record {
  circle_id = circle;
  user_id = user;
  status = active_member;
  role = role;
  joined_at = joined_at;
}

-- INSERT INTO circle_memberships; false when the circle and the user are taken.
unfoldable pub place_membership : MembershipRow → Store → Bool × Store
place_membership m s =
    if any (is_membership m.circle_id m.user_id) s.memberships
    then (false, s)
    else (true, record s { memberships = s.memberships ++ m ∷ [] })

unfoldable pub insert_membership : MembershipRow → M (Unit {0})
insert_membership m = do placed ← statement db_failure (place_membership m); guard placed db_failure

-- INSERT INTO circle_seasons … RETURNING
unfoldable pub place_season : ℕ → ℕ → ℕ → Store → SeasonRow × Store
place_season circle starts_at ends_at s =
    let row : SeasonRow = record {
      id = s.next_season_id;
      circle_id = circle;
      status = active;
      starts_at = starts_at;
      ends_at = ends_at;
      ended_action = none;
    } in
    (row, record s { seasons = s.seasons ++ row ∷ []; next_season_id = s.next_season_id + 1 })

abbrev pub season_of : SeasonRow → Season
season_of r = record {
  id = r.id;
  circle_id = r.circle_id;
  status = r.status;
  starts_at = r.starts_at;
  ends_at = r.ends_at;
}

-- The circle, for one of its active members.
unfoldable pub visible_circle : ℕ → ℕ → Store → Option Circle
visible_circle circle user s =
    if any (λ m. is_membership circle user m && is_active_member m.status) s.memberships
    then find circle s.circles
    else none

abbrev member_of : MembershipRow → User → Member
member_of m u = record {
  user_id = u.id;
  email = u.email;
  display_name = u.display_name;
  status = m.status;
  role = m.role;
  joined_at = m.joined_at;
}

-- JOIN users u ON u.id = m.user_id
unfoldable pub joined_members : List User → List MembershipRow → List Member
joined_members users [] = []
joined_members users (m ∷ ms) = elim (find m.user_id users) [
  | none ↦ joined_members users ms
  | some u ↦ member_of m u ∷ joined_members users ms
]

-- ORDER BY m.joined_at ASC, u.email ASC, in the database's order of texts
abbrev member_before : (Text → Text → Bool) → Member → Member → Bool
member_before collate a b =
    ltb a.joined_at b.joined_at || a.joined_at == b.joined_at && collate a.email b.email

unfoldable pub members_of : (Text → Text → Bool) → ℕ → Store → List Member
members_of collate circle s =
    sort_by (member_before collate)
      (joined_members s.users (select (λ m. m.circle_id == circle) s.memberships))

-- LIMIT 1
abbrev first : {A : Type 0} → List A → Option A
first [] = none
first (x ∷ xs) = some x

-- The active season that began last.
unfoldable pub current_season : ℕ → Store → Option SeasonRow
current_season circle s =
    first (descending (λ r. r.starts_at) (select (is_active_season circle) s.seasons))

-- GetCircleForUser and getCircleForUserTx
unfoldable pub get_circle_for_user : (Text → Text → Bool) → ℕ → ℕ → M Detail
get_circle_for_user collate circle user = do
  c ← query db_failure (visible_circle circle user)
  c ← or_fail c not_circle_member
  members ← query db_failure (members_of collate circle)
  season ← query db_failure (current_season circle)
  season ← or_fail season circle_not_found
  pure (record { circle = c; members = members; active_season = season_of season })

-- CreateCircle
unfoldable pub create_circle : (Text → Text → Bool) → ℕ → CreateCircleParams → M Detail
create_circle collate db_now p = transaction do
  tx_mark
  id ← statement db_failure (place_circle db_now p)
  id ← or_fail id db_failure
  insert_membership (new_membership id p.owner_user_id owner db_now)
  statement db_failure (place_season id p.starts_at p.ends_at)
  detail ← get_circle_for_user collate id p.owner_user_id
  tx_mark
  pure detail

-- FROM circles c WHERE c.invite_code = $1
unfoldable pub circle_by_code : Text → Store → Option Circle
circle_by_code code s = find_by (has_code code) s.circles

-- What JoinCircle reads with the circle: whether the user has a membership of it.
abbrev pub with_presence : ℕ → Store → Option Circle → Option (Circle × Bool)
with_presence user s none = none
with_presence user s (some c) = some (c, any (is_membership c.id user) s.memberships)

-- JoinCircle
unfoldable pub join_circle : (Text → Text → Bool) → JoinCircleParams → M Detail
join_circle collate p = transaction do
  tx_mark
  found ← query db_failure (λ s. with_presence p.user_id s (circle_by_code p.invite_code s))
  found ← or_fail found circle_not_found
  guard (not found.1) already_circle_member
  count ← query db_failure (λ s. member_count found.0.id s.memberships)
  guard (ltb count found.0.member_limit) circle_is_full
  insert_membership (new_membership found.0.id p.user_id observer p.joined_at)
  detail ← get_circle_for_user collate found.0.id p.user_id
  tx_mark
  pure detail

-- The circles of which the user is an active member, the latest first.
unfoldable pub circle_ids : ℕ → Store → List ℕ
circle_ids user s =
    map (λ c. c.id)
      (descending (λ c. c.created_at)
        (select
          (λ c. any (λ m. is_membership c.id user m && is_active_member m.status) s.memberships)
          s.circles))

-- The loop of ListCirclesForUser.
unfoldable pub details_for : (Text → Text → Bool) → ℕ → List ℕ → M (List Detail)
details_for collate user [] = pure []
details_for collate user (id ∷ ids) = get_circle_for_user collate id user >>= λ d.
    details_for collate user ids >>= λ ds. pure (d ∷ ds)

-- ListCirclesForUser
unfoldable pub list_circles_for_user : (Text → Text → Bool) → ℕ → M (List Detail)
list_circles_for_user collate user = do
  ids ← query db_failure (circle_ids user)
  details_for collate user ids

abbrev in_circle_of : Option ℕ → MembershipRow → Bool
in_circle_of none m = false
in_circle_of (some circle) m = m.circle_id == circle

-- IsActiveMemberOfGoalCircle
unfoldable pub is_active_member_of_goal_circle : ℕ → ℕ → M Bool
is_active_member_of_goal_circle user goal = query db_failure λ s. elim (find goal s.goals) [
  | none ↦ false
  | some g ↦
      any (λ m. m.user_id == user && in_circle_of g.circle_id m && is_active_member m.status)
        s.memberships
]
