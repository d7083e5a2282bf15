-- ===== src/Goals/Repository.antt =====
-- The statements of backend/internal/goals/postgres_repository.go.
use proof_forge.Prelude.{ℕ, ◌+◌, Option, none, some, [], ◌∷◌, ◌++◌, any, find_by, if◌then◌else◌}
use proof_forge.Prelude.Text.{Text, text_eq, codes}
use proof_forge.Prelude.Action.{statement, query, execute, or_fail, pure, transaction, ◌>>=◌, ◌>>◌}
use proof_forge.Users.{User, user_keyed}
use proof_forge.Goals.Domain.{
  Goal, PactStatus, InviteStatus, Pact, Invite, GoalView, db_failure, goal_keyed,
}
use proof_forge.Goals.Tables.{
  PactRow, InviteRow, Circle, Store, M, may_insert, has_email, has_token, pact_keyed, invite_keyed,
}

pub record AutoCircleParams : Type 0 where
  pub name : Text
  pub invite_code : Text
  pub member_limit : ℕ
  pub starts_at : ℕ
  pub ends_at : ℕ

-- CreateGoalParams; the circle is one that exists, or one to create. The row of the goal stands for
-- the fields that are its columns.
pub data CircleChoice : Type 0 where
  existing : ℕ → CircleChoice
  auto : AutoCircleParams → CircleChoice

pub record CreateGoalParams : Type 0 where
  pub owner_id : ℕ
  pub buddy_name : Text
  pub buddy_email : Text
  pub circle : CircleChoice
  pub columns : Goal
  pub pact_status : PactStatus
  pub invite_status : InviteStatus
  pub invite_token_hash : Text
  pub invite_expires_at : ℕ

abbrev new_circle : ℕ → ℕ → ℕ → AutoCircleParams → Circle
new_circle id db_now owner p = record {
  id = id;
  owner_user_id = owner;
  name = p.name;
  invite_code = p.invite_code;
  member_limit = p.member_limit;
  created_at = db_now;
}

-- INSERT INTO circles; the code is unique.
unfoldable pub place_circle : ℕ → ℕ → AutoCircleParams → Store → Option ℕ × Store
place_circle db_now owner p s =
    if any (λ c. text_eq c.invite_code p.invite_code) s.circles then (none, s) else (
      some s.next_circle_id,
      record s {
        circles = s.circles ++ new_circle s.next_circle_id db_now owner p ∷ [];
        next_circle_id = s.next_circle_id + 1;
      },
    )

unfoldable pub insert_circle : ℕ → ℕ → AutoCircleParams → M ℕ
insert_circle db_now owner p = do
  row ← statement db_failure (place_circle db_now owner p)
  or_fail row db_failure

-- insertAutoCircle
unfoldable pub insert_auto_circle : ℕ → ℕ → AutoCircleParams → M ℕ
insert_auto_circle db_now owner p = do
  circle ← insert_circle db_now owner p
  execute db_failure λ s. record s {
    seasons =
        s.seasons
        ++ record {
          circle_id = circle;
          status = codes "active";
          starts_at = p.starts_at;
          ends_at = p.ends_at;
        }
          ∷ [];
  }
  execute db_failure λ s. record s {
    memberships =
        s.memberships
        ++ record {
          circle_id = circle;
          user_id = owner;
          status = codes "active";
          role = codes "owner";
        }
          ∷ [];
  }
  pure circle

-- The circle of the new goal.
unfoldable pub settle_circle : ℕ → ℕ → CircleChoice → M ℕ
settle_circle db_now owner (existing circle) = pure circle
settle_circle db_now owner (auto p) = insert_auto_circle db_now owner p

unfoldable pub insert_user : Text → Text → M User
insert_user email name = statement db_failure λ s. (
  record { id = s.next_user_id; email = email; display_name = name },
  record s {
    users = s.users ++ record { id = s.next_user_id; email = email; display_name = name } ∷ [];
    next_user_id = s.next_user_id + 1;
  },
)

abbrev pub found_or_new : Text → Text → Option User → M User
found_or_new email name none = insert_user email name
found_or_new email name (some u) = pure u

-- findOrCreateBuddy
unfoldable pub find_or_create_buddy : Text → Text → M User
find_or_create_buddy email name = do
  row ← query db_failure (λ s. find_by (has_email email) s.users)
  found_or_new email name row

abbrev pub goal_row : ℕ → ℕ → CreateGoalParams → ℕ → ℕ → Goal
goal_row id db_now p circle buddy = record p.columns {
  id = id;
  owner_user_id = p.owner_id;
  buddy_user_id = some buddy;
  circle_id = some circle;
  team_id = none;
  current_streak_count = 0;
  initiative_id = none;
  created_at = db_now;
  updated_at = db_now;
}

-- INSERT INTO goals; the row must meet the constraints of the table.
unfoldable pub place_goal : ℕ → CreateGoalParams → ℕ → ℕ → Store → Option Goal × Store
place_goal db_now p circle buddy s =
    let g = goal_row s.next_goal_id db_now p circle buddy in
    if may_insert g s
    then (some g, record s { goals = s.goals ++ g ∷ []; next_goal_id = s.next_goal_id + 1 })
    else (none, s)

-- insertGoal
unfoldable pub insert_goal : ℕ → CreateGoalParams → ℕ → ℕ → M Goal
insert_goal db_now p circle buddy = do
  row ← statement db_failure (place_goal db_now p circle buddy)
  or_fail row db_failure

abbrev pub pact_row : ℕ → ℕ → CreateGoalParams → ℕ → ℕ → PactRow
pact_row id db_now p goal buddy = record {
  id = id;
  goal_id = goal;
  owner_user_id = p.owner_id;
  buddy_user_id = buddy;
  status = p.pact_status;
  accepted_at = none;
  created_at = db_now;
  updated_at = db_now;
}

unfoldable pub place_pact : ℕ → CreateGoalParams → ℕ → ℕ → Store → PactRow × Store
place_pact db_now p goal buddy s =
    let row = pact_row s.next_pact_id db_now p goal buddy in
    (row, record s { pacts = s.pacts ++ row ∷ []; next_pact_id = s.next_pact_id + 1 })

-- insertPact
unfoldable pub insert_pact : ℕ → CreateGoalParams → ℕ → ℕ → M PactRow
insert_pact db_now p goal buddy = statement db_failure (place_pact db_now p goal buddy)

abbrev pub invite_row : ℕ → ℕ → CreateGoalParams → ℕ → ℕ → ℕ → InviteRow
invite_row id db_now p goal pact buddy = record {
  id = id;
  goal_id = goal;
  pact_id = pact;
  inviter_user_id = p.owner_id;
  invitee_user_id = buddy;
  token_hash = p.invite_token_hash;
  status = p.invite_status;
  expires_at = p.invite_expires_at;
  accepted_at = none;
  created_at = db_now;
}

-- INSERT INTO invites; the hash of the token is unique.
unfoldable pub place_invite : ℕ → CreateGoalParams → ℕ → ℕ → ℕ → Store → Option InviteRow × Store
place_invite db_now p goal pact buddy s =
    let i = invite_row s.next_invite_id db_now p goal pact buddy in
    if any (has_token p.invite_token_hash) s.invites
    then (none, s)
    else (some i, record s { invites = s.invites ++ i ∷ []; next_invite_id = s.next_invite_id + 1 })

-- insertInvite
unfoldable pub insert_invite : ℕ → CreateGoalParams → ℕ → ℕ → ℕ → M InviteRow
insert_invite db_now p goal pact buddy = do
  row ← statement db_failure (place_invite db_now p goal pact buddy)
  or_fail row db_failure

-- BEGIN and COMMIT: calls that can fail, and change nothing by themselves.
abbrev pub tx_mark : M (Unit {0})
tx_mark = execute db_failure (λ s. s)

abbrev pub pact_of : PactRow → Pact
pact_of p = record { id = p.id; status = p.status; accepted_at = p.accepted_at }

abbrev pub invite_of : Text → InviteRow → Invite
invite_of token i = record {
  id = i.id;
  status = i.status;
  expires_at = i.expires_at;
  acceptance_token = token;
}

-- CreateGoalWithInvite
unfoldable pub create_goal_with_invite : ℕ → CreateGoalParams → M GoalView
create_goal_with_invite db_now p = transaction do
  tx_mark
  circle ← settle_circle db_now p.owner_id p.circle
  buddy ← find_or_create_buddy p.buddy_email p.buddy_name
  goal ← insert_goal db_now p circle buddy.id
  pact ← insert_pact db_now p goal.id buddy.id
  invite ← insert_invite db_now p goal.id pact.id buddy.id
  tx_mark
  pure (record {
    goal = goal;
    buddy = some buddy;
    pact = some (pact_of pact);
    invite = some (invite_of [] invite);
    viewer_role = none;
  })
