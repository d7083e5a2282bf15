-- ===== src/Goals/Service.antt =====
-- The use cases of backend/internal/goals/service.go on goals and invites.
use proof_forge.Prelude.{
  ℕ, ◌+◌, ◌*◌, Option, none, some, Bool, true, false, not, List, [], ◌∷◌, ◌++◌, map, take, length,
  count, find_by, ltb, leb, ◌==◌, if◌then◌else◌,
}
use proof_forge.Prelude.Text.{Text, trim_space, is_empty, text_eq, codes}
use proof_forge.Prelude.Action.{Result, execute, or_fail, pure, lift, guard, ignore, ◌>>=◌, ◌>>◌}
use proof_forge.Users.{User}
use proof_forge.Goals.Domain.{
  Goal, GoalStatus, pending_buddy_acceptance, invited, pending, unknown, CreateInput, normalize,
  validate, challenge_end, hour, GoalView, Invite, InviteRecord, DashboardSummary, Error,
  db_failure, external_failure, goal_not_found, invite_already_accepted, invite_expired,
  unauthorized_acceptance, owner_not_in_circle, buddy_not_in_circle, active_goal_already_exists,
}
use proof_forge.Goals.Tables.{
  M, Mail, buddy_invite, buddy_accepted, DomainEvent, invite_accepted, GoalRefineResponse,
}
use proof_forge.Goals.Repository.{
  CircleChoice, existing, auto, CreateGoalParams, create_goal_with_invite,
}
use proof_forge.Goals.Queries.{
  list_goals_for_user, is_circle_member, is_circle_member_by_email, has_active_goal_in_circle,
  find_invite_by_token, accept_rows, is_open,
}

-- What a call finds outside the package: the readings of the service's clock in their order, the
-- database's clock, Unicode's lower-case letters and its representatives under case folding, SHA-256
-- in hexadecimal, the two generators, the time that an invite lives, and the address of the site.
pub record Env : Type 0 where
  pub clock : ℕ → ℕ
  pub db_now : ℕ
  pub lower : ℕ → ℕ
  pub fold : ℕ → ℕ
  pub hash : Text → Text
  pub token_generate : Result Error Text
  pub circle_code_generate : Result Error Text
  pub invite_ttl : ℕ
  pub web_origin : Text
  pub refine : Text → Result Error GoalRefineResponse

-- strings.EqualFold
abbrev pub equal_fold : Env → Text → Text → Bool
equal_fold env s t = text_eq (map env.fold s) (map env.fold t)

-- The e-mail sender, whose error is only logged.
abbrev pub send : Mail → M (Unit {0})
send mail = ignore (execute external_failure (λ s. record s { mails = s.mails ++ mail ∷ [] }))

-- Emitter.Emit, whose error the service drops.
abbrev pub emit : DomainEvent → M (Unit {0})
emit e = ignore (execute db_failure (λ s. record s { events = s.events ++ e ∷ [] }))

abbrev pub name_of : User → Text
name_of u = if is_empty u.display_name then u.email else u.display_name

-- deriveCircleName
unfoldable pub derive_circle_name : Text → Text
derive_circle_name title =
    let trimmed = trim_space title in if leb (length trimmed) 60 then trimmed else take 60 trimmed

abbrev pub default_member_limit : ℕ
default_member_limit = 8

abbrev pub season_length_days : ℕ
season_length_days = 7

-- The checks of CreateGoal on an existing circle.
unfoldable pub require_circle : User → CreateInput → M (Unit {0})
require_circle owner input = do
  owner_in_circle ← is_circle_member input.circle_id owner.id
  guard owner_in_circle owner_not_in_circle
  buddy_in_circle ← is_circle_member_by_email input.circle_id input.buddy_email
  guard buddy_in_circle buddy_not_in_circle
  has_active ← has_active_goal_in_circle input.circle_id owner.id
  guard (not has_active) active_goal_already_exists

-- The circle that is born with the goal, from the second reading of the clock.
unfoldable pub auto_circle : Env → CreateInput → Text → CircleChoice
auto_circle env input code = auto record {
  name = derive_circle_name input.title;
  invite_code = code;
  member_limit = default_member_limit;
  starts_at = env.clock 1;
  ends_at = env.clock 1 + season_length_days * (24 * hour);
}

-- The circle of CreateGoal: an id that is not positive, 0 here, asks for a new one.
unfoldable pub choose_circle : Env → User → CreateInput → M CircleChoice
choose_circle env owner input =
    if ltb 0 input.circle_id
    then require_circle owner input >> pure (existing input.circle_id)
    else lift env.circle_code_generate >>= λ code. pure (auto_circle env input code)

-- The columns of the new goal that the service decides; the others are the INSERT's.
abbrev new_columns : CreateInput → Goal
new_columns input = record {
  id = 0;
  owner_user_id = 0;
  buddy_user_id = none;
  circle_id = none;
  team_id = none;
  title = input.title;
  description = input.description;
  proof_examples = input.proof_examples;
  category = input.category;
  status = pending_buddy_acceptance;
  current_progress_health = unknown;
  current_streak_count = 0;
  movement_mode = input.movement_mode;
  rhythm_cadence = input.rhythm_cadence;
  challenge_duration_days = input.challenge_duration_days;
  challenge_starts_at = input.challenge_starts_at;
  challenge_ends_at =
      challenge_end input.movement_mode input.challenge_duration_days input.challenge_starts_at;
  initiative_id = none;
  created_at = 0;
  updated_at = 0;
}

unfoldable pub goal_params : Env → User → CreateInput → CircleChoice → Text → CreateGoalParams
goal_params env owner input circle token = record {
  owner_id = owner.id;
  buddy_name = input.buddy_name;
  buddy_email = input.buddy_email;
  circle = circle;
  columns = new_columns input;
  pact_status = invited;
  invite_status = pending;
  invite_token_hash = env.hash token;
  invite_expires_at = env.clock 0 + env.invite_ttl;
}

abbrev pub hand_token : Text → Option Invite → Option Invite
hand_token token none = none
hand_token token (some i) = some (record i { acceptance_token = token })

abbrev pub invite_mail : Env → User → CreateInput → Text → Mail
invite_mail env owner input token =
    buddy_invite input.buddy_email (name_of owner) input.title
      (env.web_origin ++ codes "/invites/" ++ token)

-- CreateGoal from the normalized input on.
unfoldable pub create_normal : Env → User → CreateInput → M GoalView
create_normal env owner input = do
  circle ← choose_circle env owner input
  token ← lift env.token_generate
  view ← create_goal_with_invite env.db_now (goal_params env owner input circle token)
  send (invite_mail env owner input token)
  pure (record view { invite = hand_token token view.invite })

-- CreateGoal
unfoldable pub create_goal : Env → User → CreateInput → M GoalView
create_goal env owner input = do
  lift (validate env.lower owner input)
  create_normal env owner (normalize env.lower input)

abbrev pub is_pending_goal : GoalStatus → Bool
is_pending_goal pending_buddy_acceptance = true
is_pending_goal _ = false

abbrev pub is_active_goal : GoalStatus → Bool
is_active_goal GoalStatus.active = true
is_active_goal _ = false

-- The summary of Dashboard.
unfoldable pub summarize : List GoalView → DashboardSummary
summarize views = record {
  total_goals = length views;
  pending_buddy_acceptance = count (λ v. is_pending_goal v.goal.status) views;
  active_goals = count (λ v. is_active_goal v.goal.status) views;
}

-- Dashboard, without the circles that another component lists.
unfoldable pub dashboard : User → M (DashboardSummary × List GoalView)
dashboard owner = do views ← list_goals_for_user owner.id; pure (summarize views, views)

-- GetGoal
unfoldable pub get_goal : User → ℕ → M GoalView
get_goal actor id = do
  views ← list_goals_for_user actor.id
  or_fail (find_by (λ v. v.goal.id == id) views) goal_not_found

-- GetInvitePreview
unfoldable pub get_invite_preview : Env → Text → M InviteRecord
get_invite_preview env token = find_invite_by_token (env.hash token)

-- The checks of AcceptInvite on the record.
unfoldable pub require_acceptable : Env → User → InviteRecord → M (Unit {0})
require_acceptable env actor r = do
  guard (is_open r.invite_status) invite_already_accepted
  guard (leb (env.clock 0) r.expires_at) invite_expired
  guard (equal_fold env actor.email r.invitee_email) unauthorized_acceptance

abbrev pub acceptance_mail : Env → User → InviteRecord → Mail
acceptance_mail env actor r =
    buddy_accepted r.owner_email (name_of actor) r.goal_title (env.web_origin ++ codes "/dashboard")

-- AcceptInvite
unfoldable pub accept_invite : Env → User → Text → M (Unit {0})
accept_invite env actor token = do
  r ← find_invite_by_token (env.hash token)
  require_acceptable env actor r
  accept_rows r.invite_id r.pact_id r.goal_id (env.clock 1)
  send (acceptance_mail env actor r)
  emit (invite_accepted r.goal_id r.inviter_id (name_of actor))
