-- ===== src/Circles/Domain.antt =====
-- The types and the checks of backend/internal/circles/domain.go.
use proof_forge.Prelude.{ℕ, Option, Bool, List, ltb, if◌then◌else◌}
use proof_forge.Prelude.Int.{ℤ}
use proof_forge.Prelude.Text.{Text, trim_space, byte_length, is_empty}
use proof_forge.Prelude.Action.{Result, ok, err}

pub data CircleInvitationStatus : Type 0 where
  pending accepted declined : CircleInvitationStatus

-- The column is text; the code writes "active" only.
pub data MembershipStatus : Type 0 where
  active_member : MembershipStatus
  other_membership : Text → MembershipStatus

pub data MemberRole : Type 0 where
  owner buddy observer : MemberRole

pub data SeasonStatus : Type 0 where
  active completed : SeasonStatus

pub data WeeklyStatus : Type 0 where
  no_goal approved waiting_review at_risk dropped comeback : WeeklyStatus

pub data EventKind : Type 0 where
  approved_event dropped_event comeback_event risk_event : EventKind

pub data Error : Type 0 where
  invalid_circle_input circle_not_found not_circle_member already_circle_member : Error
  circle_is_full circle_invitation_not_found circle_invitation_already_done : Error
  season_not_found season_not_ended season_already_done : Error
  -- Errors with no name of their own.
  db_failure code_failure unknown_season_end_action : Error

pub data SeasonEndAction : Type 0 where
  extend start_new : SeasonEndAction
  other_action : Text → SeasonEndAction

pub record SeasonEndResult : Type 0 where
  pub action : SeasonEndAction
  pub new_season_id : Option ℕ
  pub redirect_to_goals : Bool

pub record CircleInvitation : Type 0 where
  pub id : ℕ
  pub circle_id : ℕ
  pub circle_name : Text
  pub inviter_id : ℕ
  pub target_email : Text
  pub status : CircleInvitationStatus
  pub message : Text
  pub created_at : ℕ

pub record InviteToCircleInput : Type 0 where
  pub target_email : Text
  pub message : Text

pub record Circle : Type 0 where
  pub id : ℕ
  pub owner_user_id : ℕ
  pub name : Text
  pub invite_code : Text
  pub member_limit : ℕ
  pub created_at : ℕ
  pub updated_at : ℕ

pub record Member : Type 0 where
  pub user_id : ℕ
  pub email : Text
  pub display_name : Text
  pub status : MembershipStatus
  pub role : MemberRole
  pub joined_at : ℕ

pub record Season : Type 0 where
  pub id : ℕ
  pub circle_id : ℕ
  pub status : SeasonStatus
  pub starts_at : ℕ
  pub ends_at : ℕ

pub record Detail : Type 0 where
  pub circle : Circle
  pub members : List Member
  pub active_season : Season

pub record StandingEntry : Type 0 where
  pub user_id : ℕ
  pub user_email : Text
  pub display_name : Text
  pub rank : ℕ
  pub weekly_status : WeeklyStatus
  pub approved_weeks : ℕ
  pub missed_weeks : ℕ
  pub current_streak : ℕ
  pub score : ℤ
  pub goals_count : ℕ
  pub has_activity_this_week : Bool

pub record Event : Type 0 where
  pub kind : EventKind
  pub user_id : ℕ
  pub user_email : Text
  pub message : Text
  pub occurred_at : ℕ

pub record WeeklyAssembly : Type 0 where
  pub circle : Circle
  pub season : Season
  pub current_week : ℕ
  pub standings : List StandingEntry
  pub events : List Event

pub record StandingSnapshot : Type 0 where
  pub user_id : ℕ
  pub user_email : Text
  pub display_name : Text
  pub goals_count : ℕ
  pub approved_weeks : ℕ
  pub missed_weeks : ℕ
  pub current_streak : ℕ
  pub has_approved_this_week : Bool
  pub has_submitted_this_week : Bool
  pub has_approved_prev_week : Bool
  pub has_submitted_prev_week : Bool
  pub last_activity_at : Option ℕ

-- CreateInput.Validate, on the name
unfoldable pub validate_name : Text → Result Error (Unit {0})
validate_name name =
    if ltb (byte_length (trim_space name)) 3
    then err invalid_circle_input
    else if ltb 80 (byte_length (trim_space name))
    then err invalid_circle_input
    else ok tt

-- JoinInput.Validate, on the code
unfoldable pub validate_code : Text → Result Error (Unit {0})
validate_code code = if is_empty (trim_space code) then err invalid_circle_input else ok tt
