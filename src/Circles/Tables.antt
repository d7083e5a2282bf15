-- ===== src/Circles/Tables.antt =====
-- The tables that the statements of backend/internal/circles/postgres_repository.go read and write,
-- with the columns of backend/migrations.
use proof_forge.Prelude.{ℕ, Option, Bool, true, false, ◌&&◌, List, count, ◌==◌}
use proof_forge.Prelude.Table.{Keyed}
use proof_forge.Prelude.Text.{Text}
use proof_forge.Prelude.Action.{Action}
use proof_forge.Users.{User}
use proof_forge.Goals.{Goal}
use proof_forge.CheckIns.Domain.{CheckIn}
use proof_forge.Circles.Domain.{
  Circle, MembershipStatus, active_member, other_membership, MemberRole, SeasonStatus, active,
  completed, SeasonEndAction, CircleInvitationStatus, Error,
}

instance abbrev pub circle_keyed : Keyed Circle
circle_keyed = record { key = λ c. c.id }

-- UNIQUE (circle_id, user_id)
pub record MembershipRow : Type 0 where
  pub circle_id : ℕ
  pub user_id : ℕ
  pub status : MembershipStatus
  pub role : MemberRole
  pub joined_at : ℕ

pub record SeasonRow : Type 0 where
  pub id : ℕ
  pub circle_id : ℕ
  pub status : SeasonStatus
  pub starts_at : ℕ
  pub ends_at : ℕ
  pub ended_action : Option SeasonEndAction

instance abbrev pub season_keyed : Keyed SeasonRow
season_keyed = record { key = λ s. s.id }

-- UNIQUE (circle_id, target_email)
pub record InvitationRow : Type 0 where
  pub id : ℕ
  pub circle_id : ℕ
  pub inviter_user_id : ℕ
  pub target_email : Text
  pub status : CircleInvitationStatus
  pub message : Text
  pub created_at : ℕ

instance abbrev pub invitation_keyed : Keyed InvitationRow
invitation_keyed = record { key = λ i. i.id }

pub record Store : Type 0 where
  pub users : List User
  pub goals : List Goal
  pub check_ins : List CheckIn
  pub circles : List Circle
  pub memberships : List MembershipRow
  pub seasons : List SeasonRow
  pub invitations : List InvitationRow
  pub next_circle_id : ℕ
  pub next_season_id : ℕ
  pub next_invitation_id : ℕ

abbrev pub M : Type 0 → Type 0
M A = Action Store Error A

abbrev pub is_active_member : MembershipStatus → Bool
is_active_member active_member = true
is_active_member (other_membership t) = false

abbrev pub is_active : SeasonStatus → Bool
is_active active = true
is_active completed = false

-- WHERE circle_id = c AND user_id = u
abbrev pub is_membership : ℕ → ℕ → MembershipRow → Bool
is_membership circle user m = m.circle_id == circle && m.user_id == user

-- WHERE circle_id = c AND status = 'active'
abbrev pub is_active_in : ℕ → MembershipRow → Bool
is_active_in circle m = m.circle_id == circle && is_active_member m.status

abbrev pub is_active_season : ℕ → SeasonRow → Bool
is_active_season circle s = s.circle_id == circle && is_active s.status

-- The active members of a circle, and its active seasons.
abbrev pub member_count : ℕ → List MembershipRow → ℕ
member_count circle = count (is_active_in circle)

abbrev pub season_count : ℕ → List SeasonRow → ℕ
season_count circle = count (is_active_season circle)
