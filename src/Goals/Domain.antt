-- ===== src/Goals/Domain.antt =====
-- Goals, pacts and invites, and the checks on their input (backend/internal/goals/domain.go). Times
-- are nanoseconds.
use proof_forge.Prelude.{
  ℕ, ◌+◌, ◌-◌, ◌*◌, suc, Option, none, some, Bool, true, false, not, ◌&&◌, ◌||◌, [], map, any, ltb,
  length, ◌==◌, if◌then◌else◌,
}
use proof_forge.Prelude.Int.{ℤ, pos, negsuc}
use proof_forge.Prelude.Table.{Keyed}
use proof_forge.Prelude.Text.{Text, trim_space, is_empty, byte_length, text_eq}
use proof_forge.Prelude.Action.{Result, ok, err}
use proof_forge.Users.{User}

pub data GoalStatus : Type 0 where
  pending_buddy_acceptance active : GoalStatus

pub data PactStatus : Type 0 where
  invited active : PactStatus

pub data InviteStatus : Type 0 where
  pending accepted : InviteStatus

-- `stable` and `at_risk` are written by the reviews of check-ins.
pub data ProgressHealth : Type 0 where
  unknown stable at_risk : ProgressHealth

-- A string of the request: a mode that the code names, or another one, the empty one included.
pub data MovementMode : Type 0 where
  single_proof regular_rhythm challenge work_initiative free_goal : MovementMode
  other_mode : Text → MovementMode

pub data RhythmCadence : Type 0 where
  daily weekly biweekly custom : RhythmCadence
  other_cadence : Text → RhythmCadence

-- `external_failure` is an error of the token generator or of the refine provider.
pub data Error : Type 0 where
  invalid_goal_input goal_not_found invite_not_found invite_expired invite_already_accepted : Error
  unauthorized_acceptance owner_not_in_circle buddy_not_in_circle invalid_goal_refine_input : Error
  goal_refine_rate_limited active_goal_already_exists db_failure external_failure : Error

-- The row of a goal. `circle_id`, `team_id` and `initiative_id` are `none` for NULL, which the queries
-- read as 0.
pub record Goal : Type 0 where
  pub id : ℕ
  pub owner_user_id : ℕ
  pub buddy_user_id : Option ℕ
  pub circle_id : Option ℕ
  pub team_id : Option ℕ
  pub title : Text
  pub description : Text
  pub proof_examples : Text
  pub category : Text
  pub status : GoalStatus
  pub current_progress_health : ProgressHealth
  pub current_streak_count : ℕ
  pub movement_mode : MovementMode
  pub rhythm_cadence : Option RhythmCadence
  pub challenge_duration_days : Option ℤ
  pub challenge_starts_at : Option ℕ
  pub challenge_ends_at : Option ℕ
  pub initiative_id : Option ℕ
  pub created_at : ℕ
  pub updated_at : ℕ

instance abbrev pub goal_keyed : Keyed Goal
goal_keyed = record { key = λ g. g.id }

pub record CreateInput : Type 0 where
  pub title : Text
  pub description : Text
  pub buddy_name : Text
  pub buddy_email : Text
  pub proof_examples : Text
  pub category : Text
  pub circle_id : ℕ
  pub movement_mode : MovementMode
  pub rhythm_cadence : Option RhythmCadence
  pub challenge_duration_days : Option ℤ
  pub challenge_starts_at : Option ℕ

pub record Pact : Type 0 where
  pub id : ℕ
  pub status : PactStatus
  pub accepted_at : Option ℕ

pub record Invite : Type 0 where
  pub id : ℕ
  pub status : InviteStatus
  pub expires_at : ℕ
  pub acceptance_token : Text

pub data ViewerRole : Type 0 where
  as_owner as_buddy : ViewerRole

-- The parts of a view that an outer join leaves open are `none`; a view that a creation returns has
-- no role.
pub record GoalView : Type 0 where
  pub goal : Goal
  pub buddy : Option User
  pub pact : Option Pact
  pub invite : Option Invite
  pub viewer_role : Option ViewerRole

pub record DashboardSummary : Type 0 where
  pub total_goals : ℕ
  pub pending_buddy_acceptance : ℕ
  pub active_goals : ℕ

pub record InviteRecord : Type 0 where
  pub invite_id : ℕ
  pub invite_status : InviteStatus
  pub expires_at : ℕ
  pub goal_id : ℕ
  pub goal_title : Text
  pub goal_status : GoalStatus
  pub pact_id : ℕ
  pub inviter_id : ℕ
  pub invitee_id : ℕ
  pub invitee_email : Text
  pub owner_name : Text
  pub owner_email : Text

-- strings.ToLower, with the Unicode table of lower-case letters.
abbrev pub to_lower : (ℕ → ℕ) → Text → Text
to_lower lower s = map lower s

abbrev pub normal_mode : MovementMode → MovementMode
normal_mode (other_mode []) = regular_rhythm
normal_mode m = m

-- RequiresCadence
unfoldable pub requires_cadence : MovementMode → Bool
requires_cadence regular_rhythm = true
requires_cadence _ = false

abbrev pub normal_cadence : MovementMode → Option RhythmCadence → Option RhythmCadence
normal_cadence regular_rhythm none = some weekly
normal_cadence mode cadence = cadence

-- CreateInput.Normalize
unfoldable pub normalize : (ℕ → ℕ) → CreateInput → CreateInput
normalize lower input = record {
  title = trim_space input.title;
  description = trim_space input.description;
  buddy_name = trim_space input.buddy_name;
  buddy_email = to_lower lower (trim_space input.buddy_email);
  proof_examples = trim_space input.proof_examples;
  category = trim_space input.category;
  circle_id = input.circle_id;
  movement_mode = normal_mode input.movement_mode;
  rhythm_cadence = normal_cadence (normal_mode input.movement_mode) input.rhythm_cadence;
  challenge_duration_days = input.challenge_duration_days;
  challenge_starts_at = input.challenge_starts_at;
}

abbrev pub is_none : {A : Type 0} → Option A → Bool
is_none none = true
is_none (some a) = false

abbrev pub is_challenge : MovementMode → Bool
is_challenge challenge = true
is_challenge _ = false

-- CreateInput.Validate, the switch on the normalized input.
unfoldable pub validate_normal : (ℕ → ℕ) → User → CreateInput → Result Error (Unit {0})
validate_normal lower owner n =
    if is_empty n.title
    then err invalid_goal_input
    else if ltb (byte_length n.buddy_name) 2
    then err invalid_goal_input
    else if is_empty n.buddy_email || not (any (λ c. c == 0x40) n.buddy_email)
    then err invalid_goal_input
    else if text_eq n.buddy_email (to_lower lower (trim_space owner.email))
    then err invalid_goal_input
    else if requires_cadence n.movement_mode && is_none n.rhythm_cadence
    then err invalid_goal_input
    else if is_challenge n.movement_mode && is_none n.challenge_duration_days
    then err invalid_goal_input
    else ok tt

-- CreateInput.Validate
unfoldable pub validate : (ℕ → ℕ) → User → CreateInput → Result Error (Unit {0})
validate lower owner input = validate_normal lower owner (normalize lower input)

abbrev pub hour : ℕ
hour = 3600 * 1000000000

-- AddDate(0, 0, n), in a zone without summer time.
abbrev pub add_days : ℕ → ℤ → ℕ
add_days t (pos n) = t + n * (24 * hour)
add_days t (negsuc n) = t - suc n * (24 * hour)

-- The end of a challenge that CreateGoal computes.
unfoldable pub challenge_end : MovementMode → Option ℤ → Option ℕ → Option ℕ
challenge_end challenge (some days) (some t) = some (add_days t days)
challenge_end _ _ _ = none

-- RefineInput.Normalize and Validate: the length is in runes.
unfoldable pub validate_draft : Text → Result Error (Unit {0})
validate_draft draft =
    let n = length (trim_space draft) in
    if ltb n 3
    then err invalid_goal_refine_input
    else if ltb 240 n
    then err invalid_goal_refine_input
    else ok tt
