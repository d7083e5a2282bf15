-- ===== src/Goals/Tables.antt =====
-- The tables that the statements of backend/internal/goals/postgres_repository.go read and write, and
-- the constraints of backend/migrations on them.
use proof_forge.Prelude.{ℕ, Option, none, some, Bool, true, false, not, ◌&&◌, ◌||◌, List, any, ◌==◌}
use proof_forge.Prelude.Int.{ℤ, pos}
use proof_forge.Prelude.Table.{Keyed}
use proof_forge.Prelude.Text.{Text, text_eq}
use proof_forge.Prelude.Action.{Action}
use proof_forge.Users.{User}
use proof_forge.Goals.Domain.{
  Goal, GoalStatus, pending_buddy_acceptance, PactStatus, InviteStatus, MovementMode, other_mode,
  RhythmCadence, other_cadence, Error, is_none, is_challenge, requires_cadence,
}

pub record PactRow : Type 0 where
  pub id : ℕ
  pub goal_id : ℕ
  pub owner_user_id : ℕ
  pub buddy_user_id : ℕ
  pub status : PactStatus
  pub accepted_at : Option ℕ
  pub created_at : ℕ
  pub updated_at : ℕ

instance abbrev pub pact_keyed : Keyed PactRow
pact_keyed = record { key = λ p. p.id }

pub record InviteRow : Type 0 where
  pub id : ℕ
  pub goal_id : ℕ
  pub pact_id : ℕ
  pub inviter_user_id : ℕ
  pub invitee_user_id : ℕ
  pub token_hash : Text
  pub status : InviteStatus
  pub expires_at : ℕ
  pub accepted_at : Option ℕ
  pub created_at : ℕ

instance abbrev pub invite_keyed : Keyed InviteRow
invite_keyed = record { key = λ i. i.id }

pub record Circle : Type 0 where
  pub id : ℕ
  pub owner_user_id : ℕ
  pub name : Text
  pub invite_code : Text
  pub member_limit : ℕ
  pub created_at : ℕ

pub record Season : Type 0 where
  pub circle_id : ℕ
  pub status : Text
  pub starts_at : ℕ
  pub ends_at : ℕ

pub record Membership : Type 0 where
  pub circle_id : ℕ
  pub user_id : ℕ
  pub status : Text
  pub role : Text

pub record RefineRequest : Type 0 where
  pub user_id : ℕ
  pub draft_hash : Text
  pub created_at : ℕ

pub record GoalRefineVariant : Type 0 where
  pub title : Text
  pub smart : Text
  pub proof_examples : List Text

pub record GoalRefineResponse : Type 0 where
  pub category : Text
  pub variants : List GoalRefineVariant

pub record CachedResponse : Type 0 where
  pub hash : Text
  pub response : GoalRefineResponse
  pub created_at : ℕ

-- What the e-mail sender was given: the address, a name, the goal's title and a link.
pub data Mail : Type 0 where
  buddy_invite : Text → Text → Text → Text → Mail
  buddy_accepted : Text → Text → Text → Text → Mail

-- "invite.accepted", with the goal, its owner and the buddy's name.
pub data DomainEvent : Type 0 where
  invite_accepted : ℕ → ℕ → Text → DomainEvent

pub record Store : Type 0 where
  pub users : List User
  pub goals : List Goal
  pub pacts : List PactRow
  pub invites : List InviteRow
  pub circles : List Circle
  pub seasons : List Season
  pub memberships : List Membership
  pub refine_requests : List RefineRequest
  pub refine_cache : List CachedResponse
  pub next_user_id : ℕ
  pub next_goal_id : ℕ
  pub next_pact_id : ℕ
  pub next_invite_id : ℕ
  pub next_circle_id : ℕ
  pub mails : List Mail
  pub events : List DomainEvent

abbrev pub M : Type 0 → Type 0
M A = Action Store Error A

-- `x = y` in SQL, of a nullable column and a value.
abbrev pub is_just : ℕ → Option ℕ → Bool
is_just n none = false
is_just n (some m) = m == n

-- status IN ('pending_buddy_acceptance', 'active')
abbrev pub is_running : GoalStatus → Bool
is_running pending_buddy_acceptance = true
is_running GoalStatus.active = true

-- A row that the unique index uniq_circle_owner_active_goal compares with another.
abbrev pub is_goal_in : ℕ → ℕ → Goal → Bool
is_goal_in circle owner g =
    is_just circle g.circle_id && g.owner_user_id == owner && is_running g.status

abbrev pub is_taken : Option ℕ → ℕ → List Goal → Bool
is_taken none owner goals = false
is_taken (some circle) owner goals = any (is_goal_in circle owner) goals

abbrev known_mode : MovementMode → Bool
known_mode (other_mode m) = false
known_mode _ = true

abbrev known_cadence : Option RhythmCadence → Bool
known_cadence (some (other_cadence c)) = false
known_cadence _ = true

abbrev known_duration : Option ℤ → Bool
known_duration none = true
known_duration (some (pos n)) = n == 7 || n == 14 || n == 28 || n == 42
known_duration (some _) = false

-- The CHECK constraints of 00021_movement_modes.sql.
unfoldable pub passes_checks : Goal → Bool
passes_checks g =
    known_mode g.movement_mode
    && known_cadence g.rhythm_cadence
    && known_duration g.challenge_duration_days
    && not (requires_cadence g.movement_mode && is_none g.rhythm_cadence)
    && not (is_challenge g.movement_mode && is_none g.challenge_duration_days)

-- The constraints that an INSERT into goals must meet.
unfoldable pub may_insert : Goal → Store → Bool
may_insert g s =
    passes_checks g && not (is_taken g.circle_id g.owner_user_id s.goals && is_running g.status)

abbrev pub has_email : Text → User → Bool
has_email email u = text_eq u.email email

abbrev pub has_token : Text → InviteRow → Bool
has_token hash i = text_eq i.token_hash hash
