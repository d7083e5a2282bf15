-- ===== src/Stakes/Repository.antt =====
-- The stakes, their table and its statements (backend/internal/stakes/domain.go and
-- postgres_repository.go).
use proof_forge.Prelude.{
  ℕ, ◌+◌, Option, none, some, List, [], ◌∷◌, ◌++◌, map, ltb, ◌==◌, select, if◌then◌else◌,
}
use proof_forge.Prelude.Text.{Text}
use proof_forge.Prelude.Table.{Keyed, find, modify}
use proof_forge.Prelude.Sorting.{descending}
use proof_forge.Prelude.Action.{Action, statement, query, execute, or_fail, pure, fail, ◌>>=◌}
use proof_forge.Goals.{Goal, GoalStatus, goal_keyed}

pub data StakeStatus : Type 0 where
  active forfeited completed cancelled : StakeStatus

-- `scan_failure` is a NULL read into an int64.
pub data Error : Type 0 where
  stake_not_found not_goal_owner not_buddy stake_not_active goal_not_active : Error
  invalid_input scan_failure db_failure : Error

pub record Stake : Type 0 where
  pub id : ℕ
  pub goal_id : ℕ
  pub owner_user_id : ℕ
  pub description : Text
  pub status : StakeStatus
  pub forfeited_at : Option ℕ
  pub completed_at : Option ℕ
  pub cancelled_at : Option ℕ
  pub created_at : ℕ
  pub updated_at : ℕ

instance abbrev pub stake_keyed : Keyed Stake
stake_keyed = record { key = λ s. s.id }

pub record StakeForfeiture : Type 0 where
  pub id : ℕ
  pub stake_id : ℕ
  pub declared_by_user_id : ℕ
  pub reason : Text
  pub created_at : ℕ

pub record StakeView : Type 0 where
  pub stake : Stake
  pub forfeiture : Option StakeForfeiture

pub record Store : Type 0 where
  pub goals : List Goal
  pub stakes : List Stake
  pub forfeitures : List StakeForfeiture
  pub next_stake_id : ℕ
  pub next_forfeiture_id : ℕ

abbrev pub M : Type 0 → Type 0
M A = Action Store Error A

abbrev pub inserted_stake : ℕ → ℕ → ℕ → ℕ → Text → Stake
inserted_stake db_now id goal owner description = record {
  id = id;
  goal_id = goal;
  owner_user_id = owner;
  description = description;
  status = active;
  forfeited_at = none;
  completed_at = none;
  cancelled_at = none;
  created_at = db_now;
  updated_at = db_now;
}

-- Insert
unfoldable pub insert : ℕ → ℕ → ℕ → Text → M Stake
insert db_now goal owner description = statement db_failure λ s. (
  inserted_stake db_now s.next_stake_id goal owner description,
  record s {
    stakes = s.stakes ++ inserted_stake db_now s.next_stake_id goal owner description ∷ [];
    next_stake_id = s.next_stake_id + 1;
  },
)

-- The latest forfeiture of a stake (ORDER BY created_at DESC LIMIT 1).
unfoldable pub later_of : StakeForfeiture → Option StakeForfeiture → Option StakeForfeiture
later_of f none = some f
later_of f (some g) = if ltb f.created_at g.created_at then some g else some f

unfoldable pub latest_forfeiture : ℕ → List StakeForfeiture → Option StakeForfeiture
latest_forfeiture id [] = none
latest_forfeiture id (f ∷ fs) =
    let rest = latest_forfeiture id fs in if f.stake_id == id then later_of f rest else rest

-- FindByGoal
unfoldable pub find_by_goal : ℕ → M (List StakeView)
find_by_goal goal = query db_failure λ s.
    map (λ k. record { stake = k; forfeiture = latest_forfeiture k.id s.forfeitures })
      (descending (λ k. k.created_at) (select (λ k. k.goal_id == goal) s.stakes))

-- FindByID
unfoldable pub find_by_id : ℕ → M Stake
find_by_id id = do row ← query db_failure (λ s. find id s.stakes); or_fail row stake_not_found

-- The SET list of UpdateStatus.
unfoldable pub set_status : StakeStatus → ℕ → Stake → Stake
set_status forfeited now s = record s {
  status = forfeited;
  forfeited_at = some now;
  updated_at = now;
}
set_status completed now s = record s {
  status = completed;
  completed_at = some now;
  updated_at = now;
}
set_status cancelled now s = record s {
  status = cancelled;
  cancelled_at = some now;
  updated_at = now;
}
set_status active now s = record s { status = active; updated_at = now }

-- UpdateStatus
unfoldable pub update_status : ℕ → StakeStatus → ℕ → M (Unit {0})
update_status id status now =
    execute db_failure (λ s. record s { stakes = modify id (set_status status now) s.stakes })

abbrev pub new_forfeiture : ℕ → ℕ → ℕ → ℕ → Text → StakeForfeiture
new_forfeiture db_now id stake declared_by reason = record {
  id = id;
  stake_id = stake;
  declared_by_user_id = declared_by;
  reason = reason;
  created_at = db_now;
}

-- InsertForfeiture
unfoldable pub insert_forfeiture : ℕ → ℕ → ℕ → Text → M StakeForfeiture
insert_forfeiture db_now stake declared_by reason = statement db_failure λ s. (
  new_forfeiture db_now s.next_forfeiture_id stake declared_by reason,
  record s {
    forfeitures =
        s.forfeitures ++ new_forfeiture db_now s.next_forfeiture_id stake declared_by reason ∷ [];
    next_forfeiture_id = s.next_forfeiture_id + 1;
  },
)

pub record Participants : Type 0 where
  pub owner : ℕ
  pub buddy : ℕ
  pub goal_status : GoalStatus

-- Scan: the goal's buddy is nullable, and a NULL is an error.
abbrev pub scan_participants : Goal → Option ℕ → M Participants
scan_participants g none = fail scan_failure
scan_participants g (some buddy) =
    pure (record { owner = g.owner_user_id; buddy = buddy; goal_status = g.status })

-- FindGoalParticipants
unfoldable pub find_goal_participants : ℕ → M Participants
find_goal_participants goal = do
  row ← query db_failure (λ s. find goal s.goals)
  g ← or_fail row stake_not_found
  scan_participants g g.buddy_user_id
