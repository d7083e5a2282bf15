-- ===== src/Stakes/Service.antt =====
-- The use cases of backend/internal/stakes/service.go, the calls of its handlers, and a history of
-- such calls.
use proof_forge.Prelude.{ℕ, none, some, Bool, true, false, ◌||◌, List, [], ◌∷◌, ltb, ◌==◌, not}
use proof_forge.Prelude.Text.{Text, trim_space, is_empty, byte_length}
use proof_forge.Prelude.Action.{pure, guard, ◌>>=◌, ◌>>◌}
use proof_forge.Users.{User}
use proof_forge.Goals.{GoalStatus}
use proof_forge.Goals
use proof_forge.Stakes.Repository.{
  Store, M, StakeView, StakeStatus, active, forfeited, cancelled, not_goal_owner, not_buddy,
  stake_not_active, goal_not_active, invalid_input, insert, find_by_goal, find_by_id, update_status,
  insert_forfeiture, find_goal_participants,
}

-- The process's clock and the database's.
pub record Env : Type 0 where
  pub now : ℕ
  pub db_now : ℕ

abbrev pub is_active : StakeStatus → Bool
is_active active = true
is_active _ = false

abbrev pub is_active_goal : GoalStatus → Bool
is_active_goal Goals.active = true
is_active_goal _ = false

-- Create
unfoldable pub create : Env → User → ℕ → Text → M StakeView
create env actor goal input = do
  let description = trim_space input
  guard (not (is_empty description)) invalid_input
  guard (not (ltb 1000 (byte_length description))) invalid_input
  p ← find_goal_participants goal
  guard (actor.id == p.owner) not_goal_owner
  guard (is_active_goal p.goal_status) goal_not_active
  stake ← insert env.db_now goal actor.id description
  pure (record { stake = stake; forfeiture = none })

-- ListForGoal
unfoldable pub list_for_goal : User → ℕ → M (List StakeView)
list_for_goal actor goal = do
  p ← find_goal_participants goal
  guard (actor.id == p.owner || actor.id == p.buddy) not_goal_owner
  find_by_goal goal

-- Cancel
unfoldable pub cancel : Env → User → ℕ → M (Unit {0})
cancel env actor id = do
  stake ← find_by_id id
  guard (is_active stake.status) stake_not_active
  p ← find_goal_participants stake.goal_id
  guard (actor.id == p.owner) not_goal_owner
  update_status id cancelled env.now

-- Forfeit: two statements, in no transaction.
unfoldable pub forfeit : Env → User → ℕ → Text → M StakeView
forfeit env actor id reason = do
  stake ← find_by_id id
  guard (is_active stake.status) stake_not_active
  p ← find_goal_participants stake.goal_id
  guard (actor.id == p.buddy) not_buddy
  update_status id forfeited env.now
  forfeiture ← insert_forfeiture env.db_now id actor.id (trim_space reason)
  pure (record {
    stake = record stake { status = forfeited; forfeited_at = some env.now };
    forfeiture = some forfeiture;
  })

pub data Request : Type 0 where
  create_request forfeit_request : ℕ → Text → Request
  list_request cancel_request : ℕ → Request

unfoldable pub perform : Env → User → Request → M (Unit {0})
perform env actor (create_request goal description) = do create env actor goal description; pure tt
perform env actor (list_request goal) = do list_for_goal actor goal; pure tt
perform env actor (cancel_request id) = cancel env actor id
perform env actor (forfeit_request id reason) = do forfeit env actor id reason; pure tt

pub record Call : Type 0 where
  pub env : Env
  pub actor : User
  pub request : Request
  pub outages : List Bool

-- The store after one call.
unfoldable pub after : Call → Store → Store
after c s = (perform c.env c.actor c.request (record { store = s; outages = c.outages })).1.store

unfoldable pub serve : List Call → Store → Store
serve [] s = s
serve (c ∷ cs) s = serve cs (after c s)
