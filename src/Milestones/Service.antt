-- ===== src/Milestones/Service.antt =====
-- The use cases of backend/internal/milestones/service.go, the calls of its handlers, and a history
-- of such calls.
use proof_forge.Prelude.{
  ℕ, Option, none, some, Bool, true, false, ◌||◌, List, [], ◌∷◌, ltb, ◌==◌, if◌then◌else◌,
}
use proof_forge.Prelude.Text.{Text, trim_space, is_empty, byte_length}
use proof_forge.Prelude.Action.{Result, ok, err, pure, lift, guard, ◌>>=◌, ◌>>◌}
use proof_forge.Users.{User}
use proof_forge.Goals.{GoalStatus}
use proof_forge.Goals
use proof_forge.Milestones.Repository.{
  Store, M, Milestone, MilestoneStatus, pending, completed, CreateInput, UpdateInput, validate,
  Error, not_goal_owner, not_buddy, milestone_not_pending, milestone_not_complete, goal_not_active,
  invalid_input, insert, find_by_goal, find_by_id, update, delete, update_status,
  find_goal_participants, next_sort_order,
}

-- The process's clock and the database's.
pub record Env : Type 0 where
  pub now : ℕ
  pub db_now : ℕ

abbrev pub is_pending : MilestoneStatus → Bool
is_pending pending = true
is_pending completed = false

abbrev pub is_completed : MilestoneStatus → Bool
is_completed pending = false
is_completed completed = true

abbrev pub is_active_goal : GoalStatus → Bool
is_active_goal Goals.active = true
is_active_goal _ = false

-- Create
unfoldable pub create : Env → User → ℕ → CreateInput → M Milestone
create env actor goal input = do
  lift (validate input)
  p ← find_goal_participants goal
  guard (actor.id == p.owner) not_goal_owner
  guard (is_active_goal p.goal_status) goal_not_active
  order ← next_sort_order goal
  insert env.db_now goal (trim_space input.title) (trim_space input.description) order

-- ListForGoal
unfoldable pub list_for_goal : User → ℕ → M (List Milestone)
list_for_goal actor goal = do
  p ← find_goal_participants goal
  guard (actor.id == p.owner || actor.id == p.buddy) not_goal_owner
  find_by_goal goal

-- The checks of Update on a new title, and the pointer that it passes on.
unfoldable pub new_title : Option Text → Result Error (Option Text)
new_title none = ok none
new_title (some t) =
    if is_empty (trim_space t)
    then err invalid_input
    else if ltb 200 (byte_length (trim_space t))
    then err invalid_input
    else ok (some (trim_space t))

unfoldable pub new_description : Option Text → Result Error (Option Text)
new_description none = ok none
new_description (some d) =
    if ltb 2000 (byte_length (trim_space d)) then err invalid_input else ok (some (trim_space d))

-- Update
unfoldable pub edit : Env → User → ℕ → UpdateInput → M Milestone
edit env actor id input = do
  m ← find_by_id id
  guard (is_pending m.status) milestone_not_pending
  p ← find_goal_participants m.goal_id
  guard (actor.id == p.owner) not_goal_owner
  title ← lift (new_title input.title)
  description ← lift (new_description input.description)
  update env.db_now id title description input.sort_order

-- Delete
unfoldable pub remove : User → ℕ → M (Unit {0})
remove actor id = do
  m ← find_by_id id
  guard (is_pending m.status) milestone_not_pending
  p ← find_goal_participants m.goal_id
  guard (actor.id == p.owner) not_goal_owner
  delete id

-- Complete
unfoldable pub complete : Env → User → ℕ → M Milestone
complete env actor id = do
  m ← find_by_id id
  guard (is_pending m.status) milestone_not_pending
  p ← find_goal_participants m.goal_id
  guard (actor.id == p.buddy) not_buddy
  update_status id completed (some actor.id) env.now

-- Reopen
unfoldable pub reopen : Env → User → ℕ → M Milestone
reopen env actor id = do
  m ← find_by_id id
  guard (is_completed m.status) milestone_not_complete
  p ← find_goal_participants m.goal_id
  guard (actor.id == p.buddy) not_buddy
  update_status id pending none env.now

pub data Request : Type 0 where
  create_request : ℕ → CreateInput → Request
  edit_request : ℕ → UpdateInput → Request
  list_request remove_request complete_request reopen_request : ℕ → Request

unfoldable pub perform : Env → User → Request → M (Unit {0})
perform env actor (create_request goal input) = do create env actor goal input; pure tt
perform env actor (list_request goal) = do list_for_goal actor goal; pure tt
perform env actor (edit_request id input) = do edit env actor id input; pure tt
perform env actor (remove_request id) = remove actor id
perform env actor (complete_request id) = do complete env actor id; pure tt
perform env actor (reopen_request id) = do reopen env actor id; pure tt

pub record Call : Type 0 where
  pub env : Env
  pub actor : User
  pub request : Request
  pub outages : List Bool

-- The store after one call.
unfoldable pub after : Call → Store → Store
after c s = (perform c.env c.actor c.request (record { store = s; outages = c.outages })).1.store

unfoldable pub serve : List Call → Store → Store
serve [] s = s
serve (c ∷ cs) s = serve cs (after c s)
