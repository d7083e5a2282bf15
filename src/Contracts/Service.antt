-- ===== src/Contracts/Service.antt =====
-- The use cases of backend/internal/contracts/service.go, the calls of its handlers and of the sweep
-- of overdue contracts, and a history of such calls.
use proof_forge.Prelude.{ℕ, Option, none, some, Bool, false, ◌||◌, List, [], ◌∷◌, ltb, ◌==◌, not}
use proof_forge.Prelude.Text.{Text, trim_space}
use proof_forge.Prelude.Action.{pure, lift, guard, ◌>>=◌, ◌>>◌}
use proof_forge.Contracts.Domain.{
  Status, pending, active, fulfilled, cancelled, invalid_contract, invalid_transition, forbidden,
  ProofContract, can_transition_to, validate_what_to_prove,
}
use proof_forge.Contracts.Repository.{
  Store, M, insert, get_by_id, list_by_goal, list_by_user, update_status, mark_broken_overdue,
}

-- The process's clock and the database's.
pub record Env : Type 0 where
  pub now : ℕ
  pub db_now : ℕ

pub record CreateInput : Type 0 where
  pub goal_id : ℕ
  pub user_id : ℕ
  pub buddy_user_id : Option ℕ
  pub what_to_prove : Text
  pub how_to_prove : Text
  pub due_at : ℕ

-- No buddy: immediately active.
abbrev pub initial_status : Option ℕ → Status
initial_status none = active
initial_status (some buddy) = pending

unfoldable pub new_contract : CreateInput → ProofContract
new_contract input = record {
  id = 0;
  goal_id = input.goal_id;
  user_id = input.user_id;
  buddy_user_id = input.buddy_user_id;
  what_to_prove = trim_space input.what_to_prove;
  how_to_prove = trim_space input.how_to_prove;
  due_at = input.due_at;
  status = initial_status input.buddy_user_id;
  fulfilled_at = none;
  broken_at = none;
  cancelled_at = none;
  created_at = 0;
  updated_at = 0;
}

-- Create
unfoldable pub create : Env → CreateInput → M ProofContract
create env input = do
  lift (validate_what_to_prove input.what_to_prove)
  guard (not (ltb input.due_at env.now)) invalid_contract
  insert env.db_now (new_contract input)

-- ListActive
unfoldable pub list_active : ℕ → M (List ProofContract)
list_active user = list_by_user user (some active)

-- `c.BuddyUserID != nil && *c.BuddyUserID == actorID`
abbrev pub is_buddy : ℕ → Option ℕ → Bool
is_buddy actor none = false
is_buddy actor (some buddy) = buddy == actor

unfoldable pub is_party : ℕ → ProofContract → Bool
is_party actor c = c.user_id == actor || is_buddy actor c.buddy_user_id

-- Activate
unfoldable pub activate : Env → ℕ → ℕ → M (Unit {0})
activate env id actor = do
  c ← get_by_id id
  guard (is_buddy actor c.buddy_user_id) forbidden
  guard (can_transition_to c active) invalid_transition
  update_status env.db_now id active

-- Fulfill
unfoldable pub fulfill : Env → ℕ → ℕ → M (Unit {0})
fulfill env id actor = do
  c ← get_by_id id
  guard (is_party actor c) forbidden
  guard (can_transition_to c fulfilled) invalid_transition
  update_status env.db_now id fulfilled

-- Cancel
unfoldable pub cancel : Env → ℕ → ℕ → M (Unit {0})
cancel env id actor = do
  c ← get_by_id id
  guard (is_party actor c) forbidden
  guard (can_transition_to c cancelled) invalid_transition
  update_status env.db_now id cancelled

pub data Request : Type 0 where
  create_request : CreateInput → Request
  get_request goal_request active_request : ℕ → Request
  activate_request fulfill_request cancel_request : ℕ → ℕ → Request
  overdue_request : Request

unfoldable pub perform : Env → Request → M (Unit {0})
perform env (create_request input) = do create env input; pure tt
perform env (get_request id) = do get_by_id id; pure tt
perform env (goal_request goal) = do list_by_goal goal; pure tt
perform env (active_request user) = do list_active user; pure tt
perform env (activate_request id actor) = activate env id actor
perform env (fulfill_request id actor) = fulfill env id actor
perform env (cancel_request id actor) = cancel env id actor
perform env overdue_request = do mark_broken_overdue env.now env.db_now; pure tt

pub record Call : Type 0 where
  pub env : Env
  pub request : Request
  pub outages : List Bool

-- The store after one call.
unfoldable pub after : Call → Store → Store
after c s = (perform c.env c.request (record { store = s; outages = c.outages })).1.store

unfoldable pub serve : List Call → Store → Store
serve [] s = s
serve (c ∷ cs) s = serve cs (after c s)
