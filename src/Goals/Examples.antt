-- ===== src/Goals/Examples.antt =====
-- Tests of goals on small tables: two users and no goal yet.
use proof_forge.Prelude.{ℕ, find_by, refl, none, some, ◌≡◌, inr, List, [], ◌∷◌, arith}
use proof_forge.Prelude.Text.{codes, trim_space}
use proof_forge.Prelude.Table.{find}
use proof_forge.Prelude.Action.{ok, err, World}
use proof_forge.Users.{User}
use proof_forge.Goals.Domain.{
  CreateInput, free_goal, validate_draft, Goal, GoalStatus, unknown, goal_keyed, validate,
  validate_normal, normalize, requires_cadence, active_goal_already_exists,
}
use proof_forge.Goals.Tables.{
  Store, Membership, GoalRefineVariant, GoalRefineResponse, invite_keyed,
}
use proof_forge.Goals.Service.{Env, create_goal}
use proof_forge.Goals.Refine.{
  refine_goal, admit_request, answer, ask_provider, normalize_response, normal_variants,
  normal_variant, normal_examples,
}
use proof_forge.Goals.Queries.{
  find_goal_refine_cache, save_goal_refine_cache, count_goal_refine_requests_since,
  insert_goal_refine_request,
}
use proof_forge.Goals.Requests.{
  Request, create_request, accept_request, refine_request, Call, serve,
}
use proof_forge.Goals.Occupied.{create_goal-taken}
use proof_forge.Goals.RateLimit.{IsLimited, serve-IsLimited}
use proof_forge.Goals.Answers.{IsWhole, AreWhole, refine_goal-IsWhole}
use proof_forge.Goals.Consistency.{AreInStep}
use proof_forge.Goals.Histories.{serve-AreInStep}

abbrev owner : User
owner = record { id = 1; email = codes "a@b.c"; display_name = codes "Ann" }

abbrev buddy : User
buddy = record { id = 2; email = codes "d@e.f"; display_name = codes "Dan" }

abbrev tables : Store
tables = record {
  users = owner ∷ buddy ∷ [];
  goals = [];
  pacts = [];
  invites = [];
  circles = [];
  seasons = [];
  memberships = [];
  refine_requests = [];
  refine_cache = [];
  next_user_id = 3;
  next_goal_id = 1;
  next_pact_id = 1;
  next_invite_id = 1;
  next_circle_id = 1;
  mails = [];
  events = [];
}

abbrev variant : GoalRefineVariant
variant = record {
  title = codes "run";
  smart = codes "run 5 km";
  proof_examples = codes "a" ∷ codes "b" ∷ codes "c" ∷ [];
}

abbrev response : GoalRefineResponse
response = record { category = codes "sport"; variants = variant ∷ variant ∷ variant ∷ [] }

abbrev env : Env
env = record {
  clock = λ n. 100;
  db_now = 100;
  lower = λ c. c;
  fold = λ c. c;
  hash = λ t. t;
  token_generate = ok (codes "token");
  circle_code_generate = ok (codes "code");
  invite_ttl = 1000;
  web_origin = [];
  refine = λ draft. ok response;
}

abbrev running : CreateInput
running = record {
  title = codes "run";
  description = [];
  buddy_name = codes "Dan";
  buddy_email = codes "d@e.f";
  proof_examples = [];
  category = [];
  circle_id = 0;
  movement_mode = free_goal;
  rhythm_cadence = none;
  challenge_duration_days = none;
  challenge_starts_at = none;
}

abbrev call : User → Request → Call
call actor r = record { env = env; actor = actor; request = r; outages = [] }

-- The owner asks for a refinement, announces a goal, and the buddy accepts.
abbrev history : List Call
history =
    call owner (refine_request (codes "run more"))
    ∷ call owner (create_request running)
    ∷ call buddy (accept_request (codes "token"))
    ∷ []

-- A goal of the owner that runs in the circle 4, and the members of the circle.
abbrev first_goal : Goal
first_goal = record {
  id = 1;
  owner_user_id = 1;
  buddy_user_id = some 2;
  circle_id = some 4;
  team_id = none;
  title = codes "swim";
  description = [];
  proof_examples = [];
  category = [];
  status = GoalStatus.active;
  current_progress_health = unknown;
  current_streak_count = 0;
  movement_mode = free_goal;
  rhythm_cadence = none;
  challenge_duration_days = none;
  challenge_starts_at = none;
  challenge_ends_at = none;
  initiative_id = none;
  created_at = 0;
  updated_at = 0;
}

abbrev member : ℕ → Membership
member user = record {
  circle_id = 4;
  user_id = user;
  status = codes "active";
  role = codes "buddy";
}

abbrev occupied : Store
occupied = record tables {
  goals = first_goal ∷ [];
  memberships = member 1 ∷ member 2 ∷ [];
  next_goal_id = 2;
}

abbrev in_circle : CreateInput
in_circle = record running { circle_id = 4 }

create_goal-taken_example :
    create_goal env owner in_circle (record { store = occupied; outages = [] })
    ≡ (err active_goal_already_exists, record { store = occupied; outages = [] })
unfolding validate validate_normal normalize find trim_space requires_cadence
create_goal-taken_example =
    create_goal-taken env owner in_circle occupied 1 first_goal refl (omega arith) refl
      (refl, refl, inr refl)

serve-IsLimited_example : IsLimited 100 (serve history tables)
serve-IsLimited_example =
    serve-IsLimited history 0 tables
      (omega arith, refl, (omega arith, refl, (omega arith, refl, tt)))
      (tt, λ user from. omega arith)

none_in_step : AreInStep tables
unfolding find
none_in_step = (
  record {
    linked = λ a i found. absurd (ground arith);
    separate = λ a b i j at_a at_b shared. absurd (ground arith);
    goals_below = tt;
    pacts_below = tt;
    invites_below = tt;
  },
  tt,
)

serve-AreInStep_example : AreInStep (serve history tables)
serve-AreInStep_example = serve-AreInStep history tables none_in_step

abbrev up : World Store
up = record { store = tables; outages = [] }

refine_goal-IsWhole_example :
    IsWhole response × AreWhole (refine_goal env owner (codes "run more") up).1.store
unfolding refine_goal validate_draft trim_space admit_request count_goal_refine_requests_since
    insert_goal_refine_request answer find_goal_refine_cache find_by ask_provider normalize_response
    normal_variants normal_variant normal_examples save_goal_refine_cache
refine_goal-IsWhole_example = refine_goal-IsWhole env owner (codes "run more") up response tt refl
