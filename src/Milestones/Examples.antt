-- ===== src/Milestones/Examples.antt =====
-- Tests of milestones on a small table: a pending and a completed milestone of one goal.
use proof_forge.Prelude.{◌≡◌, refl, none, some, true, List, [], ◌∷◌, All, ◌==◌}
use proof_forge.Prelude.Int.{pos, negsuc}
use proof_forge.Prelude.Text.{codes, trim_space}
use proof_forge.Prelude.Table.{find}
use proof_forge.Prelude.Sorting.{sort_by}
use proof_forge.Users.{User}
use proof_forge.Goals.{Goal, GoalStatus, unknown, free_goal, goal_keyed}
use proof_forge.Milestones.Repository.{
  Store, Milestone, pending, completed, CreateInput, milestone_keyed, comes_before,
  inserted_milestone, validate, find_goal_participants, next_sort_order, insert, order_after,
  max_order, find_by_goal,
}
use proof_forge.Milestones.Service.{
  Env, Request, create_request, remove_request, complete_request, reopen_request, Call, after,
  serve, create, list_for_goal, complete, reopen, is_pending,
}
use proof_forge.Milestones.Stamps.{IsStamped, StaysOrReopens, serve-IsStamped, after-completed}
use proof_forge.Milestones.Order.{Lists, create-place, list_for_goal-Lists}
use proof_forge.Milestones.Reopening.{quiet, complete-reopen}

abbrev owner : User
owner = record { id = 1; email = codes "a@b.c"; display_name = codes "Ann" }

abbrev buddy : User
buddy = record { id = 2; email = codes "d@e.f"; display_name = [] }

abbrev goal : Goal
goal = record {
  id = 5;
  owner_user_id = 1;
  buddy_user_id = some 2;
  circle_id = some 4;
  team_id = none;
  title = codes "run";
  description = [];
  proof_examples = [];
  category = [];
  status = GoalStatus.active;
  current_streak_count = 0;
  current_progress_health = unknown;
  movement_mode = free_goal;
  rhythm_cadence = none;
  challenge_duration_days = none;
  challenge_starts_at = none;
  challenge_ends_at = none;
  initiative_id = none;
  created_at = 0;
  updated_at = 0;
}

abbrev first_draft : Milestone
first_draft = record {
  id = 1;
  goal_id = 5;
  title = codes "draft";
  description = [];
  status = pending;
  sort_order = pos 3;
  completed_at = none;
  completed_by_user_id = none;
  created_at = 0;
  updated_at = 0;
}

abbrev outline : Milestone
outline = record first_draft {
  id = 2;
  status = completed;
  sort_order = negsuc 0;
  completed_at = some 4;
  completed_by_user_id = some 2;
}

abbrev tables : Store
tables = record {
  goals = goal ∷ [];
  milestones = outline ∷ first_draft ∷ [];
  next_milestone_id = 3;
}

abbrev env : Env
env = record { now = 10; db_now = 11 }

abbrev call : User → Request → Call
call actor r = record { env = env; actor = actor; request = r; outages = [] }

abbrev print_it : CreateInput
print_it = record { title = codes "print"; description = [] }

abbrev history : List Call
history =
    call owner (create_request 5 print_it)
    ∷ call buddy (complete_request 1)
    ∷ call buddy (reopen_request 2)
    ∷ call owner (remove_request 1)
    ∷ []

serve-IsStamped_example : All IsStamped (serve history tables).milestones
serve-IsStamped_example = serve-IsStamped history tables (((4, refl), 2, refl), ((refl, refl), tt))

after-completed_example :
    StaysOrReopens 1 2 outline tables (after (call owner (remove_request 2)) tables)
unfolding find
after-completed_example = after-completed (call owner (remove_request 2)) 2 outline tables refl refl

abbrev printed : Milestone
printed = inserted_milestone 11 3 5 (codes "print") [] (pos 4)

create-place_example :
    All
      (λ n. (n.goal_id == 5) ≡ true → comes_before n printed ≡ is_pending n.status)
      tables.milestones
unfolding create find validate trim_space find_goal_participants next_sort_order insert order_after
    max_order
create-place_example = create-place env owner 5 print_it (quiet tables) printed refl

list_for_goal-Lists_example : Lists 5 tables (first_draft ∷ outline ∷ [])
unfolding list_for_goal find sort_by comes_before find_goal_participants find_by_goal
list_for_goal-Lists_example =
    list_for_goal-Lists buddy 5 (quiet tables) (first_draft ∷ outline ∷ []) refl

complete-reopen_example :
    find 1 (reopen env buddy 1 (complete env buddy 1 (quiet tables)).1).1.store.milestones
    ≡ some (record first_draft { updated_at = 10 })
unfolding find
complete-reopen_example =
    complete-reopen env env buddy 1 tables first_draft goal refl refl (refl, refl) refl refl
