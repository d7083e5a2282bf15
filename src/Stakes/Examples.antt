-- ===== src/Stakes/Examples.antt =====
-- Tests of stakes on small tables.
use proof_forge.Prelude.{◌≡◌, refl, none, some, true, false, List, [], ◌∷◌, inl}
use proof_forge.Prelude.Text.{codes}
use proof_forge.Prelude.Table.{find}
use proof_forge.Prelude.Action.{err}
use proof_forge.Users.{User}
use proof_forge.Goals.{Goal, GoalStatus, unknown, free_goal, goal_keyed}
use proof_forge.Stakes.Repository.{
  Store, Stake, active, stake_keyed, set_status, forfeited, db_failure, stake_not_active,
}
use proof_forge.Stakes.Service.{Env, Request, forfeit_request, cancel_request, Call, serve, forfeit}
use proof_forge.Stakes.Consistency.{IsAccounted, serve-IsAccounted, forfeit-halfway}

abbrev buddy : User
buddy = record { id = 2; email = codes "d@e.f"; display_name = [] }

abbrev goal : Goal
goal = record {
  id = 5;
  owner_user_id = 1;
  buddy_user_id = some 2;
  circle_id = some 4;
  team_id = none;
  title = codes "run";
  description = [];
  proof_examples = [];
  category = [];
  status = GoalStatus.active;
  current_streak_count = 0;
  current_progress_health = unknown;
  movement_mode = free_goal;
  rhythm_cadence = none;
  challenge_duration_days = none;
  challenge_starts_at = none;
  challenge_ends_at = none;
  initiative_id = none;
  created_at = 0;
  updated_at = 0;
}

abbrev stake : Stake
stake = record {
  id = 1;
  goal_id = 5;
  owner_user_id = 1;
  description = codes "a dinner";
  status = active;
  forfeited_at = none;
  completed_at = none;
  cancelled_at = none;
  created_at = 0;
  updated_at = 0;
}

abbrev tables : Store
tables = record {
  goals = goal ∷ [];
  stakes = stake ∷ [];
  forfeitures = [];
  next_stake_id = 2;
  next_forfeiture_id = 1;
}

abbrev env : Env
env = record { now = 10; db_now = 11 }

abbrev call : Request → Call
call r = record { env = env; actor = buddy; request = r; outages = [] }

abbrev history : List Call
history = call (forfeit_request 1 []) ∷ call (forfeit_request 1 []) ∷ call (cancel_request 1) ∷ []

serve-IsAccounted_example : IsAccounted 1 (serve history tables)
serve-IsAccounted_example = serve-IsAccounted history 1 tables (inl refl)

forfeit-halfway_example :
    let (r, w) =
      forfeit env buddy 1 []
        (record { store = tables; outages = false ∷ false ∷ false ∷ true ∷ [] }) in
    (r ≡ err db_failure)
    × (find 1 w.store.stakes ≡ some (set_status forfeited 10 stake))
    × (w.store.forfeitures ≡ [])
    × (forfeit env buddy 1 [] w ≡ (err stake_not_active, w))
unfolding find
forfeit-halfway_example =
    forfeit-halfway env env buddy 1 [] [] tables stake goal refl refl refl refl
